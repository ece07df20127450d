-- ===== src/Handler/Responses.antt =====
-- pkg/pgmodel/sql_ingest.go: every task of a request is told once, and buffers stay small.
use timescale_prometheus.Labels.{Labels}
use timescale_prometheus.SeriesIds.{Sent, fill_known_series_ids, set_series_ids}
use timescale_prometheus.Inserter.{Pending, Request, new_pending, add_req, report_results}
use timescale_prometheus.Handler.{
  Handler, Told, Input, request, nothing, closed, zero_request, flush_pending, flush, handle_req,
  after_receive, turn, run,
}
use timescale_prometheus.Prelude.{
  ℕ, ◌+◌, ◌<◌, ◌≡◌, refl, inl, inr, ◌==◌, Option, some, List, [], ◌∷◌, ◌++◌, if◌then◌else◌, map,
  arith, Option-cases,
}

-- How often a task stands in a list, and is told something.
unfoldable pub count : ℕ → List ℕ → ℕ
count c [] = 0
count c (d ∷ ds) = (if c == d then 1 else 0) + count c ds

unfoldable pub count_told : {E : Type 0} → ℕ → Told E → ℕ
count_told c [] = 0
count_told c (d ∷ ds) = (if c == d.0 then 1 else 0) + count_told c ds

unfoldable pub count_queued : {F : Type 0} → ℕ → List (Pending F) → ℕ
unfolding count
count_queued c [] = 0
count_queued c (p ∷ ps) = count c p.needs_response + count_queued c ps

-- How often a task waits for the copiers or in the buffer.
unfoldable pub count_waiting : {F : Type 0} → ℕ → Handler F → ℕ
unfolding count count_queued
count_waiting c h = count_queued c h.to_copiers + count c h.pending.needs_response

pub count-append : (c : ℕ) (xs ys : List ℕ) → count c (xs ++ ys) ≡ count c xs + count c ys
unfolding count
count-append c [] ys = omega arith
count-append c (x ∷ xs) ys = omega (arith, count-append c xs ys)

count_told-append :
    {E : Type 0} (c : ℕ) (xs ys : Told E)
    → count_told c (xs ++ ys) ≡ count_told c xs + count_told c ys
unfolding count_told
count_told-append c [] ys = omega arith
count_told-append c (x ∷ xs) ys = omega (arith, count_told-append c xs ys)

count_queued-append :
    {F : Type 0} (c : ℕ) (ps : List (Pending F)) (p : Pending F)
    → count_queued c (ps ++ p ∷ []) ≡ count_queued c ps + count c p.needs_response
unfolding count_queued
count_queued-append c [] p = omega arith
count_queued-append c (q ∷ ps) p = omega (arith, count_queued-append c ps p)

pub count_told-map :
    {E : Type 0} (c : ℕ) (err : Option E) (ts : List ℕ)
    → count_told c (map (λ task. (task, err)) ts) ≡ count c ts
unfolding count_told count
count_told-map c err [] = refl
count_told-map c err (t ∷ ts) = ground (arith, count_told-map c err ts)

-- How often a task comes with the inputs.
unfoldable pub count_requests : {F : Type 0} → ℕ → List (Input F) → ℕ
count_requests c [] = 0
count_requests c (request req ∷ is) = (if c == req.task then 1 else 0) + count_requests c is
count_requests c (nothing ∷ is) = count_requests c is
count_requests c (closed ∷ is) = count_requests c is

count_requests_cons :
    {F : Type 0} (c : ℕ) (i : Input F) (is : List (Input F))
    → count_requests c (i ∷ is) ≡ count_requests c (i ∷ []) + count_requests c is
unfolding count_requests
count_requests_cons c (request req) is = omega arith
count_requests_cons c nothing is = omega arith
count_requests_cons c closed is = omega arith

module _ {F E : Type 0} (send : List Labels → Sent E) where
  flush_pending-count :
      (c : ℕ) (h : Handler F)
      → let (told, h') = flush_pending send h in
        count_told c told + count_waiting c h' ≡ count_waiting c h
  unfolding flush_pending report_results count_waiting count new_pending count_told
  flush_pending-count c h =
      let (err, cache, infos) = set_series_ids send h.series_cache h.pending.batch.sample_infos in
      let p = record h.pending { batch = record h.pending.batch { sample_infos = infos } } in
      elim (Option-cases (set_series_ids send h.series_cache h.pending.batch.sample_infos).0) [
        | inl e ↦ ground (arith, count_queued-append c h.to_copiers p)
        | inr (e, f) ↦ ground (arith, count_told-map c (some e) h.pending.needs_response)
      ]

  flush-count :
      (c : ℕ) (h : Handler F)
      → let (told, h') = flush send h in count_told c told + count_waiting c h' ≡ count_waiting c h
  unfolding flush count_told
  flush-count c h = let a = flush_pending-count c h in ground arith

  handle_req-count :
      (c : ℕ) (h : Handler F) (req : Request F)
      → let (told, h') = handle_req send h req in
        count_told c told + count_waiting c h'
        ≡ count_waiting c h + (if c == req.task then 1 else 0)
  unfolding handle_req add_req count_waiting count_told count
  handle_req-count c h req =
      let infos = (fill_known_series_ids h.series_cache req.infos).0 in
      let h' = record h { pending = (add_req h.pending (record req { infos = infos })).1 } in
      let a = flush_pending-count c h' in
      ground (arith, count-append c h.pending.needs_response (req.task ∷ []))

  after_receive-count :
      (c : ℕ) (told : Told E) (h : Handler F)
      → let (told', h') = after_receive send (told, h) in
        count_told c told' + count_waiting c h' ≡ count_told c told + count_waiting c h
  unfolding after_receive
  after_receive-count c told h =
      let a = flush-count c h in
      let (told', h') = flush send h in ground (arith, count_told-append c told told')

  pub turn-count :
      (c : ℕ) (h : Handler F) (i : Input F)
      → 0 < c
      → let (told, h') = turn send h i in
        count_told c told + count_waiting c h' ≡ count_waiting c h + count_requests c (i ∷ [])
  unfolding turn zero_request count_requests count_waiting count_told
  turn-count c h (request req) real =
      let a = handle_req-count c h req in
      let b = after_receive-count c (handle_req send h req).0 (handle_req send h req).1 in
      ground arith
  turn-count c h nothing real = let a = flush-count c h in ground arith
  turn-count c h closed real =
      let a = handle_req-count c h zero_request in
      let b =
        after_receive-count c (handle_req send h zero_request).0
          (handle_req send h zero_request).1 in
      ground arith

  -- Whatever the routine of a metric finds in its channel, a call (a number other than 0) is told
  -- something, or waits in the buffer or for a copier, together as often as its task came with a
  -- request, waiting before included: no task is lost and none is told twice.
  pub run-count :
      (c : ℕ) (h : Handler F) (is : List (Input F))
      → 0 < c
      → let (told, h') = run send h is in
        count_told c told + count_waiting c h' ≡ count_waiting c h + count_requests c is
  unfolding run count_requests count_told
  run-count c h [] real = omega arith
  run-count c h (i ∷ is) real =
      let a = turn-count c h i real in
      let (told, h') = turn send h i in
      let b = run-count c h' is real in
      let d = count_told-append c told (run send h' is).0 in
      let e : count_requests c (i ∷ is) ≡ count_requests c (i ∷ []) + count_requests c is =
        count_requests_cons c i is in
      omega arith
