-- ===== src/Handler/Weights.antt =====
-- pkg/pgmodel/sql_ingest.go: the series of a routine stay in its buffers as long as nobody is told an error.
use timescale_prometheus.Labels.{Labels}
use timescale_prometheus.Samples.{Sample, SamplesInfo, new_sample_info_iterator, reset_position}
use timescale_prometheus.SeriesIds.{Sent, fill_known_series_ids, set_series_ids}
use timescale_prometheus.SeriesIds.Weights.{
  weigh, weigh-append, weigh-fill_known_series_ids, weigh-set_series_ids,
}
use timescale_prometheus.Inserter.{
  Pending, Request, new_pending, has_pending_reqs, add_req, report_results, flush_size,
}
use timescale_prometheus.Handler.{
  Handler, Told, Input, request, nothing, closed, zero_request, flush_pending, flush, handle_req,
  after_receive, turn,
}
use timescale_prometheus.Handler.Responses.{count, count-append}
use timescale_prometheus.Prelude.{
  ℕ, ◌+◌, ◌≤◌, ◌≡◌, refl, ◌∙◌, true, inl, inr, none, some, List, [], ◌∷◌, ◌++◌, ◌==◌, if◌then◌else◌,
  map, All, All-append, arith, Option-cases, Bool-cases, leb, length,
}

-- How often a task is told an error.
unfoldable pub count_failed : {E : Type 0} → ℕ → Told E → ℕ
count_failed c [] = 0
count_failed c ((d, none) ∷ told) = count_failed c told
count_failed c ((d, some e) ∷ told) = (if c == d then 1 else 0) + count_failed c told

pub count_failed-append :
    {E : Type 0} (c : ℕ) (xs ys : Told E)
    → count_failed c (xs ++ ys) ≡ count_failed c xs + count_failed c ys
unfolding count_failed
count_failed-append c [] ys = omega arith
count_failed-append c ((d, none) ∷ xs) ys = count_failed-append c xs ys
count_failed-append c ((d, some e) ∷ xs) ys = omega (arith, count_failed-append c xs ys)

pub count_failed-map :
    {E : Type 0} (c : ℕ) (e : E) (ts : List ℕ)
    → count_failed c (map (λ task. (task, some e)) ts) ≡ count c ts
unfolding count_failed count
count_failed-map c e [] = refl
count_failed-map c e (t ∷ ts) = omega (arith, count_failed-map c e ts)

module _ {F : Type 0} (weight : List (Sample F) → ℕ) where
  unfoldable pub weigh_queued : List (Pending F) → ℕ
  weigh_queued [] = 0
  weigh_queued (p ∷ ps) = weigh weight p.batch.sample_infos + weigh_queued ps

  weigh_queued-append :
      (ps : List (Pending F)) (p : Pending F)
      → weigh_queued (ps ++ p ∷ []) ≡ weigh_queued ps + weigh weight p.batch.sample_infos
  unfolding weigh_queued
  weigh_queued-append [] p = omega arith
  weigh_queued-append (q ∷ ps) p = omega (arith, weigh_queued-append ps p)

  unfoldable pub weigh_handler : Handler F → ℕ
  weigh_handler h = weigh_queued h.to_copiers + weigh weight h.pending.batch.sample_infos

  -- The weight that an input brings.
  unfoldable pub weigh_input : Input F → ℕ
  weigh_input (request req) = weigh weight req.infos
  weigh_input nothing = 0
  weigh_input closed = 0

-- The series that count belong to the call `c`.
module _ {F : Type 0} (weight : List (Sample F) → ℕ) (c : ℕ) where
  -- Series that count are only where the call waits.
  abbrev pub IsOwned : List ℕ → List (SamplesInfo F) → Type 0
  IsOwned tasks infos = count c tasks ≡ 0 → weigh weight infos ≡ 0

  abbrev pub IsOwnedBuffer : Pending F → Type 0
  IsOwnedBuffer p = IsOwned p.needs_response p.batch.sample_infos

  pub record IsOwnedHandler (h : Handler F) : Type 0 where
    pub queued : All IsOwnedBuffer h.to_copiers
    pub pending : IsOwnedBuffer h.pending

  -- What a handler is after it told what it told, for the weight that there was.
  pub record IsKept {E : Type 0} (before : ℕ) (after : Told E × Handler F) : Type 0 where
    pub owned : IsOwnedHandler after.1
    pub kept : count_failed c after.0 ≡ 0 → weigh_handler weight after.1 ≡ before
    pub bounded : weigh_handler weight after.1 ≤ before

  abbrev pub IsOwnedInput : Input F → Type 0
  IsOwnedInput (request req) = IsOwned (req.task ∷ []) req.infos
  IsOwnedInput nothing = Unit
  IsOwnedInput closed = Unit

  module _ {E : Type 0} (send : List Labels → Sent E) where
    flush_pending-IsKept :
        (h : Handler F) → IsOwnedHandler h → IsKept (weigh_handler weight h) (flush_pending send h)
    unfolding flush_pending report_results weigh_handler new_pending new_sample_info_iterator
        reset_position
    flush_pending-IsKept h o =
        let (err, cache, infos) = set_series_ids send h.series_cache h.pending.batch.sample_infos in
        let p : Pending F = record h.pending {
          batch = record h.pending.batch { sample_infos = infos };
        } in
        let same = weigh-set_series_ids weight send h.series_cache h.pending.batch.sample_infos in
        let mine = o.pending in
        elim (Option-cases (set_series_ids send h.series_cache h.pending.batch.sample_infos).0) [
          | inl e ↦
              rw (flush_pending, e)
                (record {
                  owned = record {
                    queued =
                        All-append IsOwnedBuffer h.to_copiers (p ∷ []) o.queued
                          (λ z. same ∙ mine z, tt);
                    pending = λ z. unfold weigh in refl;
                  };
                  kept = λ z.
                      let a = weigh_queued-append weight h.to_copiers p in
                      unfold weigh in omega (arith, a, same);
                  bounded =
                      let a = weigh_queued-append weight h.to_copiers p in
                      unfold weigh in omega (arith, a, same);
                })
          | inr (x, e) ↦
              rw (flush_pending, e)
                (record {
                  owned = record { queued = o.queued; pending = λ z. unfold weigh in refl };
                  kept = λ z.
                      let a = count_failed-map c x h.pending.needs_response in
                      let b = mine (omega arith) in unfold weigh in omega arith;
                  bounded = unfold weigh in omega arith;
                })
        ]

    flush-IsKept :
        (h : Handler F) → IsOwnedHandler h → IsKept (weigh_handler weight h) (flush send h)
    unfolding flush
    flush-IsKept h o =
        let here : IsKept (weigh_handler weight h) ([], h) = record {
          owned = o;
          kept = λ z. refl;
          bounded = omega arith;
        } in
        let flushed = flush_pending-IsKept h o in
        elim (Bool-cases (has_pending_reqs h.pending)) [
          | inl e ↦ rw (flush, e) flushed
          | inr e ↦ rw (flush, e) here
        ]

    handle_req-IsKept :
        (h : Handler F) (req : Request F)
        → IsOwnedHandler h
        → IsOwned (req.task ∷ []) req.infos
        → IsKept (weigh_handler weight h + weigh weight req.infos) (handle_req send h req)
    unfolding handle_req
    handle_req-IsKept h req o mine =
        let infos = (fill_known_series_ids h.series_cache req.infos).0 in
        let same = weigh-fill_known_series_ids weight h.series_cache req.infos in
        let (needs_flush, p) = add_req h.pending (record req { infos = infos }) in
        let h' = record h { pending = p } in
        let tasks = count-append c h.pending.needs_response (req.task ∷ []) in
        let series = weigh-append weight h.pending.batch.sample_infos infos in
        let old = o.pending in
        let owned : IsOwnedHandler h' = record {
          queued = o.queued;
          pending =
              unfold add_req in
              (λ z. let a = old (omega arith) in let b = mine (omega arith) in omega arith);
        } in
        let more : weigh_handler weight h' ≡ weigh_handler weight h + weigh weight req.infos =
          unfold weigh_handler add_req in omega (arith, series, same) in
        let flushed = flush_pending-IsKept h' owned in
        elim (Bool-cases (add_req h.pending (record req { infos = infos })).0) [
          | inl e ↦ rw (handle_req, e, ← more) flushed
          | inr e ↦
              rw (handle_req, e) (record { owned = owned; kept = λ z. more; bounded = omega arith })
        ]

    after_receive-IsKept :
        (before : ℕ) (r : Told E × Handler F)
        → IsKept before r
        → IsKept before (after_receive send r)
    unfolding after_receive
    after_receive-IsKept before (told, h) k =
        let flushed = flush-IsKept h k.owned in
        let both = count_failed-append c told (flush send h).0 in
        let all : IsKept before (told ++ (flush send h).0, (flush send h).1) = record {
          owned = flushed.owned;
          kept = λ z.
              let a = k.kept (omega arith) in let b = flushed.kept (omega arith) in omega arith;
          bounded = let a = k.bounded in let b = flushed.bounded in omega arith;
        } in
        elim (Bool-cases (leb flush_size (length h.pending.batch.sample_infos))) [
          | inl e ↦ rw (after_receive, e) all
          | inr e ↦ rw (after_receive, e) k
        ]

    pub turn-IsKept :
        (h : Handler F) (i : Input F)
        → IsOwnedHandler h
        → IsOwnedInput i
        → IsKept (weigh_handler weight h + weigh_input weight i) (turn send h i)
    unfolding turn weigh_input
    turn-IsKept h (request req) o mine =
        let a = handle_req-IsKept h req o mine in
        let b =
          after_receive-IsKept (weigh_handler weight h + weigh weight req.infos)
            (handle_req send h req) a in
        elim (Bool-cases (has_pending_reqs h.pending)) [
          | inl e ↦ rw (turn, e) b
          | inr e ↦ rw (turn, e) a
        ]
    turn-IsKept h nothing o mine =
        let a = flush-IsKept h o in
        record {
          owned = a.owned;
          kept = λ z. let b = a.kept z in omega arith;
          bounded = let b = a.bounded in omega arith;
        }
    turn-IsKept h closed o mine =
        let a : IsKept (weigh_handler weight h + 0) (handle_req send h zero_request) =
          unfold weigh zero_request in
          (handle_req-IsKept h zero_request o (λ z. unfold weigh zero_request in refl)) in
        let b =
          after_receive-IsKept (weigh_handler weight h + 0) (handle_req send h zero_request) a in
        let over : IsKept (weigh_handler weight h + 0) ([], record h { returned = true }) = record {
          owned = record { queued = o.queued; pending = o.pending };
          kept = λ (z : count_failed {E = E} c [] ≡ 0). unfold weigh_handler in omega arith;
          bounded = unfold weigh_handler in omega arith;
        } in
        elim (Bool-cases (has_pending_reqs h.pending)) [
          | inl e ↦ rw (turn, e) b
          | inr e ↦ rw (turn, e) over
        ]
