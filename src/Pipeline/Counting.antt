-- ===== src/Pipeline/Counting.antt =====
-- pkg/pgmodel/sql_ingest.go: the counter of a wait group is the number of requests of its call that are
-- somewhere in the pipeline.
use timescale_prometheus.Prelude.Bytes.{Bytes, Bytes-discrete}
use timescale_prometheus.Inserter.{Pending, Request, has_pending_reqs, new_pending}
use timescale_prometheus.Handler.{Told, Handler, Input, new_handler}
use timescale_prometheus.Handler.Responses.{
  count, count_told, count_queued, count_waiting, count_requests,
}
use timescale_prometheus.Pipeline.{
  Phase, starting, failed, serving, Routine, CopyRequest, Call, Pipeline, send_error, done, tell,
  insert_metric_data, Lookup, found, entry_not_found, lookup_failed, NameReply, query_failed,
  no_row, scan_failed, row, get_metric_table_name, start_routine, next_input,
}
use timescale_prometheus.Prelude.{
  ℕ, ◌+◌, ◌-◌, ◌<◌, ◌≡◌, refl, List, [], ◌∷◌, ◌++◌, ◌==◌, length, map, if◌then◌else◌, arith, some,
  Bool-cases, inl, inr,
}

unfoldable pub unsent : {F : Type 0} → ℕ → List (Call F) → ℕ
unsent c [] = 0
unsent c (k ∷ ks) = (if c == k.number then length k.rows else 0) + unsent c ks

unfoldable pub in_channel : {F : Type 0} → ℕ → List (Request F) → ℕ
in_channel c [] = 0
in_channel c (req ∷ reqs) = (if c == req.task then 1 else 0) + in_channel c reqs

unfoldable pub in_phase : {F E : Type 0} → ℕ → Phase F E → ℕ
in_phase c (starting call) = 0
in_phase c (failed e) = 0
in_phase c (serving table h) = count_waiting c h

unfoldable pub in_routines : {F E : Type 0} → ℕ → List (Routine F E) → ℕ
in_routines c [] = 0
in_routines c (r ∷ rs) = in_channel c r.channel + in_phase c r.phase + in_routines c rs

unfoldable pub in_queue : {F : Type 0} → ℕ → List (CopyRequest F) → ℕ
in_queue c [] = 0
in_queue c (q ∷ qs) = count c q.buffer.needs_response + in_queue c qs

-- The requests of a call that are somewhere in the pipeline.
unfoldable pub in_pipeline : {F E : Type 0} → ℕ → Pipeline F E → ℕ
in_pipeline c p = unsent c p.calls + in_routines c p.routines + in_queue c p.to_copiers

abbrev pub IsCounted : {F E : Type 0} → Pipeline F E → Type 0
IsCounted p = (c : ℕ) → 0 < c → p.outstanding c ≡ in_pipeline c p

module _ {F : Type 0} (c : ℕ) where
  pub unsent-append :
      (before : List (Call F)) (k : Call F) (after : List (Call F))
      → unsent c (before ++ k ∷ after)
        ≡ (if c == k.number then length k.rows else 0) + (unsent c before + unsent c after)
  unfolding unsent
  unsent-append [] k after = omega arith
  unsent-append (b ∷ bs) k after = omega (arith, unsent-append bs k after)

  pub in_channel-append :
      (xs ys : List (Request F)) → in_channel c (xs ++ ys) ≡ in_channel c xs + in_channel c ys
  unfolding in_channel
  in_channel-append [] ys = omega arith
  in_channel-append (x ∷ xs) ys = omega (arith, in_channel-append xs ys)

  pub in_queue-append :
      (xs ys : List (CopyRequest F)) → in_queue c (xs ++ ys) ≡ in_queue c xs + in_queue c ys
  unfolding in_queue
  in_queue-append [] ys = omega arith
  in_queue-append (x ∷ xs) ys = omega (arith, in_queue-append xs ys)

  pub in_queue-map :
      (table : Bytes) (bs : List (Pending F))
      → in_queue c (map (λ b. record { buffer = b; table = table }) bs) ≡ count_queued c bs
  unfolding in_queue count_queued
  in_queue-map table [] = refl
  in_queue-map table (b ∷ bs) = omega (arith, in_queue-map table bs)

module _ {F E : Type 0} (c : ℕ) where
  pub in_routines-append :
      (before : List (Routine F E)) (r : Routine F E) (after : List (Routine F E))
      → in_routines c (before ++ r ∷ after)
        ≡ in_channel c r.channel + in_phase c r.phase + (in_routines c before + in_routines c after)
  unfolding in_routines
  in_routines-append [] r after = omega arith
  in_routines-append (b ∷ bs) r after = omega (arith, in_routines-append bs r after)

  pub insert_metric_data-count :
      (metric : Bytes) (req : Request F) (rs : List (Routine F E))
      → in_routines c (insert_metric_data metric req rs)
        ≡ (if c == req.task then 1 else 0) + in_routines c rs
  unfolding insert_metric_data in_routines in_channel in_phase
  insert_metric_data-count metric req [] = omega arith
  insert_metric_data-count metric req (r ∷ rs) = elim (Bytes-discrete r.metric metric) [
    | yes e ↦ ground (arith, in_channel-append c r.channel (req ∷ []))
    | no e ↦ ground (arith, insert_metric_data-count metric req rs)
  ]

module _ {F E : Type 0} where
  -- What is told changes only the counters and the error channels.
  pub tell_lem :
      (told : Told E) (p : Pipeline F E)
      → ((tell told p).calls ≡ p.calls)
        × ((tell told p).routines ≡ p.routines)
        × ((tell told p).to_copiers ≡ p.to_copiers)
        × ((tell told p).complete_metric_creation ≡ p.complete_metric_creation)
        × ((c : ℕ) → (tell told p).outstanding c ≡ p.outstanding c - count_told c told)
  unfolding tell count_told
  tell_lem [] p = (refl, refl, refl, refl, λ c. omega arith)
  tell_lem ((call, err) ∷ told) p =
      let q = record p {
        err_chan = send_error call err p.err_chan;
        outstanding = done call p.outstanding;
      } in
      let (calls, routines, queue, signal, counts) = tell_lem told q in
      (calls, routines, queue, signal, λ c. unfold done in (let n = counts c in ground arith))

-- A turn takes from the channel what is no longer in it.
pub next_input-count :
    {F : Type 0} (c : ℕ) (channel : List (Request F)) (h : Handler F) (i : Input F)
    (reqs : List (Request F))
    → next_input channel h ≡ some (i, reqs)
    → in_channel c channel ≡ count_requests c (i ∷ []) + in_channel c reqs
unfolding next_input in_channel count_requests
next_input-count c [] h i reqs e = elim (Bool-cases (has_pending_reqs h.pending)) [
  | inl b ↦ ground arith
  | inr b ↦ absurd (ground arith)
]
next_input-count c (req ∷ rest) h i reqs e = ground arith

pub start_routine-count :
    (F : Type 0) {E : Type 0} (c : ℕ) (missing : E) (lookup : Lookup E) (reply : NameReply E)
    → in_phase c (start_routine {F = F} missing lookup reply).0 ≡ 0
unfolding start_routine in_phase get_metric_table_name count_waiting new_handler count_queued
    new_pending count
start_routine-count F c missing (found table) reply = refl
start_routine-count F c missing (lookup_failed e) reply = refl
start_routine-count F c missing entry_not_found (query_failed e) = refl
start_routine-count F c missing entry_not_found no_row = refl
start_routine-count F c missing entry_not_found (scan_failed e) = refl
start_routine-count F c missing entry_not_found (row table new) = refl
