-- ===== src/Pipeline/Weights.antt =====
-- pkg/pgmodel/sql_ingest.go: how much of the series is in each place of the pipeline, and whose calls wait there.
use timescale_prometheus.Prelude.Bytes.{Bytes, Bytes-discrete}
use timescale_prometheus.Samples.{Sample, SamplesInfo, new_sample_info_iterator, reset_position}
use timescale_prometheus.SeriesIds.Weights.{weigh}
use timescale_prometheus.Inserter.{Pending, Request, has_pending_reqs, new_pending}
use timescale_prometheus.Handler.{Handler, Input, request, nothing, new_handler}
use timescale_prometheus.Handler.Weights.{
  weigh_queued, weigh_handler, weigh_input, IsOwned, IsOwnedBuffer, IsOwnedHandler, IsOwnedInput,
}
use timescale_prometheus.Handler.Responses.{count}
use timescale_prometheus.Pipeline.{
  Lookup, found, entry_not_found, lookup_failed, NameReply, query_failed, no_row, scan_failed, row,
  get_metric_table_name, Phase, starting, failed, serving, Routine, CopyRequest, Call, Pipeline,
  insert_metric_data, start_routine, next_input,
}
use timescale_prometheus.Prelude.{
  ℕ, ◌+◌, ◌≡◌, refl, inl, inr, some, List, [], ◌∷◌, ◌++◌, map, All, All-append, arith, Bool-cases,
  if_pos, if_neg,
}

module _ {F : Type 0} (weight : List (Sample F) → ℕ) where
  unfoldable pub weigh_rows : List (Bytes × List (SamplesInfo F)) → ℕ
  weigh_rows [] = 0
  weigh_rows ((metric, infos) ∷ rows) = weigh weight infos + weigh_rows rows

  unfoldable pub weigh_calls : List (Call F) → ℕ
  weigh_calls [] = 0
  weigh_calls (k ∷ ks) = weigh_rows k.rows + weigh_calls ks

  unfoldable pub weigh_channel : List (Request F) → ℕ
  weigh_channel [] = 0
  weigh_channel (req ∷ reqs) = weigh weight req.infos + weigh_channel reqs

  unfoldable pub weigh_queue : List (CopyRequest F) → ℕ
  weigh_queue [] = 0
  weigh_queue (q ∷ qs) = weigh weight q.buffer.batch.sample_infos + weigh_queue qs

  pub weigh_calls-append :
      (before : List (Call F)) (k : Call F) (after : List (Call F))
      → weigh_calls (before ++ k ∷ after)
        ≡ weigh_rows k.rows + (weigh_calls before + weigh_calls after)
  unfolding weigh_calls
  weigh_calls-append [] k after = omega arith
  weigh_calls-append (b ∷ bs) k after = omega (arith, weigh_calls-append bs k after)

  pub weigh_channel-append :
      (xs ys : List (Request F)) → weigh_channel (xs ++ ys) ≡ weigh_channel xs + weigh_channel ys
  unfolding weigh_channel
  weigh_channel-append [] ys = omega arith
  weigh_channel-append (x ∷ xs) ys = omega (arith, weigh_channel-append xs ys)

  pub weigh_queue-append :
      (xs ys : List (CopyRequest F)) → weigh_queue (xs ++ ys) ≡ weigh_queue xs + weigh_queue ys
  unfolding weigh_queue
  weigh_queue-append [] ys = omega arith
  weigh_queue-append (x ∷ xs) ys = omega (arith, weigh_queue-append xs ys)

  pub weigh_queue-map :
      (table : Bytes) (bs : List (Pending F))
      → weigh_queue (map (λ b. record { buffer = b; table = table }) bs) ≡ weigh_queued weight bs
  unfolding weigh_queue weigh_queued
  weigh_queue-map table [] = refl
  weigh_queue-map table (b ∷ bs) = omega (arith, weigh_queue-map table bs)

  module _ {E : Type 0} where
    unfoldable pub weigh_phase : Phase F E → ℕ
    weigh_phase (starting call) = 0
    weigh_phase (failed e) = 0
    weigh_phase (serving table h) = weigh_handler weight h

    unfoldable pub weigh_routines : List (Routine F E) → ℕ
    weigh_routines [] = 0
    weigh_routines (r ∷ rs) = weigh_channel r.channel + weigh_phase r.phase + weigh_routines rs

    -- The weight of all series in the pipeline.
    unfoldable pub weigh_pipeline : Pipeline F E → ℕ
    weigh_pipeline p = weigh_calls p.calls + weigh_routines p.routines + weigh_queue p.to_copiers

    pub weigh_routines-append :
        (before : List (Routine F E)) (r : Routine F E) (after : List (Routine F E))
        → weigh_routines (before ++ r ∷ after)
          ≡ weigh_channel r.channel
            + weigh_phase r.phase
            + (weigh_routines before + weigh_routines after)
    unfolding weigh_routines
    weigh_routines-append [] r after = omega arith
    weigh_routines-append (b ∷ bs) r after = omega (arith, weigh_routines-append bs r after)

    pub weigh_routines-insert_metric_data :
        (metric : Bytes) (req : Request F) (rs : List (Routine F E))
        → weigh_routines (insert_metric_data metric req rs)
          ≡ weigh weight req.infos + weigh_routines rs
    unfolding insert_metric_data weigh_routines weigh_channel weigh_phase
    weigh_routines-insert_metric_data metric req [] = omega arith
    weigh_routines-insert_metric_data metric req (r ∷ rs) = elim (Bytes-discrete r.metric metric) [
      | yes e ↦ ground (arith, weigh_channel-append r.channel (req ∷ []))
      | no e ↦ ground (arith, weigh_routines-insert_metric_data metric req rs)
    ]

    pub weigh_phase-start_routine :
        (missing : E) (lookup : Lookup E) (reply : NameReply E)
        → weigh_phase (start_routine missing lookup reply).0 ≡ 0
    unfolding start_routine weigh_phase get_metric_table_name weigh_handler weigh_queued weigh
        new_handler new_pending
    weigh_phase-start_routine missing (found table) reply = refl
    weigh_phase-start_routine missing (lookup_failed e) reply = refl
    weigh_phase-start_routine missing entry_not_found (query_failed e) = refl
    weigh_phase-start_routine missing entry_not_found no_row = refl
    weigh_phase-start_routine missing entry_not_found (scan_failed e) = refl
    weigh_phase-start_routine missing entry_not_found (row table new) = refl

-- The series that count belong to the call `c`, so that they are only where it waits.
module _ {F : Type 0} (weight : List (Sample F) → ℕ) (c : ℕ) where
  abbrev pub IsOwnedCall : Call F → Type 0
  IsOwnedCall k = count c (k.number ∷ []) ≡ 0 → weigh_rows weight k.rows ≡ 0

  abbrev pub IsOwnedRequest : Request F → Type 0
  IsOwnedRequest req = IsOwned weight c (req.task ∷ []) req.infos

  abbrev pub IsOwnedCopy : CopyRequest F → Type 0
  IsOwnedCopy q = IsOwnedBuffer weight c q.buffer

  new_handler-IsOwnedHandler : IsOwnedHandler weight c new_handler
  unfolding new_handler new_pending new_sample_info_iterator reset_position
  new_handler-IsOwnedHandler = record { queued = tt; pending = λ z. unfold weigh in refl }

  -- What a routine takes next: its weight, and whose it is.
  pub next_input-IsOwned :
      (channel : List (Request F)) (h : Handler F) (i : Input F) (reqs : List (Request F))
      → All IsOwnedRequest channel
      → next_input channel h ≡ some (i, reqs)
      → IsOwnedInput weight c i
        × All IsOwnedRequest reqs
        × (weigh_channel weight channel ≡ weigh_input weight i + weigh_channel weight reqs)
  unfolding next_input
  next_input-IsOwned [] h i reqs ks e = elim (Bool-cases (has_pending_reqs h.pending)) [
    | inl b ↦
        let same_input : nothing ≡ i = ground arith in
        let same : [] ≡ reqs = ground arith in
        rw (← same_input, ← same) (tt, tt, unfold weigh_channel weigh_input in refl)
    | inr b ↦ absurd (ground arith)
  ]
  next_input-IsOwned (req ∷ rest) h i reqs (k, ks) e =
      let same_input : request req ≡ i = ground arith in
      let same : rest ≡ reqs = ground arith in
      rw (← same_input, ← same) (k, ks, unfold weigh_channel weigh_input in refl)

  module _ {E : Type 0} where
    unfoldable pub IsOwnedPhase : Phase F E → Type 0
    IsOwnedPhase (starting call) = Unit
    IsOwnedPhase (failed e) = Unit
    IsOwnedPhase (serving table h) = IsOwnedHandler weight c h

    abbrev pub IsOwnedRoutine : Routine F E → Type 0
    IsOwnedRoutine r = All IsOwnedRequest r.channel × IsOwnedPhase r.phase

    pub record IsOwnedPipeline (p : Pipeline F E) : Type 0 where
      pub calls : All IsOwnedCall p.calls
      pub routines : All IsOwnedRoutine p.routines
      pub queue : All IsOwnedCopy p.to_copiers

    pub insert_metric_data-IsOwnedRoutine :
        (metric : Bytes) (req : Request F) (rs : List (Routine F E))
        → IsOwnedRequest req
        → All IsOwnedRoutine rs
        → All IsOwnedRoutine (insert_metric_data metric req rs)
    unfolding insert_metric_data
    insert_metric_data-IsOwnedRoutine metric req [] h hs =
        ((((h, tt), unfold IsOwnedPhase in tt)), tt)
    insert_metric_data-IsOwnedRoutine metric req (r ∷ rs) h (k, ks) =
        elim (Bytes-discrete r.metric metric) [
          | yes e ↦
              rw (insert_metric_data, if_pos _ e)
                ((All-append IsOwnedRequest r.channel (req ∷ []) k.0 (h, tt), k.1), ks)
          | no e ↦
              rw (insert_metric_data, if_neg _ e)
                (k, insert_metric_data-IsOwnedRoutine metric req rs h ks)
        ]

    pub start_routine-IsOwnedPhase :
        (missing : E) (lookup : Lookup E) (reply : NameReply E)
        → IsOwnedPhase (start_routine missing lookup reply).0
    unfolding start_routine IsOwnedPhase get_metric_table_name new_handler new_pending
    start_routine-IsOwnedPhase missing (found table) reply = new_handler-IsOwnedHandler
    start_routine-IsOwnedPhase missing (lookup_failed e) reply = tt
    start_routine-IsOwnedPhase missing entry_not_found (query_failed e) = tt
    start_routine-IsOwnedPhase missing entry_not_found no_row = tt
    start_routine-IsOwnedPhase missing entry_not_found (scan_failed e) = tt
    start_routine-IsOwnedPhase missing entry_not_found (row table new) = new_handler-IsOwnedHandler

  pub map-IsOwnedCopy :
      (table : Bytes) (bs : List (Pending F))
      → All (IsOwnedBuffer weight c) bs
      → All IsOwnedCopy (map (λ b. record { buffer = b; table = table }) bs)
  map-IsOwnedCopy table [] h = tt
  map-IsOwnedCopy table (b ∷ bs) (h, hs) = (h, map-IsOwnedCopy table bs hs)
