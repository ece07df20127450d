-- ===== src/Pipeline/Absence.antt =====
-- pkg/pgmodel/sql_ingest.go: a call that waits for nothing has no series in the pipeline.
use timescale_prometheus.Prelude.Bytes.{Bytes}
use timescale_prometheus.Samples.{Sample, SamplesInfo}
use timescale_prometheus.Inserter.{Pending, Request}
use timescale_prometheus.Handler.Responses.{count, count_queued, count_waiting}
use timescale_prometheus.Handler.Weights.{weigh_queued, weigh_handler, IsOwnedBuffer}
use timescale_prometheus.Pipeline.{
  Phase, starting, failed, serving, Routine, CopyRequest, Call, Pipeline,
}
use timescale_prometheus.Pipeline.Counting.{
  unsent, in_channel, in_phase, in_routines, in_queue, in_pipeline,
}
use timescale_prometheus.Pipeline.Weights.{
  weigh_rows, weigh_calls, weigh_channel, weigh_queue, weigh_phase, weigh_routines, weigh_pipeline,
  IsOwnedCall, IsOwnedRequest, IsOwnedCopy, IsOwnedPhase, IsOwnedRoutine, IsOwnedPipeline,
}
use timescale_prometheus.Prelude.{
  ℕ, ◌≡◌, refl, inl, inr, List, [], ◌∷◌, All, arith, Bool-cases, ◌==◌, length,
}

-- Where no request of the call is, no series is that belongs to it.
module _ {F : Type 0} (weight : List (Sample F) → ℕ) (c : ℕ) where
  no_rows :
      (rows : List (Bytes × List (SamplesInfo F))) → length rows ≡ 0 → weigh_rows weight rows ≡ 0
  no_rows [] e = unfold weigh_rows in refl
  no_rows (row ∷ rows) e = absurd (omega arith)

  no_calls :
      (ks : List (Call F))
      → All (IsOwnedCall weight c) ks
      → unsent c ks ≡ 0
      → weigh_calls weight ks ≡ 0
  unfolding unsent weigh_calls
  no_calls [] h z = refl
  no_calls (k ∷ ks) (h, hs) z =
      let rest = no_calls ks hs (omega arith) in
      elim (Bool-cases (c == k.number)) [
        | inr other ↦ let a = h (unfold count in ground arith) in omega arith
        | inl same ↦
            let none_left : length k.rows ≡ 0 = ground arith in
            let a = no_rows k.rows none_left in omega arith
      ]

  no_channel :
      (reqs : List (Request F))
      → All (IsOwnedRequest weight c) reqs
      → in_channel c reqs ≡ 0
      → weigh_channel weight reqs ≡ 0
  unfolding in_channel weigh_channel
  no_channel [] h z = refl
  no_channel (req ∷ reqs) (h, hs) z =
      let a = h (unfold count in omega arith) in
      let b = no_channel reqs hs (omega arith) in omega arith

  no_queue :
      (qs : List (CopyRequest F))
      → All (IsOwnedCopy weight c) qs
      → in_queue c qs ≡ 0
      → weigh_queue weight qs ≡ 0
  unfolding in_queue weigh_queue
  no_queue [] h z = refl
  no_queue (q ∷ qs) (h, hs) z =
      let a = h (omega arith) in let b = no_queue qs hs (omega arith) in omega arith

  no_queued :
      (ps : List (Pending F))
      → All (IsOwnedBuffer weight c) ps
      → count_queued c ps ≡ 0
      → weigh_queued weight ps ≡ 0
  unfolding count_queued weigh_queued
  no_queued [] h z = refl
  no_queued (p ∷ ps) (h, hs) z =
      let a = h (omega arith) in let b = no_queued ps hs (omega arith) in omega arith

  module _ {E : Type 0} where
    no_phase :
        (phase : Phase F E)
        → IsOwnedPhase weight c phase
        → in_phase c phase ≡ 0
        → weigh_phase weight phase ≡ 0
    unfolding in_phase weigh_phase count_waiting weigh_handler IsOwnedPhase
    no_phase (starting call) h z = refl
    no_phase (failed e) h z = refl
    no_phase (serving table h) o z =
        let mine = o.pending in
        let a = mine (omega arith) in
        let b = no_queued h.to_copiers o.queued (omega arith) in omega arith

    no_routines :
        (rs : List (Routine F E))
        → All (IsOwnedRoutine weight c) rs
        → in_routines c rs ≡ 0
        → weigh_routines weight rs ≡ 0
    unfolding in_routines weigh_routines
    no_routines [] h z = refl
    no_routines (r ∷ rs) (h, hs) z =
        let a = no_channel r.channel h.0 (omega arith) in
        let b = no_phase r.phase h.1 (omega arith) in
        let d = no_routines rs hs (omega arith) in omega arith

    pub no_series :
        (p : Pipeline F E)
        → IsOwnedPipeline weight c p
        → in_pipeline c p ≡ 0
        → weigh_pipeline weight p ≡ 0
    unfolding in_pipeline weigh_pipeline
    no_series p o z =
        let a = no_calls p.calls o.calls (omega arith) in
        let b = no_routines p.routines o.routines (omega arith) in
        let d = no_queue p.to_copiers o.queue (omega arith) in omega arith
