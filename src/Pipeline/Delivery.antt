-- ===== src/Pipeline/Delivery.antt =====
-- pkg/pgmodel/sql_ingest.go: a call of `InsertData` that returns without an error has had its series written.
use timescale_prometheus.Prelude.Bytes.{Bytes}
use timescale_prometheus.Samples.{Sample, SamplesInfo}
use timescale_prometheus.SeriesIds.Weights.{weigh, weigh-append}
use timescale_prometheus.Handler.Responses.{count}
use timescale_prometheus.Pipeline.{Call, Pipeline, empty, begin_call}
use timescale_prometheus.Pipeline.Steps.{Step, HasSeries, Reach, at_start, insert_data, step}
use timescale_prometheus.Pipeline.Absence.{no_series}
use timescale_prometheus.Pipeline.Progress.{Reach-IsCounted}
use timescale_prometheus.Pipeline.Weights.{
  weigh_rows, weigh_calls, weigh_queue, weigh_routines, weigh_pipeline, IsOwnedPipeline,
}
use timescale_prometheus.Pipeline.Keeping.{Step-IsKeptBy}
use timescale_prometheus.Pipeline.Telling.{written_by, Step-errors}
use mathlib.Core.Path.{subst}
use timescale_prometheus.Prelude.{
  ℕ, ◌+◌, ◌≤◌, ◌<◌, ◌≡◌, ◌≢◌, refl, inl, inr, none, List, [], ◌∷◌, ◌++◌, All, arith, Bool-cases,
  ◌==◌,
}

-- A run of the pipeline: the calls that there were, the series that were written, and the state. The number of a
-- call is a new one.
module _ {F E : Type 0} (missing_table_name : E) (previously : E → E) where
  pub data Run (copiers : ℕ) : List (Call F) → List (SamplesInfo F) → Pipeline F E → Type 0 where
    starts : Run copiers [] [] empty
    calls :
        (call : ℕ) (rows : List (Bytes × List (SamplesInfo F))) {given : List (Call F)}
        {written : List (SamplesInfo F)} {p : Pipeline F E}
        → Run copiers given written p
        → 0 < call
        → p.outstanding call ≡ 0
        → All HasSeries rows
        → All (λ (k : Call F). k.number ≢ call) given
        → Run copiers
            (record { number = call; rows = rows } ∷ given)
            written
            (begin_call call rows p)
    moves :
        {given : List (Call F)} {written : List (SamplesInfo F)} {p q : Pipeline F E}
        → Run copiers given written p
        → (s : Step missing_table_name previously copiers p q)
        → Run copiers given (written ++ written_by missing_table_name previously s) q

  Run-Reach :
      {copiers : ℕ} {given : List (Call F)} {written : List (SamplesInfo F)} {p : Pipeline F E}
      → Run copiers given written p
      → Reach missing_table_name previously copiers p
  Run-Reach starts = at_start
  Run-Reach (calls call rows r real fresh holds new) =
      insert_data call rows (Run-Reach r) real fresh holds
  Run-Reach (moves r s) = step (Run-Reach r) s

  module _ (weight : List (Sample F) → ℕ) (c : ℕ) where
    -- What is true of a run whose series that count are those of the call `c`.
    record IsDelivering (given : List (Call F)) (written : List (SamplesInfo F)) (p : Pipeline F E)
        : Type 0 where
      owned : IsOwnedPipeline weight c p
      kept :
          p.err_chan c ≡ none
          → weigh weight written + weigh_pipeline weight p ≡ weigh_calls weight given
      bounded : weigh weight written + weigh_pipeline weight p ≤ weigh_calls weight given

    -- The other calls hand over no series that counts.
    abbrev pub OthersWeighNothing : List (Call F) → Type 0
    OthersWeighNothing given =
        All (λ (k : Call F). k.number ≢ c → weigh_rows weight k.rows ≡ 0) given

    unused :
        (given : List (Call F))
        → All (λ (k : Call F). k.number ≢ c) given
        → OthersWeighNothing given
        → weigh_calls weight given ≡ 0
    unfolding weigh_calls
    unused [] h o = refl
    unused (k ∷ ks) (h, hs) (o, os) = let a = o h in let b = unused ks hs os in omega arith

    calls-IsDelivering :
        (call : ℕ) (rows : List (Bytes × List (SamplesInfo F))) (given : List (Call F))
        (written : List (SamplesInfo F)) (p : Pipeline F E)
        → All (λ (k : Call F). k.number ≢ call) given
        → OthersWeighNothing (record { number = call; rows = rows } ∷ given)
        → IsDelivering given written p
        → IsDelivering
            (record { number = call; rows = rows } ∷ given)
            written
            (begin_call call rows p)
    unfolding begin_call weigh_calls weigh_pipeline
    calls-IsDelivering call rows given written p new (mine, others) d =
        let o = d.owned in
        let bound = d.bounded in
        record {
          owned = record {
            calls = (λ z. mine (unfold count in ground arith), o.calls);
            routines = o.routines;
            queue = o.queue;
          };
          kept = λ z. elim (Bool-cases (c == call)) [
            | inr other ↦ let before = d.kept (ground arith) in omega arith
            | inl same ↦
                let at : call ≡ c = ground arith in
                let none_before =
                  unused given (subst (λ n. All (λ (k : Call F). k.number ≢ n) given) at new)
                    others in
                omega arith
          ];
          bounded = unfold weigh_pipeline in omega arith;
        }

    Run-IsDelivering :
        {copiers : ℕ} {given : List (Call F)} {written : List (SamplesInfo F)} {p : Pipeline F E}
        → Run copiers given written p
        → OthersWeighNothing given
        → IsDelivering given written p
    Run-IsDelivering starts others = record {
      owned = record { calls = tt; routines = tt; queue = tt };
      kept = λ z. unfold weigh weigh_pipeline weigh_calls weigh_routines weigh_queue in refl;
      bounded = unfold weigh weigh_pipeline weigh_calls weigh_routines weigh_queue in omega arith;
    }
    Run-IsDelivering (calls call rows {given} {written} {p} r real fresh holds new) others =
        calls-IsDelivering call rows given written p new others (Run-IsDelivering r others.1)
    Run-IsDelivering (moves {given} {written} {p} {q} r s) others =
        let d = Run-IsDelivering r others in
        let kept = Step-IsKeptBy weight c missing_table_name previously s d.owned in
        let all = weigh-append weight written (written_by missing_table_name previously s) in
        let bound = kept.bounded in
        let bound_before = d.bounded in
        record {
          owned = kept.owned;
          kept = λ z.
              let (was, silent) = Step-errors missing_table_name previously s c z in
              let before = d.kept was in let here = kept.kept silent in omega arith;
          bounded = omega arith;
        }

    -- When the wait group of a call, a number other than 0, is at 0 and its error channel is empty,
    -- so that InsertData, if it waits for it, returns without an error, any weight of samples that
    -- is 0 on the series of the other calls is the same on what copiers wrote without an error as
    -- on what the call handed over: each of its series was written, exactly as often as it was
    -- handed over.
    pub Run-delivers :
        {copiers : ℕ} {given : List (Call F)} {written : List (SamplesInfo F)} {p : Pipeline F E}
        → Run copiers given written p
        → OthersWeighNothing given
        → 0 < c
        → p.outstanding c ≡ 0
        → p.err_chan c ≡ none
        → weigh weight written ≡ weigh_calls weight given
    Run-delivers {p = p} r others real over fine =
        let d = Run-IsDelivering r others in
        let counted = Reach-IsCounted missing_table_name previously (Run-Reach r) c real in
        let none_left = no_series weight c p d.owned (omega arith) in
        let all = d.kept fine in omega arith

    -- No series of a call is written more often than the call handed it over.
    pub Run-once :
        {copiers : ℕ} {given : List (Call F)} {written : List (SamplesInfo F)} {p : Pipeline F E}
        → Run copiers given written p
        → OthersWeighNothing given
        → weigh weight written ≤ weigh_calls weight given
    Run-once r others = let bound = (Run-IsDelivering r others).bounded in omega arith
