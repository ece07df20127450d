-- ===== src/Pipeline/Kept.antt =====
-- pkg/pgmodel/sql_ingest.go: series that leave a call, a channel or the queue are told of, written or still there.
use timescale_prometheus.Prelude.Bytes.{Bytes}
use timescale_prometheus.Samples.{Sample, SamplesInfo}
use timescale_prometheus.SeriesIds.Weights.{weigh}
use timescale_prometheus.Inserter.{Request}
use timescale_prometheus.Handler.{Told}
use timescale_prometheus.Handler.Weights.{count_failed}
use timescale_prometheus.Handler.Responses.{count}
use timescale_prometheus.Pipeline.{
  starting, Lookup, NameReply, Routine, Call, Pipeline, tell, start_routine,
}
use timescale_prometheus.Pipeline.Steps.{hand_over, begin_routine, refuse}
use timescale_prometheus.Pipeline.Counting.{tell_lem}
use timescale_prometheus.Pipeline.Shape.{All-middle}
use timescale_prometheus.Pipeline.Weights.{
  weigh_rows, weigh_calls, weigh_channel, weigh_queue, weigh_phase, weigh_routines, weigh_pipeline,
  weigh_calls-append, weigh_routines-append, weigh_routines-insert_metric_data,
  weigh_phase-start_routine, IsOwnedCall, IsOwnedRequest, IsOwnedCopy, IsOwnedRoutine,
  IsOwnedPipeline, insert_metric_data-IsOwnedRoutine, start_routine-IsOwnedPhase,
}
use timescale_prometheus.Prelude.{
  ℕ, ◌+◌, ◌≤◌, ◌≡◌, refl, sym, ap, ◌∙◌, some, List, [], ◌∷◌, ◌++◌, All, arith,
}
use mathlib.Core.Path.{subst}

module _ {F E : Type 0} (weight : List (Sample F) → ℕ) (c : ℕ) where
  -- What is left of the pipeline, for the weight that there was and what is told and written.
  pub record IsKeptBy (before : ℕ) (told : Told E) (written : List (SamplesInfo F))
      (p : Pipeline F E) : Type 0 where
    pub owned : IsOwnedPipeline weight c p
    pub kept : count_failed c told ≡ 0 → weigh weight written + weigh_pipeline weight p ≡ before
    pub bounded : weigh weight written + weigh_pipeline weight p ≤ before

  pub tell-IsKeptBy :
      (before : ℕ) (told said : Told E) (written : List (SamplesInfo F)) (p : Pipeline F E)
      → IsKeptBy before told written p
      → IsKeptBy before told written (tell said p)
  tell-IsKeptBy before told said written p k =
      let (calls, routines, queue, _, _) = tell_lem said p in
      let a = ap (weigh_calls weight) calls in
      let b = ap (weigh_routines weight) routines in
      let d = ap (weigh_queue weight) queue in
      let o = k.owned in
      record {
        owned = record {
          calls = subst (All (IsOwnedCall weight c)) (sym calls) o.calls;
          routines = subst (All (IsOwnedRoutine weight c)) (sym routines) o.routines;
          queue = subst (All (IsOwnedCopy weight c)) (sym queue) o.queue;
        };
        kept = λ z. let e = k.kept z in unfold weigh_pipeline in omega arith;
        bounded = let e = k.bounded in unfold weigh_pipeline in omega arith;
      }

  module _ (missing_table_name : E) (previously : E → E) where
    pub hand_over-IsKeptBy :
        (before : List (Call F)) (call : ℕ) (metric : Bytes) (infos : List (SamplesInfo F))
        (rows : List (Bytes × List (SamplesInfo F))) (after : List (Call F)) (p : Pipeline F E)
        → p.calls ≡ before ++ record { number = call; rows = (metric, infos) ∷ rows } ∷ after
        → IsOwnedPipeline weight c p
        → IsKeptBy
            (weigh_pipeline weight p)
            []
            []
            (hand_over missing_table_name previously before call metric infos rows after p)
    unfolding hand_over
    hand_over-IsKeptBy before call metric infos rows after p e o =
        let was : Call F = record { number = call; rows = (metric, infos) ∷ rows } in
        let is : Call F = record { number = call; rows = rows } in
        let (k, replace) =
          All-middle (IsOwnedCall weight c) before was after
            (subst (All (IsOwnedCall weight c)) e o.calls) in
        let old = weigh_calls-append weight before was after in
        let new = weigh_calls-append weight before is after in
        let at = ap (weigh_calls weight) e in
        let more =
          weigh_routines-insert_metric_data weight metric (record { infos = infos; task = call })
            p.routines in
        let split : weigh_rows weight ((metric, infos) ∷ rows)
            ≡ weigh weight infos + weigh_rows weight rows =
          unfold weigh_rows in refl in
        record {
          owned = record {
            calls = replace is (λ z. let a = k z in omega arith);
            routines =
                insert_metric_data-IsOwnedRoutine weight c metric
                  (record { infos = infos; task = call }) p.routines
                  (λ z. let a = k z in omega arith) o.routines;
            queue = o.queue;
          };
          kept = λ z. unfold weigh_pipeline weigh in omega arith;
          bounded = unfold weigh_pipeline weigh in omega arith;
        }

    pub begin_routine-IsKeptBy :
        (before : List (Routine F E)) (r : Routine F E) (after : List (Routine F E)) (call : ℕ)
        (lookup : Lookup E) (reply : NameReply E) (p : Pipeline F E)
        → p.routines ≡ before ++ r ∷ after
        → r.phase ≡ starting call
        → IsOwnedPipeline weight c p
        → IsKeptBy
            (weigh_pipeline weight p)
            []
            []
            (begin_routine missing_table_name previously before r after call lookup reply p)
    unfolding begin_routine
    begin_routine-IsKeptBy before r after call lookup reply p e f o =
        let (k, replace) =
          All-middle (IsOwnedRoutine weight c) before r after
            (subst (All (IsOwnedRoutine weight c)) e o.routines) in
        let phase = (start_routine missing_table_name lookup reply).0 in
        let r' : Routine F E = record r { phase = phase } in
        let old = weigh_routines-append weight before r after in
        let new = weigh_routines-append weight before r' after in
        let at = ap (weigh_routines weight) e in
        let is = weigh_phase-start_routine weight missing_table_name lookup reply in
        let was : weigh_phase weight r.phase ≡ 0 =
          ap (weigh_phase weight) f ∙ (unfold weigh_phase in refl) in
        record {
          owned = record {
            calls = o.calls;
            routines =
                replace r'
                  (k.0, start_routine-IsOwnedPhase weight c missing_table_name lookup reply);
            queue = o.queue;
          };
          kept = λ z. unfold weigh_pipeline weigh in omega arith;
          bounded = unfold weigh_pipeline weigh in omega arith;
        }

    pub refuse-IsKeptBy :
        (before : List (Routine F E)) (r : Routine F E) (after : List (Routine F E)) (e : E)
        (req : Request F) (reqs : List (Request F)) (p : Pipeline F E)
        → p.routines ≡ before ++ r ∷ after
        → r.channel ≡ req ∷ reqs
        → IsOwnedPipeline weight c p
        → IsKeptBy
            (weigh_pipeline weight p)
            ((req.task, some (previously e)) ∷ [])
            []
            (refuse missing_table_name previously before r after e req reqs p)
    unfolding refuse
    refuse-IsKeptBy before r after e req reqs p f h o =
        let (k, replace) =
          All-middle (IsOwnedRoutine weight c) before r after
            (subst (All (IsOwnedRoutine weight c)) f o.routines) in
        let channel = subst (All (IsOwnedRequest weight c)) h k.0 in
        let mine = channel.0 in
        let r' : Routine F E = record r { channel = reqs } in
        let old = weigh_routines-append weight before r after in
        let new = weigh_routines-append weight before r' after in
        let at = ap (weigh_routines weight) f in
        let taken : weigh_channel weight r.channel
            ≡ weigh weight req.infos + weigh_channel weight reqs =
          ap (weigh_channel weight) h ∙ (unfold weigh_channel in refl) in
        let told : Told E = (req.task, some (previously e)) ∷ [] in
        tell-IsKeptBy (weigh_pipeline weight p) told told []
          (record p { routines = before ++ r' ∷ after })
          (record {
            owned = record {
              calls = o.calls;
              routines = replace r' (channel.1, k.1);
              queue = o.queue;
            };
            kept = λ z.
                let a = mine (unfold count count_failed in omega arith) in
                unfold weigh_pipeline weigh in omega arith;
            bounded = unfold weigh_pipeline weigh in omega arith;
          })
