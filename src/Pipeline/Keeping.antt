-- ===== src/Pipeline/Keeping.antt =====
-- pkg/pgmodel/sql_ingest.go: a step takes series out of the pipeline only by writing them, or while it tells
-- their call an error.
use timescale_prometheus.Labels.{Labels}
use timescale_prometheus.Prelude.Bytes.{Bytes}
use timescale_prometheus.Samples.{Sample}
use timescale_prometheus.SeriesIds.{Sent}
use timescale_prometheus.SeriesIds.Weights.{weigh}
use timescale_prometheus.Inserter.{Request, report_results}
use timescale_prometheus.Handler.{Handler, Told, Input, turn}
use timescale_prometheus.Handler.Weights.{
  count_failed-map, weigh_handler, weigh_queued, IsOwnedHandler, turn-IsKept,
}
use timescale_prometheus.Pipeline.{Phase, serving, Routine, CopyRequest, Pipeline, next_input}
use timescale_prometheus.Pipeline.Steps.{
  serve, copy_next, Step, by_call, by_start, by_failure, by_routine, by_copier, by_worker,
}
use timescale_prometheus.Pipeline.Kept.{
  IsKeptBy, tell-IsKeptBy, hand_over-IsKeptBy, begin_routine-IsKeptBy, refuse-IsKeptBy,
}
use timescale_prometheus.Pipeline.Shape.{All-middle}
use timescale_prometheus.Pipeline.Telling.{told_by, written_by}
use timescale_prometheus.Pipeline.Weights.{
  weigh_queue, weigh_phase, weigh_routines, weigh_pipeline, weigh_queue-append, weigh_queue-map,
  weigh_routines-append, IsOwnedCopy, IsOwnedPhase, IsOwnedRoutine, IsOwnedPipeline,
  next_input-IsOwned, map-IsOwnedCopy,
}
use timescale_prometheus.Prelude.{
  ℕ, ◌+◌, ◌≡◌, refl, ap, ◌∙◌, inl, inr, Option, none, some, List, [], ◌∷◌, ◌++◌, map, All,
  All-append, arith, Option-cases,
}
use mathlib.Core.Path.{subst}

module _ {F E : Type 0} (weight : List (Sample F) → ℕ) (c : ℕ) where
  module _ (missing_table_name : E) (previously : E → E) where
    serve-IsKeptBy :
        (before : List (Routine F E)) (r : Routine F E) (after : List (Routine F E)) (table : Bytes)
        (h : Handler F) (i : Input F) (reqs : List (Request F)) (send : List Labels → Sent E)
        (p : Pipeline F E)
        → p.routines ≡ before ++ r ∷ after
        → r.phase ≡ serving table h
        → next_input r.channel h ≡ some (i, reqs)
        → IsOwnedPipeline weight c p
        → IsKeptBy weight c
            (weigh_pipeline weight p)
            (turn send h i).0
            []
            (serve missing_table_name previously before r after table (turn send h i) reqs p)
    unfolding serve
    serve-IsKeptBy before r after table h i reqs send p e f g o =
        let (k, replace) =
          All-middle (IsOwnedRoutine weight c) before r after
            (subst (All (IsOwnedRoutine weight c)) e o.routines) in
        let (told, h') = turn send h i in
        let phase : Phase F E = serving table (record h' { to_copiers = [] }) in
        let r' : Routine F E = record r { channel = reqs; phase = phase } in
        let copies : List (CopyRequest F) =
          map (λ b. record { buffer = b; table = table }) h'.to_copiers in
        let now : IsOwnedHandler weight c h =
          unfold IsOwnedPhase in (subst (IsOwnedPhase weight c) f k.1) in
        let (brought, channel, taken) = next_input-IsOwned weight c r.channel h i reqs k.0 g in
        let turned = turn-IsKept weight c send h i now brought in
        let next = turned.owned in
        let old = weigh_routines-append weight before r after in
        let new = weigh_routines-append weight before r' after in
        let at = ap (weigh_routines weight) e in
        let was : weigh_phase weight r.phase ≡ weigh_handler weight h =
          ap (weigh_phase weight) f ∙ (unfold weigh_phase in refl) in
        let queue = weigh_queue-append weight p.to_copiers copies in
        let sent = weigh_queue-map weight table h'.to_copiers in
        let is : weigh_phase weight phase + weigh_queued weight h'.to_copiers
            ≡ weigh_handler weight h' =
          unfold weigh_phase weigh_handler weigh_queued in omega arith in
        tell-IsKeptBy weight c (weigh_pipeline weight p) told told []
          (record p { routines = before ++ r' ∷ after; to_copiers = p.to_copiers ++ copies })
          (record {
            owned = record {
              calls = o.calls;
              routines = replace r' (
                channel,
                unfold IsOwnedPhase in (record { queued = tt; pending = next.pending }),
              );
              queue =
                  All-append (IsOwnedCopy weight c) p.to_copiers copies o.queue
                    (map-IsOwnedCopy weight c table h'.to_copiers next.queued);
            };
            kept = λ z. let a = turned.kept z in unfold weigh_pipeline weigh in omega arith;
            bounded = let a = turned.bounded in unfold weigh_pipeline weigh in omega arith;
          })

    copy_next-IsKeptBy :
        (req : CopyRequest F) (reqs : List (CopyRequest F)) (err : Option E) (p : Pipeline F E)
        (e : p.to_copiers ≡ req ∷ reqs)
        → IsOwnedPipeline weight c p
        → IsKeptBy weight c
            (weigh_pipeline weight p)
            (report_results err req.buffer).0
            (elim err [ none ↦ req.buffer.batch.sample_infos | some x ↦ [] ])
            (copy_next missing_table_name previously req reqs err p)
    unfolding copy_next report_results
    copy_next-IsKeptBy req reqs err p e o =
        let queue = subst (All (IsOwnedCopy weight c)) e o.queue in
        let mine = queue.0 in
        let at : weigh_queue weight p.to_copiers
            ≡ weigh weight req.buffer.batch.sample_infos + weigh_queue weight reqs =
          ap (weigh_queue weight) e ∙ (unfold weigh_queue in refl) in
        let owned : IsOwnedPipeline weight c (record p { to_copiers = reqs }) = record {
          calls = o.calls;
          routines = o.routines;
          queue = queue.1;
        } in
        let told : Told E = map (λ task. (task, err)) req.buffer.needs_response in
        tell-IsKeptBy weight c (weigh_pipeline weight p) told told
          (elim err [ none ↦ req.buffer.batch.sample_infos | some x ↦ [] ])
          (record p { to_copiers = reqs })
          (elim (Option-cases err) [
            | inl f ↦ rw f (record {
              owned = owned;
              kept = λ z. unfold weigh_pipeline in omega arith;
              bounded = unfold weigh_pipeline in omega arith;
            })
            | inr (x, f) ↦ rw f (record {
              owned = owned;
              kept = λ z.
                  let a = count_failed-map c x req.buffer.needs_response in
                  let b = mine (omega arith) in unfold weigh_pipeline weigh in omega arith;
              bounded = unfold weigh_pipeline weigh in omega arith;
            })
          ])

    -- Every step keeps the series of a call as long as it tells the call no error.
    pub Step-IsKeptBy :
        {copiers : ℕ} {p q : Pipeline F E} (s : Step missing_table_name previously copiers p q)
        → IsOwnedPipeline weight c p
        → IsKeptBy weight c
            (weigh_pipeline weight p)
            (told_by missing_table_name previously s)
            (written_by missing_table_name previously s)
            q
    unfolding told_by written_by
    Step-IsKeptBy {p = p} (by_call before call metric infos rows after e room) o =
        hand_over-IsKeptBy weight c missing_table_name previously before call metric infos rows
          after p e o
    Step-IsKeptBy {p = p} (by_start before r after call lookup reply e f) o =
        begin_routine-IsKeptBy weight c missing_table_name previously before r after call lookup
          reply p e f o
    Step-IsKeptBy {p = p} (by_failure before r after e req reqs f g h) o =
        refuse-IsKeptBy weight c missing_table_name previously before r after e req reqs p f h o
    Step-IsKeptBy {p = p} (by_routine before r after table h i reqs send e f g room) o =
        serve-IsKeptBy before r after table h i reqs send p e f g o
    Step-IsKeptBy {p = p} (by_copier req reqs none e) o = copy_next-IsKeptBy req reqs none p e o
    Step-IsKeptBy {p = p} (by_copier req reqs (some err) e) o =
        copy_next-IsKeptBy req reqs (some err) p e o
    Step-IsKeptBy {p = p} (by_worker e) o = record {
      owned = record { calls = o.calls; routines = o.routines; queue = o.queue };
      kept = λ z. unfold weigh_pipeline weigh in omega arith;
      bounded = unfold weigh_pipeline weigh in omega arith;
    }
