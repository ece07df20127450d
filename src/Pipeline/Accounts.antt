-- ===== src/Pipeline/Accounts.antt =====
-- pkg/pgmodel/sql_ingest.go: every step keeps the counters of the wait groups true, and tells only calls that
-- wait.
use timescale_prometheus.Labels.{Labels}
use timescale_prometheus.Prelude.Bytes.{Bytes}
use timescale_prometheus.Samples.{SamplesInfo}
use timescale_prometheus.SeriesIds.{Sent}
use timescale_prometheus.Inserter.{Request, report_results}
use timescale_prometheus.Handler.{Handler, Told, Input, turn}
use timescale_prometheus.Handler.Responses.{
  count, count_told, count_queued, count_waiting, count_told-map, turn-count,
}
use timescale_prometheus.Pipeline.{
  Lookup, NameReply, Phase, starting, serving, Routine, CopyRequest, Call, Pipeline, start_routine,
  next_input,
}
use timescale_prometheus.Pipeline.Steps.{
  hand_over, begin_routine, refuse, serve, copy_next, Step, by_call, by_start, by_failure,
  by_routine, by_copier, by_worker,
}
use timescale_prometheus.Prelude.{
  ℕ, ◌+◌, ◌-◌, ◌<◌, ◌≡◌, refl, ap, ◌∙◌, Option, some, List, [], ◌∷◌, ◌++◌, ◌==◌, map, if◌then◌else◌,
  arith,
}
use timescale_prometheus.Pipeline.Counting.{
  unsent, in_channel, in_phase, in_routines, in_queue, in_pipeline, unsent-append, in_queue-append,
  in_queue-map, in_routines-append, next_input-count, start_routine-count, insert_metric_data-count,
  tell_lem,
}
use timescale_prometheus.Pipeline.Telling.{told_by}

module _ {F E : Type 0} (missing_table_name : E) (previously : E → E) where
  begin_routine-count :
      (c : ℕ) (before : List (Routine F E)) (r : Routine F E) (after : List (Routine F E))
      (call : ℕ) (lookup : Lookup E) (reply : NameReply E) (p : Pipeline F E)
      → p.routines ≡ before ++ r ∷ after
      → r.phase ≡ starting call
      → in_pipeline c
          (begin_routine missing_table_name previously before r after call lookup reply p)
        ≡ in_pipeline c p
  unfolding begin_routine in_pipeline
  begin_routine-count c before r after call lookup reply p e f =
      let phase = (start_routine missing_table_name lookup reply).0 in
      let old = in_routines-append c before r after in
      let new = in_routines-append c before (record r { phase = phase }) after in
      let quiet : in_phase c phase ≡ 0 = start_routine-count F c missing_table_name lookup reply in
      let was : in_phase c r.phase ≡ 0 = ap (in_phase c) f ∙ (unfold in_phase in refl) in
      let at = ap (in_routines c) e in omega arith

  refuse-count :
      (c : ℕ) (before : List (Routine F E)) (r : Routine F E) (after : List (Routine F E))
      (req : Request F) (reqs : List (Request F)) (p : Pipeline F E)
      → p.routines ≡ before ++ r ∷ after
      → r.channel ≡ req ∷ reqs
      → in_routines c (before ++ record r { channel = reqs } ∷ after)
          + (if c == req.task then 1 else 0)
        ≡ in_routines c p.routines
  refuse-count c before r after req reqs p e f =
      let old = in_routines-append c before r after in
      let new = in_routines-append c before (record r { channel = reqs }) after in
      let at = ap (in_routines c) e in
      let taken : in_channel c r.channel ≡ (if c == req.task then 1 else 0) + in_channel c reqs =
        ap (in_channel c) f ∙ (unfold in_channel in refl) in
      omega arith

  serve-count :
      (c : ℕ) (before : List (Routine F E)) (r : Routine F E) (after : List (Routine F E))
      (table : Bytes) (h : Handler F) (i : Input F) (reqs : List (Request F))
      (send : List Labels → Sent E) (p : Pipeline F E)
      → 0 < c
      → p.routines ≡ before ++ r ∷ after
      → r.phase ≡ serving table h
      → next_input r.channel h ≡ some (i, reqs)
      → let (told, h') = turn send h i in
        let phase : Phase F E = serving table (record h' { to_copiers = [] }) in
        count_told c told
          + (in_routines c (before ++ record r { channel = reqs; phase = phase } ∷ after)
              + count_queued c h'.to_copiers)
        ≡ in_routines c p.routines
  serve-count c before r after table h i reqs send p real e f g =
      let (told, h') = turn send h i in
      let phase : Phase F E = serving table (record h' { to_copiers = [] }) in
      let old = in_routines-append c before r after in
      let new = in_routines-append c before (record r { channel = reqs; phase = phase }) after in
      let at = ap (in_routines c) e in
      let taken = next_input-count c r.channel h i reqs g in
      let turned = turn-count send c h i real in
      let was : in_phase c r.phase ≡ count_waiting c h =
        ap (in_phase c) f ∙ (unfold in_phase in refl) in
      let is : in_phase c phase + count_queued c h'.to_copiers ≡ count_waiting c h' =
        unfold in_phase count_waiting count_queued in omega arith in
      omega arith

  by_failure-count :
      (c : ℕ) (before : List (Routine F E)) (r : Routine F E) (after : List (Routine F E)) (e : E)
      (req : Request F) (reqs : List (Request F)) (p : Pipeline F E)
      → p.routines ≡ before ++ r ∷ after
      → r.channel ≡ req ∷ reqs
      → count_told c ((req.task, some (previously e)) ∷ [])
          + in_pipeline c (refuse missing_table_name previously before r after e req reqs p)
        ≡ in_pipeline c p
  unfolding in_pipeline refuse count_told
  by_failure-count c before r after e req reqs p f g =
      let p' : Pipeline F E = record p {
        routines = before ++ record r { channel = reqs } ∷ after;
      } in
      let (calls, routines, queue, signal, counts) =
        tell_lem ((req.task, some (previously e)) ∷ []) p' in
      let a = ap (unsent c) calls in
      let b = ap (in_routines c) routines in
      let d = ap (in_queue c) queue in
      let n = refuse-count c before r after req reqs p f g in omega arith

  by_routine-count :
      (c : ℕ) (before : List (Routine F E)) (r : Routine F E) (after : List (Routine F E))
      (table : Bytes) (h : Handler F) (i : Input F) (reqs : List (Request F))
      (send : List Labels → Sent E) (p : Pipeline F E)
      → 0 < c
      → p.routines ≡ before ++ r ∷ after
      → r.phase ≡ serving table h
      → next_input r.channel h ≡ some (i, reqs)
      → count_told c (turn send h i).0
          + in_pipeline c
              (serve missing_table_name previously before r after table (turn send h i) reqs p)
        ≡ in_pipeline c p
  unfolding in_pipeline serve
  by_routine-count c before r after table h i reqs send p real e f g =
      let (told, h') = turn send h i in
      let phase : Phase F E = serving table (record h' { to_copiers = [] }) in
      let sent : List (CopyRequest F) =
        map (λ b. record { buffer = b; table = table }) h'.to_copiers in
      let p' : Pipeline F E = record p {
        routines = before ++ record r { channel = reqs; phase = phase } ∷ after;
        to_copiers = p.to_copiers ++ sent;
      } in
      let (calls, routines, queue, signal, counts) = tell_lem told p' in
      let a = ap (unsent c) calls in
      let b = ap (in_routines c) routines in
      let d = ap (in_queue c) queue in
      let k = in_queue-append c p.to_copiers sent in
      let l = in_queue-map c table h'.to_copiers in
      let n = serve-count c before r after table h i reqs send p real e f g in omega arith

  by_copier-count :
      (c : ℕ) (req : CopyRequest F) (reqs : List (CopyRequest F)) (err : Option E)
      (p : Pipeline F E)
      → p.to_copiers ≡ req ∷ reqs
      → count_told c (report_results err req.buffer).0
          + in_pipeline c (copy_next missing_table_name previously req reqs err p)
        ≡ in_pipeline c p
  unfolding in_pipeline copy_next report_results
  by_copier-count c req reqs err p e =
      let told : Told E = map (λ task. (task, err)) req.buffer.needs_response in
      let (calls, routines, queue, signal, counts) =
        tell_lem told (record p { to_copiers = reqs }) in
      let a = ap (unsent c) calls in
      let b = ap (in_routines c) routines in
      let d = ap (in_queue c) queue in
      let n = count_told-map c err req.buffer.needs_response in
      let k : in_queue c p.to_copiers ≡ count c req.buffer.needs_response + in_queue c reqs =
        ap (in_queue c) e ∙ (unfold in_queue in refl) in
      omega arith

  by_call-count :
      (c : ℕ) (before : List (Call F)) (call : ℕ) (metric : Bytes) (infos : List (SamplesInfo F))
      (rows : List (Bytes × List (SamplesInfo F))) (after : List (Call F)) (p : Pipeline F E)
      → p.calls ≡ before ++ record { number = call; rows = (metric, infos) ∷ rows } ∷ after
      → in_pipeline c
          (hand_over missing_table_name previously before call metric infos rows after p)
        ≡ in_pipeline c p
  unfolding in_pipeline hand_over
  by_call-count c before call metric infos rows after p e =
      let old =
        unsent-append c before (record { number = call; rows = (metric, infos) ∷ rows }) after in
      let new = unsent-append c before (record { number = call; rows = rows }) after in
      let at = ap (unsent c) e in
      let n =
        insert_metric_data-count c metric (record { infos = infos; task = call }) p.routines in
      ground arith

  -- A step takes from the pipeline what it tells.
  pub Step-count :
      {copiers : ℕ} {p q : Pipeline F E} (s : Step missing_table_name previously copiers p q)
      (c : ℕ)
      → 0 < c
      → count_told c (told_by missing_table_name previously s) + in_pipeline c q ≡ in_pipeline c p
  unfolding told_by
  Step-count {p = p} (by_call before call metric infos rows after e room) c real =
      let n = by_call-count c before call metric infos rows after p e in
      unfold count_told in omega arith
  Step-count {p = p} (by_start before r after call lookup reply e f) c real =
      let n = begin_routine-count c before r after call lookup reply p e f in
      unfold count_told in omega arith
  Step-count {p = p} (by_failure before r after e req reqs f g h) c real =
      by_failure-count c before r after e req reqs p f h
  Step-count {p = p} (by_routine before r after table h i reqs send e f g room) c real =
      by_routine-count c before r after table h i reqs send p real e f g
  Step-count {p = p} (by_copier req reqs err e) c real = by_copier-count c req reqs err p e
  Step-count {p = p} (by_worker e) c real = unfold count_told in_pipeline in omega arith

  -- A step counts down the wait groups by what it tells.
  pub Step-outstanding :
      {copiers : ℕ} {p q : Pipeline F E} (s : Step missing_table_name previously copiers p q)
      (c : ℕ)
      → q.outstanding c ≡ p.outstanding c - count_told c (told_by missing_table_name previously s)
  unfolding told_by
  Step-outstanding (by_call before call metric infos rows after e room) c =
      unfold count_told hand_over in omega arith
  Step-outstanding (by_start before r after call lookup reply e f) c =
      unfold count_told begin_routine in omega arith
  Step-outstanding {p = p} (by_failure before r after e req reqs f g h) c =
      unfold refuse in
      (tell_lem ((req.task, some (previously e)) ∷ [])
          (record p { routines = before ++ record r { channel = reqs } ∷ after })).4
        c
  Step-outstanding {p = p} (by_routine before r after table h i reqs send e f g room) c =
      let (told, h') = turn send h i in
      let phase : Phase F E = serving table (record h' { to_copiers = [] }) in
      unfold serve in
      (tell_lem told (record p {
        routines = before ++ record r { channel = reqs; phase = phase } ∷ after;
        to_copiers = p.to_copiers ++ map (λ b. record { buffer = b; table = table }) h'.to_copiers;
      })).4
        c
  Step-outstanding {p = p} (by_copier req reqs err e) c =
      unfold copy_next in
      (tell_lem (report_results err req.buffer).0 (record p { to_copiers = reqs })).4 c
  Step-outstanding (by_worker e) c = unfold count_told in omega arith
