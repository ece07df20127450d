-- ===== src/Pipeline/Shape.antt =====
-- pkg/pgmodel/sql_ingest.go: what every state of the pipeline looks like: no task waits in a buffer without
-- series, and a routine that looks for its table holds a request of the call that started it.
use timescale_prometheus.Labels.{Labels}
use timescale_prometheus.Prelude.Bytes.{Bytes, Bytes-discrete}
use timescale_prometheus.SeriesIds.{Sent}
use timescale_prometheus.Inserter.{Request, report_results, has_pending_reqs, new_pending}
use timescale_prometheus.Handler.{Handler, Told, Input, request, nothing, new_handler, turn}
use timescale_prometheus.Pipeline.{
  Lookup, found, entry_not_found, lookup_failed, NameReply, query_failed, no_row, scan_failed, row,
  get_metric_table_name, Phase, starting, failed, serving, Routine, Call, Pipeline, tell,
  begin_call, insert_metric_data, start_routine, next_input,
}
use timescale_prometheus.Pipeline.Steps.{
  hand_over, begin_routine, refuse, serve, copy_next, Step, by_call, by_start, by_failure,
  by_routine, by_copier, by_worker, HasSeries, Reach, at_start, insert_data, step,
}
use timescale_prometheus.Prelude.{
  ℕ, ◌<◌, ◌≡◌, refl, sym, some, List, [], ◌∷◌, ◌++◌, All, length, map, arith, Bool-cases, inl, inr,
  All-append,
}
use timescale_prometheus.Pipeline.Counting.{in_channel, in_channel-append, tell_lem}
use mathlib.Core.Path.{subst}
use timescale_prometheus.Handler.Buffers.{NoneWaits, turn-NoneWaits, turn_nothing-NoneWaits}

-- A request of a call that waits, with series.
abbrev pub IsRequest : {F : Type 0} → Request F → Type 0
IsRequest req = (0 < length req.infos) × (0 < req.task)

unfoldable pub IsPhase : {F E : Type 0} → List (Request F) → Phase F E → Type 0
IsPhase channel (starting call) = (0 < call) × (0 < in_channel call channel)
IsPhase channel (failed e) = Unit
IsPhase channel (serving table h) = (h.to_copiers ≡ []) × NoneWaits h

abbrev pub IsRoutine : {F E : Type 0} → Routine F E → Type 0
IsRoutine r = All IsRequest r.channel × IsPhase r.channel r.phase

abbrev pub IsCall : {F : Type 0} → Call F → Type 0
IsCall k = (0 < k.number) × All HasSeries k.rows

pub record Shaped {F E : Type 0} (p : Pipeline F E) : Type 0 where
  pub calls : All IsCall p.calls
  pub routines : All IsRoutine p.routines

module _ {ℓ κ} {A : Type ℓ} (P : A → Type κ) where
  -- An element between others, and one that takes its place.
  pub All-middle :
      (before : List A) (x : A) (after : List A)
      → All P (before ++ x ∷ after)
      → P x × ((y : A) → P y → All P (before ++ y ∷ after))
  All-middle [] x after (h, hs) = (h, λ y k. (k, hs))
  All-middle (b ∷ bs) x after (h, hs) =
      let (at, replace) = All-middle bs x after hs in (at, λ y k. (h, replace y k))

module _ {F E : Type 0} where
  IsPhase-append :
      (channel : List (Request F)) (req : Request F) (phase : Phase F E)
      → IsPhase channel phase
      → IsPhase (channel ++ req ∷ []) phase
  unfolding IsPhase
  IsPhase-append channel req (starting call) (real, h) =
      let e = in_channel-append call channel (req ∷ []) in (real, omega arith)
  IsPhase-append channel req (failed e) h = tt
  IsPhase-append channel req (serving table h) w = w

  insert_metric_data-IsRoutine :
      (metric : Bytes) (req : Request F) (rs : List (Routine F E))
      → IsRequest req
      → All IsRoutine rs
      → All IsRoutine (insert_metric_data metric req rs)
  unfolding insert_metric_data
  insert_metric_data-IsRoutine metric req [] h hs =
      (((h, tt), unfold IsPhase in_channel in (h.1, ground arith)), tt)
  insert_metric_data-IsRoutine metric req (r ∷ rs) h (k, ks) =
      elim (Bytes-discrete r.metric metric) [
        | yes e ↦
            let channel = All-append IsRequest r.channel (req ∷ []) k.0 (h, tt) in
            let phase = IsPhase-append r.channel req r.phase k.1 in
            let r' : Routine F E = record r { channel = r.channel ++ req ∷ [] } in
            let here : insert_metric_data metric req (r ∷ rs) ≡ r' ∷ rs = ground arith in
            subst (All IsRoutine) (sym here) ((channel, phase), ks)
        | no e ↦
            let later : insert_metric_data metric req (r ∷ rs)
                ≡ r ∷ insert_metric_data metric req rs =
              ground arith in
            subst (All IsRoutine) (sym later) (k, insert_metric_data-IsRoutine metric req rs h ks)
      ]

  -- What a routine takes is a request, or nothing while its buffer holds series.
  next_input-IsRequest :
      (send : List Labels → Sent E) (channel : List (Request F)) (table : Bytes) (h : Handler F)
      (i : Input F) (reqs : List (Request F))
      → All IsRequest channel
      → NoneWaits h
      → next_input channel h ≡ some (i, reqs)
      → All IsRequest reqs × NoneWaits (turn send h i).1
  unfolding next_input
  next_input-IsRequest send [] table h i reqs ks w e =
      elim (Bool-cases (has_pending_reqs h.pending)) [
        | inl b ↦
            let same_input : nothing ≡ i = ground arith in
            let same : [] ≡ reqs = ground arith in
            (
              subst (All IsRequest) same tt,
              subst (λ j. NoneWaits (turn send h j).1) same_input (turn_nothing-NoneWaits send h w),
            )
        | inr b ↦ absurd (ground arith)
      ]
  next_input-IsRequest send (req ∷ rest) table h i reqs (k, ks) w e =
      let same_input : request req ≡ i = ground arith in
      let same : rest ≡ reqs = ground arith in
      (
        subst (All IsRequest) same ks,
        subst (λ j. NoneWaits (turn send h j).1) same_input (turn-NoneWaits send h req k.0),
      )

  start_routine-IsPhase :
      (channel : List (Request F)) (missing : E) (lookup : Lookup E) (reply : NameReply E)
      → IsPhase channel (start_routine {F = F} missing lookup reply).0
  unfolding start_routine IsPhase get_metric_table_name new_handler new_pending
  start_routine-IsPhase channel missing (found table) reply = (refl, λ e. refl)
  start_routine-IsPhase channel missing (lookup_failed e) reply = tt
  start_routine-IsPhase channel missing entry_not_found (query_failed e) = tt
  start_routine-IsPhase channel missing entry_not_found no_row = tt
  start_routine-IsPhase channel missing entry_not_found (scan_failed e) = tt
  start_routine-IsPhase channel missing entry_not_found (row table new) = (refl, λ e. refl)

module _ {F E : Type 0} (missing_table_name : E) (previously : E → E) where
  told_Shaped : (told : Told E) (p : Pipeline F E) → Shaped p → Shaped (tell told p)
  told_Shaped told p s =
      let (calls, routines, _, _, _) = tell_lem told p in
      record {
        calls = subst (All IsCall) (sym calls) s.calls;
        routines = subst (All IsRoutine) (sym routines) s.routines;
      }

  Step-Shaped :
      {copiers : ℕ} {p q : Pipeline F E}
      → Step missing_table_name previously copiers p q
      → Shaped p
      → Shaped q
  Step-Shaped (by_call before call metric infos rows after e room) s =
      let was : Call F = record { number = call; rows = (metric, infos) ∷ rows } in
      let is : Call F = record { number = call; rows = rows } in
      let (k, replace) = All-middle IsCall before was after (subst (All IsCall) e s.calls) in
      let (real, (holds, more)) = k in
      unfold hand_over in
      record {
        calls = replace is (real, more);
        routines =
            insert_metric_data-IsRoutine metric (record { infos = infos; task = call }) _
              (holds, real) s.routines;
      }
  Step-Shaped (by_start before r after call lookup reply e f) s =
      let (k, replace) = All-middle IsRoutine before r after (subst (All IsRoutine) e s.routines) in
      unfold begin_routine in
      record {
        calls = s.calls;
        routines =
            replace (record r { phase = (start_routine missing_table_name lookup reply).0 })
              (k.0, start_routine-IsPhase r.channel missing_table_name lookup reply);
      }
  Step-Shaped {p = p} (by_failure before r after e req reqs f g h) s =
      let (k, replace) = All-middle IsRoutine before r after (subst (All IsRoutine) f s.routines) in
      let rest = (subst (All IsRequest) h k.0).1 in
      let phase : IsPhase reqs r.phase = subst (IsPhase reqs) (sym g) (unfold IsPhase in tt) in
      unfold refuse in
      told_Shaped ((req.task, some (previously e)) ∷ [])
        (record p { routines = before ++ record r { channel = reqs } ∷ after })
        (record { calls = s.calls; routines = replace (record r { channel = reqs }) (rest, phase) })
  Step-Shaped {p = p} (by_routine before r after table h i reqs send e f g room) s =
      let (k, replace) = All-middle IsRoutine before r after (subst (All IsRoutine) e s.routines) in
      let h' = (turn send h i).1 in
      let phase : Phase F E = serving table (record h' { to_copiers = [] }) in
      let now = subst (IsPhase r.channel) f k.1 in
      let (rest, w) =
        next_input-IsRequest send r.channel table h i reqs k.0 (unfold IsPhase in now.1) g in
      let r' : Routine F E = record r { channel = reqs; phase = phase } in
      unfold serve in
      told_Shaped (turn send h i).0
        (record p {
          routines = before ++ r' ∷ after;
          to_copiers =
              p.to_copiers ++ map (λ b. record { buffer = b; table = table }) h'.to_copiers;
        })
        (record { calls = s.calls; routines = replace r' (rest, unfold IsPhase in (refl, w)) })
  Step-Shaped {p = p} (by_copier req reqs err e) s =
      unfold copy_next in
      told_Shaped (report_results err req.buffer).0 (record p { to_copiers = reqs })
        (record { calls = s.calls; routines = s.routines })
  Step-Shaped (by_worker e) s = record { calls = s.calls; routines = s.routines }

  pub Reach-Shaped :
      {copiers : ℕ} {p : Pipeline F E} → Reach missing_table_name previously copiers p → Shaped p
  unfolding begin_call
  Reach-Shaped at_start = record { calls = tt; routines = tt }
  Reach-Shaped (insert_data call rows r real fresh holds) =
      let s = Reach-Shaped r in record { calls = ((real, holds), s.calls); routines = s.routines }
  Reach-Shaped (step r st) = Step-Shaped st (Reach-Shaped r)
