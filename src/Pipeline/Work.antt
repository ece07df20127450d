-- ===== src/Pipeline/Work.antt =====
-- pkg/pgmodel/sql_ingest.go: without new calls the pipeline comes to rest, since every step does some of the
-- work that is left.
use timescale_prometheus.Labels.{Labels}
use timescale_prometheus.Prelude.Bytes.{Bytes, Bytes-discrete}
use timescale_prometheus.SeriesIds.{Sent}
use timescale_prometheus.Inserter.{Request, report_results, has_pending_reqs, new_pending}
use timescale_prometheus.Handler.{Handler, Told, Input, request, nothing, new_handler, turn}
use timescale_prometheus.Pipeline.{
  Lookup, found, entry_not_found, lookup_failed, NameReply, query_failed, no_row, scan_failed, row,
  get_metric_table_name, Phase, starting, failed, serving, Routine, CopyRequest, Call, Pipeline,
  insert_metric_data, start_routine, next_input, tell,
}
use timescale_prometheus.Pipeline.Steps.{
  hand_over, begin_routine, refuse, serve, copy_next, Step, by_call, by_start, by_failure,
  by_routine, by_copier, by_worker,
}
use timescale_prometheus.Prelude.{
  ℕ, suc, ◌+◌, ◌≤◌, ◌<◌, ◌≡◌, refl, ap, sym, ◌∙◌, Bool, some, List, [], ◌∷◌, ◌++◌, length, map,
  if◌then◌else◌, arith, Bool-cases, ◌*◌, length-append, length-map, inl, inr,
}
use timescale_prometheus.Pipeline.Counting.{tell_lem}
use timescale_prometheus.Samples.{new_sample_info_iterator, reset_position}
use mathlib.Core.Path.{subst}
use timescale_prometheus.Handler.Buffers.{buffered, turn_work, turn_nothing_work}

-- The requests that were not handed over.
unfoldable pub unsent_rows : {F : Type 0} → List (Call F) → ℕ
unsent_rows [] = 0
unsent_rows (k ∷ ks) = length k.rows + unsent_rows ks

unfoldable pub phase_work : {F E : Type 0} → Phase F E → ℕ
phase_work (starting call) = 2
phase_work (failed e) = 0
phase_work (serving table h) = length h.to_copiers + buffered h

unfoldable pub routines_work : {F E : Type 0} → List (Routine F E) → ℕ
routines_work [] = 0
routines_work (r ∷ rs) = 4 * length r.channel + phase_work r.phase + routines_work rs

abbrev pub signal_work : Bool → ℕ
signal_work b = if b then 1 else 0

-- A bound for the steps that are left when no call comes any more.
unfoldable pub work : {F E : Type 0} → Pipeline F E → ℕ
work p =
    7 * unsent_rows p.calls
    + routines_work p.routines
    + length p.to_copiers
    + signal_work p.complete_metric_creation

unsent_rows-append :
    {F : Type 0} (before : List (Call F)) (k : Call F) (after : List (Call F))
    → unsent_rows (before ++ k ∷ after) ≡ length k.rows + (unsent_rows before + unsent_rows after)
unfolding unsent_rows
unsent_rows-append [] k after = omega arith
unsent_rows-append (b ∷ bs) k after = omega (arith, unsent_rows-append bs k after)

module _ {F E : Type 0} where
  routines_work-append :
      (before : List (Routine F E)) (r : Routine F E) (after : List (Routine F E))
      → routines_work (before ++ r ∷ after)
        ≡ 4 * length r.channel + phase_work r.phase + (routines_work before + routines_work after)
  unfolding routines_work
  routines_work-append [] r after = omega arith
  routines_work-append (b ∷ bs) r after = omega (arith, routines_work-append bs r after)

  insert_metric_data-work :
      (metric : Bytes) (req : Request F) (rs : List (Routine F E))
      → routines_work (insert_metric_data metric req rs) ≤ routines_work rs + 6
  unfolding insert_metric_data routines_work phase_work
  insert_metric_data-work metric req [] = omega arith
  insert_metric_data-work metric req (r ∷ rs) =
      let a = insert_metric_data-work metric req rs in
      let b = length-append r.channel (req ∷ []) in
      elim (Bytes-discrete r.metric metric) [ yes e ↦ ground arith | no e ↦ ground arith ]

  -- A turn, with what it takes from the channel.
  next_input-work :
      (send : List Labels → Sent E) (channel : List (Request F)) (h : Handler F) (i : Input F)
      (reqs : List (Request F))
      → next_input channel h ≡ some (i, reqs)
      → 4 * length reqs + (length (turn send h i).1.to_copiers + buffered (turn send h i).1)
        < 4 * length channel + (length h.to_copiers + buffered h)
  unfolding next_input
  next_input-work send [] h i reqs e = elim (Bool-cases (has_pending_reqs h.pending)) [
    | inl b ↦
        let same_input : nothing ≡ i = ground arith in
        let same : [] ≡ reqs = ground arith in
        let (_, less) = turn_nothing_work send h (unfold has_pending_reqs in ground arith) in
        let at : (length (turn send h i).1.to_copiers + buffered (turn send h i).1)
            < length h.to_copiers + buffered h =
          subst
            (λ j.
              (length (turn send h j).1.to_copiers + buffered (turn send h j).1)
              < length h.to_copiers + buffered h)
            same_input less in
        let size : length reqs ≡ 0 = sym (ap length same) in omega arith
    | inr b ↦ absurd (ground arith)
  ]
  next_input-work send (req ∷ rest) h i reqs e =
      let same_input : request req ≡ i = ground arith in
      let same : rest ≡ reqs = ground arith in
      let (_, few) = turn_work send h req in
      let at : (length (turn send h i).1.to_copiers + buffered (turn send h i).1)
          ≤ length h.to_copiers + 2 =
        subst
          (λ j.
            (length (turn send h j).1.to_copiers + buffered (turn send h j).1)
            ≤ length h.to_copiers + 2)
          same_input few in
      let size : length rest ≡ length reqs = ap length same in omega arith

-- What a step tells is no work.
work-tell : {F E : Type 0} (told : Told E) (p : Pipeline F E) → work (tell told p) ≡ work p
unfolding work
work-tell told p =
    let (calls, routines, queue, signal, _) = tell_lem told p in
    let a = ap unsent_rows calls in
    let b = ap routines_work routines in
    let d = ap length queue in let s = ap signal_work signal in omega arith

start_routine-work :
    (F : Type 0) {E : Type 0} (missing : E) (lookup : Lookup E) (reply : NameReply E)
    → phase_work (start_routine {F = F} missing lookup reply).0 ≡ 0
unfolding start_routine phase_work get_metric_table_name new_handler new_pending buffered
    new_sample_info_iterator reset_position
start_routine-work F missing (found table) reply = omega arith
start_routine-work F missing (lookup_failed e) reply = refl
start_routine-work F missing entry_not_found (query_failed e) = refl
start_routine-work F missing entry_not_found no_row = refl
start_routine-work F missing entry_not_found (scan_failed e) = refl
start_routine-work F missing entry_not_found (row table new) = omega arith

module _ {F E : Type 0} (missing_table_name : E) (previously : E → E) {copiers : ℕ} where
  -- Every step does some of the work.
  Step-work :
      {p q : Pipeline F E} → Step missing_table_name previously copiers p q → work q < work p
  unfolding work
  Step-work {p = p} (by_call before call metric infos rows after e room) =
      let old =
        unsent_rows-append before (record { number = call; rows = (metric, infos) ∷ rows }) after in
      let new = unsent_rows-append before (record { number = call; rows = rows }) after in
      let at = ap unsent_rows e in
      let n = insert_metric_data-work metric (record { infos = infos; task = call }) p.routines in
      unfold hand_over in omega arith
  Step-work {p = p} (by_start before r after call lookup reply e f) =
      let phase = (start_routine missing_table_name lookup reply).0 in
      let old = routines_work-append before r after in
      let new = routines_work-append before (record r { phase = phase }) after in
      let at = ap routines_work e in
      let was : phase_work r.phase ≡ 2 = ap phase_work f ∙ (unfold phase_work in refl) in
      let is = start_routine-work F missing_table_name lookup reply in
      unfold begin_routine in ground arith
  Step-work {p = p} (by_failure before r after e req reqs f g h) =
      let told : Told E = (req.task, some (previously e)) ∷ [] in
      let p' : Pipeline F E = record p {
        routines = before ++ record r { channel = reqs } ∷ after;
      } in
      let same : work (tell told p') ≡ work p' = work-tell told p' in
      let old = routines_work-append before r after in
      let new = routines_work-append before (record r { channel = reqs }) after in
      let at = ap routines_work f in
      let size : length r.channel ≡ suc (length reqs) = ap length h in unfold refuse in omega arith
  Step-work {p = p} (by_routine before r after table h i reqs send e f g room) =
      let h' = (turn send h i).1 in
      let phase : Phase F E = serving table (record h' { to_copiers = [] }) in
      let sent : List (CopyRequest F) =
        map (λ b. record { buffer = b; table = table }) h'.to_copiers in
      let p' : Pipeline F E = record p {
        routines = before ++ record r { channel = reqs; phase = phase } ∷ after;
        to_copiers = p.to_copiers ++ sent;
      } in
      let same : work (tell (turn send h i).0 p') ≡ work p' = work-tell (turn send h i).0 p' in
      let old = routines_work-append before r after in
      let new = routines_work-append before (record r { channel = reqs; phase = phase }) after in
      let at = ap routines_work e in
      let was : phase_work r.phase ≡ length h.to_copiers + buffered h =
        ap phase_work f ∙ (unfold phase_work in refl) in
      let is : phase_work phase ≡ buffered h' = unfold phase_work buffered in omega arith in
      let k = length-append p.to_copiers sent in
      let l : length sent ≡ length h'.to_copiers =
        length-map (λ b. record { buffer = b; table = table }) h'.to_copiers in
      let n = next_input-work send r.channel h i reqs g in unfold serve in omega arith
  Step-work {p = p} (by_copier req reqs err e) =
      let p' : Pipeline F E = record p { to_copiers = reqs } in
      let same : work (tell (report_results err req.buffer).0 p') ≡ work p' =
        work-tell (report_results err req.buffer).0 p' in
      let size : length p.to_copiers ≡ suc (length reqs) = ap length e in
      unfold copy_next in omega arith
  Step-work {p = p} (by_worker e) = ground arith

module _ {F E : Type 0} (missing_table_name : E) (previously : E → E) (copiers : ℕ) where
  -- So many steps, one after another, without a new call.
  pub data Run : ℕ → Pipeline F E → Pipeline F E → Type 0 where
    rests : {p : Pipeline F E} → Run 0 p p
    moves :
        {n : ℕ} {p q r : Pipeline F E}
        → Step missing_table_name previously copiers p q
        → Run n q r
        → Run (suc n) p r

  -- However calls, routines, copiers and the worker take turns, they take at most as many steps
  -- without a new call as the work that is there says, and leave at least so much less of it.
  pub Run-work : {n : ℕ} {p q : Pipeline F E} → Run n p q → n + work q ≤ work p
  Run-work rests = omega arith
  Run-work (moves s r) =
      let a = Step-work missing_table_name previously s in let b = Run-work r in omega arith
