-- ===== src/Pipeline/Telling.antt =====
-- pkg/pgmodel/sql_ingest.go: the errors that a step tells, and what it writes.
use timescale_prometheus.Samples.{SamplesInfo}
use timescale_prometheus.Inserter.{report_results}
use timescale_prometheus.Handler.{Told, turn}
use timescale_prometheus.Handler.Weights.{count_failed, count_failed-append}
use timescale_prometheus.Pipeline.{Phase, serving, Pipeline, tell, start_routine, send_error, done}
use timescale_prometheus.Pipeline.Steps.{
  hand_over, begin_routine, refuse, serve, copy_next, Step, by_call, by_start, by_failure,
  by_routine, by_copier, by_worker,
}
use timescale_prometheus.Prelude.{
  ℕ, ◌≡◌, refl, inl, inr, Option, none, some, List, [], ◌∷◌, ◌++◌, map, arith, Bool-cases,
  Option-cases, ◌==◌,
}

-- An error channel that is empty after an error was sent is that of another call, and was empty.
pub send_error-none :
    {E : Type 0} (call : ℕ) (err : Option E) (err_chan : ℕ → Option E) (c : ℕ)
    → send_error call err err_chan c ≡ none
    → (err_chan c ≡ none) × (count_failed c ((call, err) ∷ []) ≡ 0)
unfolding send_error count_failed
send_error-none call none err_chan c e = (e, refl)
send_error-none call (some x) err_chan c e = elim (Bool-cases (c == call)) [
  | inr other ↦ (ground arith, ground arith)
  | inl same ↦ elim (Option-cases (err_chan c)) [
    | inl f ↦ absurd (ground arith)
    | inr (first, f) ↦ absurd (ground arith)
  ]
]

-- An error channel that is empty in the end was empty before, and its call is told no error.
pub tell_errors :
    {F E : Type 0} (told : Told E) (p : Pipeline F E) (c : ℕ)
    → (tell told p).err_chan c ≡ none
    → (p.err_chan c ≡ none) × (count_failed c told ≡ 0)
unfolding tell
tell_errors [] p c e = (e, unfold count_failed in refl)
tell_errors ((call, err) ∷ told) p c e =
    let q = record p {
      err_chan = send_error call err p.err_chan;
      outstanding = done call p.outstanding;
    } in
    let (later, none_later) = tell_errors told q c e in
    let (before, none_here) = send_error-none call err p.err_chan c later in
    let both = count_failed-append c ((call, err) ∷ []) told in (before, omega arith)

module _ {F E : Type 0} (missing_table_name : E) (previously : E → E) where
  -- What the tasks are told in a step.
  unfoldable pub told_by :
      {copiers : ℕ} {p q : Pipeline F E} → Step missing_table_name previously copiers p q → Told E
  told_by (by_call before call metric infos rows after e room) = []
  told_by (by_start before r after call lookup reply e f) = []
  told_by (by_failure before r after e req reqs f g h) = (req.task, some (previously e)) ∷ []
  told_by (by_routine before r after table h i reqs send e f g room) = (turn send h i).0
  told_by (by_copier req reqs err e) = (report_results err req.buffer).0
  told_by (by_worker e) = []

  -- What a step writes: the buffer of a copier that reports no error.
  unfoldable pub written_by :
      {copiers : ℕ} {p q : Pipeline F E}
      → Step missing_table_name previously copiers p q
      → List (SamplesInfo F)
  written_by (by_call before call metric infos rows after e room) = []
  written_by (by_start before r after call lookup reply e f) = []
  written_by (by_failure before r after e req reqs f g h) = []
  written_by (by_routine before r after table h i reqs send e f g room) = []
  written_by (by_copier req reqs none e) = req.buffer.batch.sample_infos
  written_by (by_copier req reqs (some err) e) = []
  written_by (by_worker e) = []

  -- An error channel that is empty after a step was empty, and its call is told no error.
  pub Step-errors :
      {copiers : ℕ} {p q : Pipeline F E} (s : Step missing_table_name previously copiers p q)
      (c : ℕ)
      → q.err_chan c ≡ none
      → (p.err_chan c ≡ none) × (count_failed c (told_by s) ≡ 0)
  unfolding told_by hand_over begin_routine refuse serve copy_next
  Step-errors (by_call before call metric infos rows after e room) c z =
      (z, unfold count_failed in refl)
  Step-errors {p = p} (by_start before r after call lookup reply e f) c z =
      let err = (start_routine {F = F} missing_table_name lookup reply).1 in
      let (was, _) = send_error-none call err p.err_chan c z in (was, unfold count_failed in refl)
  Step-errors {p = p} (by_failure before r after e req reqs f g h) c z =
      tell_errors ((req.task, some (previously e)) ∷ [])
        (record p { routines = before ++ record r { channel = reqs } ∷ after }) c z
  Step-errors {p = p} (by_routine before r after table h i reqs send e f g room) c z =
      let (told, h') = turn send h i in
      let phase : Phase F E = serving table (record h' { to_copiers = [] }) in
      tell_errors told
        (record p {
          routines = before ++ record r { channel = reqs; phase = phase } ∷ after;
          to_copiers =
              p.to_copiers ++ map (λ b. record { buffer = b; table = table }) h'.to_copiers;
        })
        c z
  Step-errors {p = p} (by_copier req reqs err e) c z =
      tell_errors (report_results err req.buffer).0 (record p { to_copiers = reqs }) c z
  Step-errors (by_worker e) c z = (z, unfold count_failed in refl)
