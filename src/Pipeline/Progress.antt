-- ===== src/Pipeline/Progress.antt =====
-- pkg/pgmodel/sql_ingest.go: in every reachable state the counters are true, no step tells a call that does
-- not wait, and as long as a call waits some part of the pipeline can take a step.
use timescale_prometheus.Labels.{Labels}
use timescale_prometheus.Prelude.Bytes.{Bytes, Bytes-discrete}
use timescale_prometheus.Samples.{SamplesInfo}
use timescale_prometheus.Prelude.Int.{pos}
use timescale_prometheus.SeriesIds.{Sent, sent, got}
use timescale_prometheus.Inserter.{has_pending_reqs}
use timescale_prometheus.Handler.{Handler, request, nothing}
use timescale_prometheus.Handler.Responses.{count, count_told, count_queued, count_waiting}
use timescale_prometheus.Pipeline.{
  found, no_row, Phase, starting, failed, serving, Routine, Call, Pipeline, begin_call, channel_of,
  next_input,
}
use timescale_prometheus.Pipeline.Steps.{
  Step, by_call, by_start, by_failure, by_routine, by_copier, Reach, at_start, insert_data, step,
}
use timescale_prometheus.Prelude.{
  List-cases, ℕ, ◌+◌, ◌≤◌, ◌<◌, ◌≡◌, refl, ap, sym, ◌∙◌, none, some, List, [], ◌∷◌, ◌++◌, All,
  length, arith, Bool-cases, ap₂, append_assoc, ◌⊎◌, inl, inr,
}
use timescale_prometheus.Pipeline.Counting.{
  unsent, in_channel, in_phase, in_routines, in_queue, in_pipeline, IsCounted,
}
use mathlib.Core.Path.{subst}
use timescale_prometheus.Handler.Buffers.{NoneWaits}
use timescale_prometheus.Handler.Buffers.{NoneWaits, turn_work, turn_nothing_work}
use timescale_prometheus.Pipeline.Telling.{told_by}
use timescale_prometheus.Pipeline.Accounts.{Step-count, Step-outstanding}
use timescale_prometheus.Pipeline.Shape.{IsPhase, IsRoutine, Reach-Shaped}

module _ {F E : Type 0} (missing_table_name : E) (previously : E → E) where
  IsCounted-step :
      {copiers : ℕ} {p q : Pipeline F E}
      → Step missing_table_name previously copiers p q
      → IsCounted p
      → IsCounted q
  IsCounted-step s counted c real =
      let a = counted c real in
      let b = Step-count missing_table_name previously s c real in
      let d = Step-outstanding missing_table_name previously s c in omega arith

  -- In every state of the pipeline that calls and steps reach, the counter of the wait group of
  -- each call, a number other than 0, is the number of its requests that were not handed over, are
  -- in a channel, wait in a buffer or wait for a copier.
  pub Reach-IsCounted :
      {copiers : ℕ} {p : Pipeline F E}
      → Reach missing_table_name previously copiers p
      → (c : ℕ) → 0 < c
      → p.outstanding c ≡ in_pipeline c p
  unfolding begin_call in_pipeline unsent
  Reach-IsCounted at_start c real = unfold in_routines in_queue in refl
  Reach-IsCounted (insert_data call rows r _ fresh holds) c real =
      let a = Reach-IsCounted r c real in ground arith
  Reach-IsCounted (step r s) c real = IsCounted-step s (Reach-IsCounted r) c real

  -- In a reachable state of the pipeline a step tells each call, a number other than 0, at most as
  -- often as its wait group counts, so that no wait group is counted below 0 and no error goes to a
  -- call that has returned.
  pub told_by-outstanding :
      {copiers : ℕ} {p q : Pipeline F E}
      → Reach missing_table_name previously copiers p
      → (s : Step missing_table_name previously copiers p q) (c : ℕ) → 0 < c
      → count_told c (told_by missing_table_name previously s) ≤ p.outstanding c
  told_by-outstanding r s c real =
      let a = Reach-IsCounted r c real in
      let b = Step-count missing_table_name previously s c real in omega arith

-- A routine that waits for a request.
unfoldable IsIdle : {F E : Type 0} → Routine F E → Type 0
IsIdle r = (r.channel ≡ []) × ((c : ℕ) → in_phase c r.phase ≡ 0)

module _ {F E : Type 0} where
  idle_routines : (c : ℕ) (rs : List (Routine F E)) → All IsIdle rs → in_routines c rs ≡ 0
  unfolding in_routines IsIdle
  idle_routines c [] h = refl
  idle_routines c (r ∷ rs) (h, hs) =
      let a = idle_routines c rs hs in
      let b = h.1 c in
      let d : in_channel c r.channel ≡ 0 = ap (in_channel c) h.0 ∙ (unfold in_channel in refl) in
      omega arith

  idle_channel :
      (metric : Bytes) (rs : List (Routine F E)) → All IsIdle rs → length (channel_of metric rs) ≡ 0
  unfolding channel_of IsIdle
  idle_channel metric [] h = refl
  idle_channel metric (r ∷ rs) (h, hs) =
      let a = idle_channel metric rs hs in
      let b = ap length h.0 in
      elim (Bytes-discrete r.metric metric) [ yes e ↦ ground arith | no e ↦ ground arith ]

-- A call that has requests left.
unsent_call :
    {F : Type 0} (c : ℕ) (ks : List (Call F))
    → 0 < unsent c ks
    → (before : List (Call F)) × (k : Call F) × (after : List (Call F)) × (first : Bytes
        × List (SamplesInfo F))
      × (rows : List (Bytes × List (SamplesInfo F))) × (ks
          ≡ before ++ record k { rows = first ∷ rows } ∷ after)
unfolding unsent
unsent_call c [] h = absurd (omega arith)
unsent_call {F} c (k ∷ ks) h = elim (List-cases k.rows) [
  | inl e ↦
      let (before, l, after, first, rows, f) = unsent_call c ks (ground arith) in
      (k ∷ before, l, after, first, rows, ap (λ t. k ∷ t) f)
  | inr (first, rows, e) ↦ ([], k, ks, first, rows, ap (λ rest. record k { rows = rest } ∷ ks) e)
]

Phase-cases :
    {F E : Type 0} (phase : Phase F E)
    → ((call : ℕ) × (phase ≡ starting call))
      ⊎ (((e : E) × (phase ≡ failed e))
          ⊎ ((table : Bytes) × (h : Handler F) × (phase ≡ serving table h)))
Phase-cases (starting call) = inl (call, refl)
Phase-cases (failed e) = inr (inl (e, refl))
Phase-cases (serving table h) = inr (inr (table, h, refl))

-- Nothing waits in an empty buffer.
serving_waits :
    {F : Type 0} (c : ℕ) (h : Handler F)
    → h.to_copiers ≡ []
    → h.pending.needs_response ≡ []
    → count_waiting c h ≡ 0
unfolding count_waiting count_queued count
serving_waits c h clean quiet = ap₂ (λ q n. count_queued c q + count c n) clean quiet ∙ omega arith

module _ {F E : Type 0} (missing_table_name : E) (previously : E → E) (copiers : ℕ)
    (p : Pipeline F E) where
  -- Some part of the pipeline can take a step.
  abbrev pub Moves : Type 0
  Moves = (q : Pipeline F E) × Step missing_table_name previously copiers p q

  module _ (some_copier : 0 < copiers) (no_copy : p.to_copiers ≡ []) where
    serving_moves :
        (before : List (Routine F E)) (r : Routine F E) (after : List (Routine F E)) (table : Bytes)
        (h : Handler F)
        → p.routines ≡ before ++ r ∷ after
        → r.phase ≡ serving table h
        → IsRoutine r
        → Moves ⊎ IsIdle r
    unfolding in_phase
    serving_moves before r after table h e f k =
        let send : List Labels → Sent E = λ _. sent (λ _. got (pos 0) none) in
        let phase : (h.to_copiers ≡ []) × NoneWaits h =
          unfold IsPhase in subst (IsPhase r.channel) f k.1 in
        let (clean, w) = phase in
        let none_sent : length h.to_copiers ≡ 0 = ap length clean in
        let none_queued : length p.to_copiers ≡ 0 = ap length no_copy in
        elim (List-cases r.channel) [
          | inr (req, reqs, g) ↦
              let (few, _) = turn_work send h req in
              let next : next_input r.channel h ≡ some (request req, reqs) =
                unfold next_input in ground arith in
              inl (
                _,
                by_routine before r after table h (request req) reqs send e f next (omega arith),
              )
          | inl g ↦ elim (Bool-cases (has_pending_reqs h.pending)) [
            | inl b ↦
                let (few, _) = turn_nothing_work send h (unfold has_pending_reqs in ground arith) in
                let next : next_input r.channel h ≡ some (nothing, []) =
                  unfold next_input in ground arith in
                inl (_, by_routine before r after table h nothing [] send e f next (omega arith))
            | inr b ↦
                let quiet = w (unfold has_pending_reqs in ground arith) in
                let waits : (c : ℕ) → in_phase c r.phase ≡ 0 =
                  λ c. ap (in_phase c) f ∙ serving_waits c h clean quiet in
                inr (unfold IsIdle in (g, waits))
          ]
        ]

    routine_moves :
        (before : List (Routine F E)) (r : Routine F E) (after : List (Routine F E))
        → p.routines ≡ before ++ r ∷ after
        → IsRoutine r
        → Moves ⊎ IsIdle r
    routine_moves before r after e k = elim (Phase-cases r.phase) [
      | inl (call, f) ↦ inl (_, by_start before r after call (found []) no_row e f)
      | inr (inl (x, f)) ↦ elim (List-cases r.channel) [
        | inl g ↦
            let waits : (c : ℕ) → in_phase c r.phase ≡ 0 =
              λ c. ap (in_phase c) f ∙ (unfold in_phase in refl) in
            inr (unfold IsIdle in (g, waits))
        | inr (req, reqs, g) ↦ inl (_, by_failure before r after x req reqs e f g)
      ]
      | inr (inr (table, h, f)) ↦ serving_moves before r after table h e f k
    ]

    routines_move :
        (before rs : List (Routine F E))
        → p.routines ≡ before ++ rs
        → All IsRoutine rs
        → Moves ⊎ All IsIdle rs
    routines_move before [] e h = inr tt
    routines_move before (r ∷ rs) e (h, hs) =
        let e' = e ∙ sym (append_assoc before (r ∷ []) rs) in
        elim (routine_moves before r rs e h) [
          | inl moves ↦ inl moves
          | inr idle ↦ elim (routines_move (before ++ r ∷ []) rs e' hs) [
            | inl moves ↦ inl moves
            | inr rest ↦ inr (idle, rest)
          ]
        ]

  -- As long as a call, a number other than 0, waits in a reachable state of the pipeline and there
  -- is a copier, a step can be taken: calls, routines and copiers never block each other for good,
  -- given that a call hands over no empty list of series.
  pub Reach-Moves :
      (c : ℕ)
      → 0 < copiers
      → Reach missing_table_name previously copiers p
      → 0 < c
      → 0 < p.outstanding c
      → Moves
  Reach-Moves c some_copier r real waits =
      let counted = Reach-IsCounted missing_table_name previously r c real in
      let shaped = Reach-Shaped missing_table_name previously r in
      elim (List-cases p.to_copiers) [
        | inr (req, reqs, e) ↦ (_, by_copier req reqs none e)
        | inl e ↦ elim (routines_move some_copier e [] p.routines refl shaped.routines) [
          | inl moves ↦ moves
          | inr idle ↦
              let a = idle_routines c p.routines idle in
              let b : in_queue c p.to_copiers ≡ 0 = ap (in_queue c) e ∙ (unfold in_queue in refl) in
              let (before, k, after, first, rows, f) =
                unsent_call c p.calls (unfold in_pipeline in omega arith) in
              let room = idle_channel first.0 p.routines idle in
              (_, by_call before k.number first.0 first.1 rows after f (omega arith))
        ]
      ]
