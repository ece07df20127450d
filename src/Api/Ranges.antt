-- ===== src/Api/Ranges.antt =====
-- pkg/api/query_range.go: the checks of a range query, and which queries reach the engine.
use timescale_prometheus.Prelude.Int.{
  ℤ, pos, pos_part, ltb_ℤ, leb_ℤ, div_ℤ, ◌-ℤ◌, ◌≤ℤ◌, ◌<ℤ◌, max_int64, min_int64,
}
use timescale_prometheus.Prelude.Bytes.{Bytes, codes}
use timescale_prometheus.Api.{
  Answer, Parsers, parse_time, parse_duration, Response, new_response, respond_error,
  respond_answer,
}
use timescale_prometheus.Prelude.{
  ℕ, ◌≡◌, ◌↔◌, ◌⊎◌, inl, inr, Option, none, some, [], ◌∷◌, if◌then◌else◌, arith, Bool-cases,
  Sum-cases,
}

-- The form values of a range query.
pub record RangeForm : Type 0 where
  pub start : Bytes
  pub end : Bytes
  pub step : Bytes
  pub timeout : Bytes
  pub query : Bytes

-- What the engine is asked.
pub record RangeQuery : Type 0 where
  pub query : Bytes
  pub start : ℤ
  pub end : ℤ
  pub step : ℤ
  pub timeout : Option ℤ

-- `time.Time.Sub`, which stops at the ends of the range of a `time.Duration`.
unfoldable pub sub_time : ℤ → ℤ → ℤ
unfolding ◌-ℤ◌
sub_time t u =
    let d = t -ℤ u in
    if ltb_ℤ max_int64 d then max_int64 else if ltb_ℤ d min_int64 then min_int64 else d

abbrev pub max_points : ℕ
max_points = 11000

module _ (parsers : Parsers) where
  -- The timeout, none when the parameter is not given.
  unfoldable pub parse_timeout : Bytes → Bytes ⊎ Option ℤ
  unfolding parse_duration
  parse_timeout [] = inr none
  parse_timeout (c ∷ cs) = elim (parse_duration parsers (c ∷ cs)) [
    | inl e ↦ inl e
    | inr d ↦ inr (some d)
  ]

  unfoldable pub check_step : RangeForm → ℤ → ℤ → ℤ → Bytes ⊎ RangeQuery
  unfolding sub_time parse_timeout
  check_step form start end step =
      let with_timeout : Bytes ⊎ RangeQuery = elim (parse_timeout form.timeout) [
        | inl e ↦ inl e
        | inr timeout ↦ inr (record {
          query = form.query;
          start = start;
          end = end;
          step = step;
          timeout = timeout;
        })
      ] in
      if leb_ℤ step (pos 0)
      then inl (codes "zero or negative query resolution step widths are not accepted")
      else if ltb_ℤ (pos max_points) (div_ℤ (sub_time end start) (pos_part step))
      then inl (codes "exceeded maximum resolution of 11,000 points per timeseries")
      else with_timeout

  unfoldable pub check_range : RangeForm → Bytes ⊎ RangeQuery
  unfolding parse_time parse_duration check_step
  check_range form = elim (parse_time parsers form.start) [
    | inl e ↦ inl e
    | inr start ↦ elim (parse_time parsers form.end) [
      | inl e ↦ inl e
      | inr end ↦
          let checked : Bytes ⊎ RangeQuery = elim (parse_duration parsers form.step) [
            | inl e ↦ inl e
            | inr step ↦ check_step form start end step
          ] in
          if ltb_ℤ end start
          then inl (codes "end timestamp must not be before start time")
          else checked
    ]
  ]

  -- The handler of `/api/v1/query_range`, for an engine.
  unfoldable pub query_range :
      {F V : Type 0} → (RangeQuery → Answer F V) → RangeForm → Option (Response F V)
  unfolding check_range respond_error respond_answer
  query_range engine form = elim (check_range form) [
    | inl e ↦ respond_error 400 (some e) (codes "bad_data") new_response
    | inr q ↦ respond_answer (engine q) new_response
  ]

  -- The conditions on the times and the step.
  abbrev pub IsAccepted : RangeForm → RangeQuery → Type 0
  IsAccepted form q =
      (parse_time parsers form.start ≡ inr q.start)
      × (parse_time parsers form.end ≡ inr q.end)
      × (parse_duration parsers form.step ≡ inr q.step)
      × (parse_timeout form.timeout ≡ inr q.timeout)
      × (q.query ≡ form.query)
      × (q.start ≤ℤ q.end)
      × (pos 0 <ℤ q.step)
      × (div_ℤ (sub_time q.end q.start) (pos_part q.step) ≤ℤ pos max_points)

  check_step-IsAccepted :
      (form : RangeForm) (start end step : ℤ) (q : RangeQuery)
      → check_step form start end step ≡ inr q
      → (q.start ≡ start)
        × (q.end ≡ end)
        × (q.step ≡ step)
        × (parse_timeout form.timeout ≡ inr q.timeout)
        × (q.query ≡ form.query)
        × (pos 0 <ℤ step)
        × (div_ℤ (sub_time end start) (pos_part step) ≤ℤ pos max_points)
  unfolding check_step
  check_step-IsAccepted form start end step q e = elim (Sum-cases (parse_timeout form.timeout)) [
    | inl (x, f) ↦ absurd (ground arith)
    | inr (t, f) ↦ ground arith
  ]

  -- A range query reaches the engine exactly so.
  pub check_range_iff :
      (form : RangeForm) (q : RangeQuery) → (check_range form ≡ inr q) ↔ IsAccepted form q
  unfolding check_range
  check_range_iff form q = (
    λ e. elim (Sum-cases (parse_time parsers form.start)) [
      | inl (x, f) ↦ absurd (ground arith)
      | inr (start, f) ↦ elim (Sum-cases (parse_time parsers form.end)) [
        | inl (x, g) ↦ absurd (ground arith)
        | inr (end, g) ↦ elim (Sum-cases (parse_duration parsers form.step)) [
          | inl (x, h) ↦ elim (Bool-cases (ltb_ℤ end start)) [
            | inl b ↦ absurd (ground arith)
            | inr b ↦ absurd (ground arith)
          ]
          | inr (step, h) ↦ elim (Bool-cases (ltb_ℤ end start)) [
            | inl b ↦ absurd (ground arith)
            | inr b ↦
                let checked : check_step form start end step ≡ inr q = ground arith in
                let (s, t, d, timeout, query, some_step, few) =
                  check_step-IsAccepted form start end step q checked in
                ground arith
          ]
        ]
      ]
    ],
    λ a.
        let (s, t, d, timeout, query, ordered, some_step, few) = a in
        let checked : check_step form q.start q.end q.step ≡ inr q =
          unfold check_step in ground arith in
        ground arith,
  )

-- The difference of times that are not too far apart.
pub sub_time_fits :
    (t u : ℤ) → u ≤ℤ t → (t -ℤ u) ≤ℤ max_int64 → sub_time t u ≡ pos (pos_part (t -ℤ u))
unfolding sub_time ◌-ℤ◌
sub_time_fits t u h k = ground arith
