-- ===== src/Api/Steps.antt =====
-- pkg/api/query_range.go: at how many times the engine (pkg/promql/engine.go) evaluates a range query that it
-- gets, since it counts in whole milliseconds.
use native.Mathlib.Nat.{div-lt_iff_lt-mul}
use timescale_prometheus.Prelude.Int.{
  ℤ, pos, negsuc, pos_part, div_ℤ, ◌+ℤ◌, ◌-ℤ◌, ◌≤ℤ◌, max_int64, min_int64, sub_ℕ,
}
use mathlib.Core.Path.{subst}
use timescale_prometheus.Api.Ranges.{
  RangeForm, RangeQuery, sub_time, check_range, check_range_iff, max_points, sub_time_fits,
}
use timescale_prometheus.Api.{Parsers}
use timescale_prometheus.Prelude.{
  ℕ, zero, suc, ◌+◌, ◌-◌, ◌*◌, ◌/◌, ◌≤◌, ◌<◌, ◌≡◌, ap, ◌∙◌, refl, inl, inr, Option, none, some,
  if◌then◌else◌, ◌==◌, false, arith, Bool-cases,
}

-- `timeMilliseconds`, and `durationMilliseconds`.
unfoldable pub milliseconds : ℤ → ℤ
milliseconds t = div_ℤ t 1000000

-- `numSteps` of a range query whose step is positive and whose nanoseconds fit an int64; none is the division by an interval of 0.
unfoldable pub num_steps : RangeQuery → Option ℤ
unfolding milliseconds ◌-ℤ◌ ◌+ℤ◌
num_steps q =
    let interval = pos_part (milliseconds q.step) in
    if interval == 0
    then none
    else some (div_ℤ (milliseconds q.end -ℤ milliseconds q.start) interval +ℤ pos 1)

pos_minus_opposite : (x y : ℕ) → pos x -ℤ sub_ℕ 0 y ≡ pos (x + y)
unfolding ◌-ℤ◌
pos_minus_opposite x zero = ground arith
pos_minus_opposite x (suc y) = ground arith

opposites_apart : (x y : ℕ) → x ≤ y → sub_ℕ 0 x -ℤ sub_ℕ 0 y ≡ pos (y - x)
unfolding ◌-ℤ◌
opposites_apart zero zero h = refl
opposites_apart zero (suc y) h = ground arith
opposites_apart (suc x) zero h = absurd (omega arith)
opposites_apart (suc x) (suc y) h = ground arith

-- Two times are at most one millisecond farther apart once they are cut.
milliseconds_apart :
    (t u : ℤ)
    → u ≤ℤ t
    → (d : ℕ) × (milliseconds t -ℤ milliseconds u ≡ pos d)
      × (1000000 * d < pos_part (t -ℤ u) + 1000000)
unfolding milliseconds ◌-ℤ◌
milliseconds_apart (pos a) (pos b) h = (a / 1000000 - b / 1000000, ground arith, ground arith)
milliseconds_apart (pos a) (negsuc b) h = (
  a / 1000000 + suc b / 1000000,
  pos_minus_opposite (a / 1000000) (suc b / 1000000),
  ground arith,
)
milliseconds_apart (negsuc a) (pos b) h = absurd (omega arith)
milliseconds_apart (negsuc a) (negsuc b) h = (
  suc b / 1000000 - suc a / 1000000,
  opposites_apart (suc a / 1000000) (suc b / 1000000) (omega arith),
  ground arith,
)

ms_part : (t : ℤ) → pos_part (milliseconds t) ≡ pos_part t / 1000000
unfolding milliseconds
ms_part (pos n) = refl
ms_part (negsuc n) = elim (Bool-cases (suc n / 1000000 == 0)) [
  | inl e ↦ ground arith
  | inr e ↦ ground arith
]

-- The bound on the steps, in whole milliseconds.
steps_below :
    (apart step d : ℕ)
    → 0 < step / 1000000
    → apart / step ≤ max_points
    → 1000000 * d < apart + 1000000
    → (d / (step / 1000000) ≤ 22002)
      × (step ≡ 1000000 * (step / 1000000) → d / (step / 1000000) ≤ 11001)
steps_below apart step d some_ms few near =
    let some_step : 0 < step = omega arith in
    let near_step : apart < 11001 * step = (div-lt_iff_lt-mul some_step).0 (omega arith) in
    let wide = (div-lt_iff_lt-mul {x = d} {y = 22003} some_ms).1 (omega arith) in
    (
      omega arith,
      λ whole.
          let narrow = (div-lt_iff_lt-mul {x = d} {y = 11002} some_ms).1 (omega arith) in
          omega arith,
    )

-- What the engine makes of a query: no steps for an interval that is cut to 0, else so many at most.
pub record HasSteps (q : RangeQuery) : Type 0 where
  pub too_short : pos_part q.step < 1000000 → num_steps q ≡ none
  pub bounded :
      1000000 ≤ pos_part q.step
      → (n : ℕ) × (num_steps q ≡ some (pos n))
        × (n ≤ 22003)
        × (pos_part q.step ≡ 1000000 * (pos_part q.step / 1000000) → n ≤ 11002)

next_pos : (n : ℕ) → pos n +ℤ pos 1 ≡ pos (suc n)
unfolding ◌+ℤ◌
next_pos n = ground arith

count_steps :
    (q : RangeQuery) (n k : ℕ)
    → pos_part (milliseconds q.step) ≡ k
    → 0 < k
    → milliseconds q.end -ℤ milliseconds q.start ≡ pos n
    → num_steps q ≡ some (pos (suc (n / k)))
unfolding num_steps ◌+ℤ◌
count_steps q n k e some_ms f =
    let quotient : div_ℤ (milliseconds q.end -ℤ milliseconds q.start)
          (pos_part (milliseconds q.step))
        ≡ pos (n / k) =
      ap (λ d. div_ℤ d (pos_part (milliseconds q.step))) f ∙ ap (λ m. pos (n / m)) e in
    let counted =
      div_ℤ (milliseconds q.end -ℤ milliseconds q.start) (pos_part (milliseconds q.step))
      +ℤ pos 1 in
    let not_zero : (pos_part (milliseconds q.step) == 0) ≡ false = ground arith in
    ap (λ b. if b then none else some counted) not_zero
    ∙ ap (λ x. some (x +ℤ pos 1)) quotient
    ∙ ap some (next_pos (n / k))

-- For a range query that reaches the engine, with times whose nanoseconds fit an int64 and are at
-- most 2^63 - 1 apart, the engine divides by zero when it counts the steps if the step is below a
-- millisecond; otherwise they are at most 22,003, or at most 11,002 if the step is of whole
-- milliseconds.
pub check_range-num_steps :
    (parsers : Parsers) (form : RangeForm) (q : RangeQuery)
    → min_int64 ≤ℤ q.start
    → q.end ≤ℤ max_int64
    → (q.end -ℤ q.start) ≤ℤ max_int64
    → check_range parsers form ≡ inr q
    → HasSteps q
unfolding num_steps
check_range-num_steps parsers form q after before fits e =
    let (s, t, d, timeout, query, ordered, some_step, few) = (check_range_iff parsers form q).0 e in
    let step = pos_part q.step in
    let apart = pos_part (q.end -ℤ q.start) in
    let same : div_ℤ (sub_time q.end q.start) step ≡ pos (apart / step) =
      ap (λ x. div_ℤ x step) (sub_time_fits q.end q.start ordered fits) in
    let few' : apart / step ≤ max_points =
      let l = subst (λ x. x ≤ℤ pos max_points) same few in omega arith in
    let interval = ms_part q.step in
    let (n, is, near) = milliseconds_apart q.end q.start ordered in
    record {
      too_short = λ h. ground (arith, interval);
      bounded = λ h.
          let (wide, narrow) = steps_below apart step n (omega arith) few' near in
          (
            suc (n / (step / 1000000)),
            count_steps q n (step / 1000000) interval (omega arith) is,
            omega arith,
            λ whole. let l = narrow whole in omega arith,
          );
    }
