-- ===== src/SeriesSet/Skipping.antt =====
-- The positions of a series' samples that are skipped, since an element is absent or too early
-- (pkg/pgmodel/series_set.go).
use timescale_prometheus.Prelude.Int.{ℤ, leb_ℤ}
use timescale_prometheus.Prelude.{
  ℕ, suc, ◌+◌, ◌≤◌, ◌<◌, ◌≡◌, refl, ap, ◌∙◌, inl, inr, Bool, ◌&&◌, List, [], ◌∷◌, arith,
  if◌then◌else◌, length, drop, Bool-cases,
}
use timescale_prometheus.SeriesSet.{Stamp, Float8, stamp_ts}

abbrev pub ts_of : Stamp → ℤ
ts_of t = stamp_ts t.infinity_modifier t.unix_nano

module _ {F : Type 0} where
  abbrev pub both_present : Stamp → Float8 F → Bool
  both_present t v = t.present && v.present

  -- How many positions come before the first one where both elements are present.
  unfoldable pub skip : List Stamp → List (Float8 F) → ℕ
  skip (t ∷ ts) (v ∷ vs) = let rest = skip ts vs in if both_present t v then 0 else suc rest
  skip ts vs = 0

  -- The samples whose elements are both present, in order.
  unfoldable pub present_samples : List Stamp → List (Float8 F) → List (ℤ × F)
  present_samples (t ∷ ts) (v ∷ vs) =
      let rest = present_samples ts vs in
      if both_present t v then (ts_of t, v.float) ∷ rest else rest
  present_samples ts vs = []

  -- How many positions come before the first present sample that is not earlier than `t`.
  unfoldable pub skip_until : ℤ → List Stamp → List (Float8 F) → ℕ
  skip_until t (s ∷ ts) (v ∷ vs) =
      let rest = skip_until t ts vs in if both_present s v && leb_ℤ t (ts_of s) then 0 else suc rest
  skip_until t ts vs = 0

  -- The position that `Next` stops at, if there is one, holds a sample; what comes before it is absent.
  pub skip-found :
      (ts : List Stamp) (vs : List (Float8 F))
      → length ts ≡ length vs
      → skip ts vs < length ts
      → (t : Stamp) × (v : Float8 F) × (ts' : List Stamp) × (vs' : List (Float8 F)) × (drop
            (skip ts vs)
            ts
          ≡ t ∷ ts')
        × (drop (skip ts vs) vs ≡ v ∷ vs')
        × (length ts' ≡ length vs')
        × (length ts ≡ skip ts vs + suc (length ts'))
        × (present_samples ts vs ≡ (ts_of t, v.float) ∷ present_samples ts' vs')
        × ((q : ℤ)
            → skip_until q ts vs
              ≡ skip ts vs + (if leb_ℤ q (ts_of t) then 0 else suc (skip_until q ts' vs')))
  unfolding skip present_samples skip_until
  skip-found [] vs same h = absurd (omega arith)
  skip-found (t ∷ ts) [] same h = absurd (omega arith)
  skip-found (t ∷ ts) (v ∷ vs) same h = elim (Bool-cases (both_present t v)) [
    | inl here ↦
        let e : skip (t ∷ ts) (v ∷ vs) ≡ 0 = ground arith in
        (
          t,
          v,
          ts,
          vs,
          ap (λ n. drop n (t ∷ ts)) e ∙ refl,
          ap (λ n. drop n (v ∷ vs)) e ∙ refl,
          omega arith,
          ground arith,
          ground arith,
          λ q. ground arith,
        )
    | inr absent ↦
        let (t', v', ts', vs', dt, dv, same', size, samples, until) =
          skip-found ts vs (omega arith) (ground arith) in
        let e : skip (t ∷ ts) (v ∷ vs) ≡ suc (skip ts vs) = ground arith in
        (
          t',
          v',
          ts',
          vs',
          ap (λ n. drop n (t ∷ ts)) e ∙ dt,
          ap (λ n. drop n (v ∷ vs)) e ∙ dv,
          same',
          ground arith,
          ground arith,
          λ q. ground (arith, until q),
        )
  ]

  pub skip-end :
      (ts : List Stamp) (vs : List (Float8 F))
      → length ts ≡ length vs
      → length ts ≤ skip ts vs
      → (present_samples ts vs ≡ [])
        × (skip ts vs ≡ length ts)
        × ((q : ℤ) → skip_until q ts vs ≡ length ts)
  unfolding skip present_samples skip_until
  skip-end [] vs same h = (refl, refl, λ q. refl)
  skip-end (t ∷ ts) [] same h = absurd (omega arith)
  skip-end (t ∷ ts) (v ∷ vs) same h =
      let (none_left, all, until) = skip-end ts vs (omega arith) (ground arith) in
      (ground arith, ground arith, λ q. ground (arith, until q))
