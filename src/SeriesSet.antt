-- ===== src/SeriesSet.antt =====
-- pkg/pgmodel/series_set.go: the samples of a series as arrays with nulls, read by an iterator, and
-- the series of a query, read from several result sets.
pub mod Skipping
pub mod Iteration
pub mod ResultSets
use timescale_prometheus.Prelude.Int.{
  ℤ, pos, negsuc, incr, at_least, index, min_int64, max_int64, div_ℤ, leb_ℤ,
}
use timescale_prometheus.Labels.{Label, sort_labels}
use timescale_prometheus.Prelude.{
  ℕ, zero, suc, ◌+◌, ◌-◌, ◌*◌, ◌/◌, ◌%◌, ◌≤◌, ◌<◌, ◌≡◌, refl, sym, ap, ap₂, ◌∙◌, ◌≢◌, ◌↔◌, ◌⊎◌, inl,
  inr, ite, if_pos, if_neg, Bool, true, false, not, ◌&&◌, ◌||◌, Option, none, some, List, [], ◌∷◌,
  ◌++◌, arith, ltb, leb, ◌==◌, if◌then◌else◌, length, get_elem?, set, take, drop, map, All,
  Option-cases, Bool-cases, length-append, append_assoc, append-nil,
}

pub data InfinityModifier : Type 0 where
  finite infinity negative_infinity : InfinityModifier

-- An element of a `pgtype.TimestamptzArray`: whether its status is `Present`, and its time in
-- nanoseconds since 1970.
pub record Stamp : Type 0 where
  pub present : Bool
  pub infinity_modifier : InfinityModifier
  pub unix_nano : ℤ

-- An element of a `pgtype.Float8Array`.
pub record Float8 (F : Type 0) : Type 0 where
  pub present : Bool
  pub float : F

-- `pgxSeriesIterator`
pub record SeriesIterator (F : Type 0) : Type 0 where
  pub cur : ℤ
  pub total_samples : ℕ
  pub times : List Stamp
  pub values : List (Float8 F)

-- The timestamp of an element in milliseconds.
unfoldable pub stamp_ts : InfinityModifier → ℤ → ℤ
stamp_ts negative_infinity unix_nano = min_int64
stamp_ts infinity unix_nano = max_int64
stamp_ts finite unix_nano = div_ℤ unix_nano 1000000

module _ {F : Type 0} where
  unfoldable pub new_iterator : List Stamp → List (Float8 F) → SeriesIterator F
  new_iterator times values = record {
    cur = negsuc 0;
    total_samples = length times;
    times = times;
    values = values;
  }

  -- `getTs` and `getVal`; `none` is the panic on an index out of range.
  unfoldable pub get_ts : SeriesIterator F → Option ℤ
  get_ts p = elim (index p.times p.cur) [
    | none ↦ none
    | some v ↦ some (stamp_ts v.infinity_modifier v.unix_nano)
  ]

  unfoldable pub get_val : SeriesIterator F → Option F
  get_val p = elim (index p.values p.cur) [ none ↦ none | some v ↦ some v.float ]

  -- The test of `Next`: both elements at the cursor are present.
  unfoldable pub is_present : SeriesIterator F → Option Bool
  is_present p = elim (index p.times p.cur) [
    | none ↦ none
    | some t ↦ elim (index p.values p.cur) [ none ↦ none | some v ↦ some (t.present && v.present) ]
  ]

  -- `Next`, on fuel; `none` is a panic, or that the fuel ran out.
  unfoldable pub next_loop : ℕ → SeriesIterator F → Option (Bool × SeriesIterator F)
  next_loop zero p = none
  next_loop (suc fuel) p =
      let p' = record p { cur = incr p.cur } in
      elim (at_least p'.cur p'.total_samples) [
        | true ↦ some (false, p')
        | false ↦ elim (is_present p') [
          | none ↦ none
          | some b ↦ elim b [ true ↦ some (true, p') | false ↦ next_loop fuel p' ]
        ]
      ]

  unfoldable pub next : SeriesIterator F → Option (Bool × SeriesIterator F)
  next p = next_loop (suc (suc p.total_samples)) p

  -- The loop of `Seek`, on fuel.
  unfoldable pub seek_loop : ℕ → ℤ → SeriesIterator F → Option (Bool × SeriesIterator F)
  seek_loop zero t p = none
  seek_loop (suc fuel) t p = elim (next p) [
    | none ↦ none
    | some (more, p') ↦ elim more [
      | false ↦ some (false, p')
      | true ↦ elim (get_ts p') [
        | none ↦ none
        | some ts ↦ elim (leb_ℤ t ts) [ true ↦ some (true, p') | false ↦ seek_loop fuel t p' ]
      ]
    ]
  ]

  unfoldable pub seek : ℤ → SeriesIterator F → Option (Bool × SeriesIterator F)
  seek t p = seek_loop (suc (suc p.total_samples)) t (record p { cur = negsuc 0 })

  -- `At`, with the zero value of a float64; `none` is a panic.
  unfoldable pub at : F → SeriesIterator F → Option (ℤ × F)
  at zero_float p = elim (at_least p.cur p.total_samples) [
    | true ↦ some (pos 0, zero_float)
    | false ↦ elim (at_least p.cur 0) [
      | false ↦ some (pos 0, zero_float)
      | true ↦ elim (get_ts p) [
        | none ↦ none
        | some ts ↦ elim (get_val p) [ none ↦ none | some v ↦ some (ts, v) ]
      ]
    ]
  ]
