-- ===== src/SeriesSet/ResultSets.antt =====
-- pkg/pgmodel/series_set.go: the series of a query, read row by row from its result sets. `pgx.Rows`, `Scan` of
-- a row and the labels of ids are parameters.
pub mod Moving
pub mod Errors
use timescale_prometheus.Prelude.Int.{ℤ}
use timescale_prometheus.Labels.{Label, sort_labels}
use timescale_prometheus.SeriesSet.{Stamp, Float8}
use timescale_prometheus.Prelude.{
  ℕ, zero, suc, ◌+◌, Bool, true, false, ◌⊎◌, inl, inr, Option, none, some, List, [], ◌∷◌, leb, ◌==◌,
  if◌then◌else◌, length, get_elem?, set,
}

-- What `Scan` makes of a row: an error, or the ids of the labels, the times and the values.
pub data Row (F E : Type 0) : Type 0 where
  scan_failed : E → Row F E
  scanned : List ℤ → List Stamp → List (Float8 F) → Row F E

-- `pgx.Rows`: the row that is read, the rows that are left, and the error that there is when all are read.
pub record Rows (F E : Type 0) : Type 0 where
  pub current : Option (Row F E)
  pub left : List (Row F E)
  pub failure : Option E
  pub closed : Bool

pub data SetError (E : Type 0) : Type 0 where
  invalid_data : SetError E
  rows_failed : E → SetError E

-- `pgxSeries`
pub record PgxSeries (F : Type 0) : Type 0 where
  pub labels : List Label
  pub times : List Stamp
  pub values : List (Float8 F)

-- `pgxSeriesSet`
pub record PgxSeriesSet (F E : Type 0) : Type 0 where
  pub row_idx : ℕ
  pub rows : List (Rows F E)
  pub err : Option (SetError E)

-- `if p.err == nil { p.err = … }`
unfoldable pub keep_error : {E : Type 0} → Option (SetError E) → Option E → Option (SetError E)
keep_error (some e) failure = some e
keep_error none none = none
keep_error none (some e) = some (rows_failed e)

module _ {F E : Type 0} where
  -- `Next` of `pgx.Rows`
  unfoldable pub next_row : Rows F E → Bool × Rows F E
  next_row r = elim r.left [
    | [] ↦ (false, record r { current = none })
    | x ∷ xs ↦ (true, record r { current = some x; left = xs })
  ]

  -- The loop of `Next`; each round goes to the next result set, so that their number is enough fuel.
  unfoldable pub next_from : ℕ → PgxSeriesSet F E → Bool × PgxSeriesSet F E
  unfolding next_row keep_error
  next_from zero p = (false, p)
  next_from (suc n) p = elim (get_elem? p.rows p.row_idx) [
    | none ↦ (false, p)
    | some r ↦
        let (more, r') = next_row r in
        let here = record p { rows = set p.rows p.row_idx r' } in
        let p' = record p {
          row_idx = suc p.row_idx;
          rows = set p.rows p.row_idx (record r' { closed = true });
          err = keep_error p.err r'.failure;
        } in
        let rest = next_from n p' in
        if more
        then (true, here)
        else if leb (length p.rows) (suc p.row_idx)
        then (false, p')
        else rest
  ]

  -- `Next`
  unfoldable pub next_series : PgxSeriesSet F E → Bool × PgxSeriesSet F E
  unfolding next_from
  next_series p =
      let forward = next_from (length p.rows) p in
      if leb (length p.rows) p.row_idx then (false, p) else forward

module _ {F E : Type 0} (get_labels_for_ids : List ℤ → E ⊎ List Label) where
  -- The series of a row; none is nil.
  unfoldable pub series_of : Row F E → Option (PgxSeries F)
  series_of (scan_failed e) = none
  series_of (scanned ids times values) =
      let without : Option (PgxSeries F) =
        some (record { labels = []; times = times; values = values }) in
      let with_labels : Option (PgxSeries F) = elim (get_labels_for_ids ids) [
        | inl e ↦ none
        | inr lls ↦ some (record { labels = sort_labels lls; times = times; values = values })
      ] in
      if length times == length values
      then (if length ids == 0 then without else with_labels)
      else none

  -- `At`: the error is set until all data is found to be valid, and then it is nil.
  unfoldable pub series_at : PgxSeriesSet F E → Option (PgxSeries F) × PgxSeriesSet F E
  unfolding series_of
  series_at p = elim (get_elem? p.rows p.row_idx) [
    | none ↦ (none, p)
    | some r ↦ elim r.current [
      | none ↦ (none, record p { err = some invalid_data })
      | some row ↦ elim (series_of row) [
        | none ↦ (none, record p { err = some invalid_data })
        | some s ↦ (some s, record p { err = none })
      ]
    ]
  ]

  -- A caller that reads all series: the loop over `Next`, which takes so many rounds at most.
  unfoldable pub read_series : ℕ → PgxSeriesSet F E → List (Option (PgxSeries F)) × PgxSeriesSet F E
  unfolding next_series series_at
  read_series zero p = ([], p)
  read_series (suc n) p =
      let (more, p1) = next_series p in
      let (s, p2) = series_at p1 in
      let (ss, p3) = read_series n p2 in if more then (s ∷ ss, p3) else ([], p1)

-- What `buildSeriesSet` makes of the result sets of a query.
unfoldable pub build_series_set : {F E : Type 0} → List (Rows F E) → PgxSeriesSet F E
build_series_set rows = record { row_idx = 0; rows = rows; err = none }
