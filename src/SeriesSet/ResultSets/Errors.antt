-- ===== src/SeriesSet/ResultSets/Errors.antt =====
-- pkg/pgmodel/series_set.go: what a caller that reads all series gets, and which error it finds at the end.
use timescale_prometheus.Prelude.Int.{ℤ}
use timescale_prometheus.Labels.{Label}
use timescale_prometheus.SeriesSet.ResultSets.{
  Row, Rows, SetError, invalid_data, PgxSeries, PgxSeriesSet, next_from, next_series, series_of,
  series_at, read_series, build_series_set,
}
use timescale_prometheus.SeriesSet.ResultSets.Moving.{
  length-drop_cons, first_of, failed_rows, find_row, next_from-IsNext,
}
use timescale_prometheus.Prelude.{
  get_elem?, ℕ, zero, suc, ◌+◌, ◌<◌, ◌≡◌, refl, sym, ap, ◌∙◌, true, ◌⊎◌, inl, inr, Option, none,
  some, List, [], ◌∷◌, ◌++◌, if◌then◌else◌, length, drop, drop_cons, arith, Option-cases,
  List-cases, is_some, map, drop_nil, ap₂,
}

unfoldable pub count_rows : {F E : Type 0} → List (Rows F E) → ℕ
count_rows [] = 0
count_rows (r ∷ rs) = length r.left + count_rows rs

module _ {F E : Type 0} (get_labels_for_ids : List ℤ → E ⊎ List Label) where
  -- The series of all rows in order, nil for a row that is not valid.
  unfoldable pub all_series : List (Rows F E) → List (Option (PgxSeries F))
  all_series [] = []
  all_series (r ∷ rs) = map (series_of get_labels_for_ids) r.left ++ all_series rs

  -- A row sets the error anew.
  unfoldable pub row_error : Row F E → Option (SetError E)
  row_error x = if is_some (series_of get_labels_for_ids x) then none else some invalid_data

  unfoldable pub rows_error : Option (SetError E) → List (Row F E) → Option (SetError E)
  unfolding row_error
  rows_error err [] = err
  rows_error err (x ∷ xs) = rows_error (row_error x) xs

  -- The error that is left after all result sets.
  unfoldable pub last_error : Option (SetError E) → List (Rows F E) → Option (SetError E)
  unfolding rows_error first_of failed_rows
  last_error err [] = err
  last_error err (r ∷ rs) = last_error (first_of (rows_error err r.left) (failed_rows r.failure)) rs

  find_row-none :
      (err : Option (SetError E)) (left : List (Rows F E))
      → (find_row err left).0 ≡ none
      → (all_series left ≡ []) × (last_error err left ≡ (find_row err left).1)
  unfolding find_row all_series last_error rows_error
  find_row-none err [] h = (refl, refl)
  find_row-none err (r ∷ rs) h = elim (List-cases r.left) [
    | inl f ↦
        let (series, last) =
          find_row-none (first_of err (failed_rows r.failure)) rs (ground arith) in
        (ground arith, ground arith)
    | inr (x, xs, f) ↦ absurd (ground arith)
  ]

  -- A row that is found, and what is left behind it.
  record IsFound (err : Option (SetError E)) (left : List (Rows F E)) (x : Row F E)
      (left' : List (Rows F E)) : Type 0 where
    head : Rows F E
    rest : List (Rows F E)
    split : left' ≡ head ∷ rest
    current : head.current ≡ some x
    series : all_series left ≡ series_of get_labels_for_ids x ∷ all_series left'
    last : last_error err left ≡ last_error (row_error x) left'
    size : count_rows left ≡ suc (count_rows left')

  find_row-some :
      (err : Option (SetError E)) (left : List (Rows F E)) (x : Row F E) (left' : List (Rows F E))
      → (find_row err left).0 ≡ some (x, left')
      → IsFound err left x left'
  unfolding find_row all_series last_error rows_error count_rows
  find_row-some err [] x left' h = absurd (ground arith)
  find_row-some err (r ∷ rs) x left' h = elim (List-cases r.left) [
    | inl f ↦
        let later =
          find_row-some (first_of err (failed_rows r.failure)) rs x left' (ground arith) in
        record {
          head = later.head;
          rest = later.rest;
          split = later.split;
          current = later.current;
          series = let s = later.series in ground arith;
          last = let l = later.last in ground arith;
          size = let s = later.size in ground arith;
        }
    | inr (y, ys, f) ↦
        let r' = record r { current = some y; left = ys } in
        let same : y ≡ x = ground arith in
        let split : r' ∷ rs ≡ left' = ground arith in
        record {
          head = r';
          rest = rs;
          split = sym split;
          current = ap some same;
          series = ground arith;
          last = ground arith;
          size = ground arith;
        }
  ]

  -- What `At` does on the current row, whether its data is valid or not.
  series_at-row :
      (p : PgxSeriesSet F E) (r : Rows F E) (x : Row F E)
      → get_elem? p.rows p.row_idx ≡ some r
      → r.current ≡ some x
      → ((series_at get_labels_for_ids p).0 ≡ series_of get_labels_for_ids x)
        × ((series_at get_labels_for_ids p).1.err ≡ row_error x)
        × ((series_at get_labels_for_ids p).1.rows ≡ p.rows)
        × ((series_at get_labels_for_ids p).1.row_idx ≡ p.row_idx)
  unfolding series_at row_error
  series_at-row p r x e f = elim (Option-cases (series_of get_labels_for_ids x)) [
    | inl k ↦ (ground arith, ground arith, ground arith, ground arith)
    | inr (s, k) ↦ (ground arith, ground arith, ground arith, ground arith)
  ]

  read_series_from :
      (n : ℕ) (p : PgxSeriesSet F E) (left : List (Rows F E))
      → drop p.row_idx p.rows ≡ left
      → count_rows left < n
      → ((read_series get_labels_for_ids n p).0 ≡ all_series left)
        × ((read_series get_labels_for_ids n p).1.err ≡ last_error p.err left)
  unfolding read_series next_series
  read_series_from zero p left e h = absurd (omega arith)
  read_series_from (suc n) p left e h = elim (List-cases left) [
    | inl f ↦
        let over = drop_nil p.rows p.row_idx (e ∙ f) in
        let series : all_series left ≡ [] = ap all_series f ∙ (unfold all_series in refl) in
        let last : last_error p.err left ≡ p.err =
          ap (last_error p.err) f ∙ (unfold last_error in refl) in
        (ground arith, ground arith)
    | inr (r, rs, f) ↦
        let size = length-drop_cons p.rows p.row_idx r rs (e ∙ f) in
        let next = next_from-IsNext (length p.rows) p r rs (omega arith) (e ∙ f) in
        let p1 = (next_from (length p.rows) p).1 in
        let goes : next_series p ≡ next_from (length p.rows) p = ground arith in
        let same = ap (find_row p.err) f in
        elim (Option-cases (find_row p.err left).0) [
          | inl g ↦
              let (series, last) = find_row-none p.err left g in
              let no_more = next.more in let err = next.err in (ground arith, ground arith)
          | inr ((x, left'), g) ↦
              let found = find_row-some p.err left x left' g in
              let at = next.at x left' (ap (λ y. y.0) (sym same) ∙ g) in
              let (here, _, _) =
                drop_cons p1.rows p1.row_idx found.head found.rest (at ∙ found.split) in
              let p2 = (series_at get_labels_for_ids p1).1 in
              let (as_read, err, same_rows, same_idx) =
                series_at-row p1 found.head x here found.current in
              let rows : drop p2.row_idx p2.rows ≡ left' = ground arith in
              let (rest, last) =
                read_series_from n p2 left' rows (let s = found.size in omega arith) in
              let more = next.more in
              let series' = found.series in
              let last' = found.last in
              let err' = ap (λ y. last_error y left') err in (ground arith, ground arith)
        ]
  ]

  -- A caller that reads all series of a set, in more rounds than there are rows, gets the series of
  -- all rows of all result sets in order, nil for each row that is not valid, and the error then is
  -- that of invalid data if the last row is not valid, else the first one of the result sets from
  -- its own on, or of all when there is no row.
  pub read_series_lem :
      (n : ℕ) (rows : List (Rows F E))
      → count_rows rows < n
      → ((read_series get_labels_for_ids n (build_series_set rows)).0 ≡ all_series rows)
        × ((read_series get_labels_for_ids n (build_series_set rows)).1.err ≡ last_error none rows)
  unfolding build_series_set
  read_series_lem n rows h = read_series_from n (build_series_set rows) rows refl h

  rows_error-append :
      (err : Option (SetError E)) (xs : List (Row F E)) (x : Row F E)
      → rows_error err (xs ++ x ∷ []) ≡ row_error x
  unfolding rows_error
  rows_error-append err [] x = refl
  rows_error-append err (y ∷ ys) x = rows_error-append (row_error y) ys x

  last_error-append :
      (err : Option (SetError E)) (before : List (Rows F E)) (r : Rows F E) (xs : List (Row F E))
      (x : Row F E)
      → r.left ≡ xs ++ x ∷ []
      → is_some (series_of get_labels_for_ids x) ≡ true
      → r.failure ≡ none
      → last_error err (before ++ r ∷ []) ≡ none
  unfolding last_error
  last_error-append err [] r xs x e valid fine =
      let a = ap (rows_error err) e ∙ rows_error-append err xs x in
      let b : row_error x ≡ none = unfold row_error in ground arith in
      let c : first_of (rows_error err r.left) (failed_rows r.failure) ≡ none =
        ap₂ (λ x y. first_of x (failed_rows y)) (a ∙ b) fine
        ∙ (unfold first_of failed_rows in refl) in
      c
  last_error-append err (b ∷ bs) r xs x e valid fine =
      last_error-append (first_of (rows_error err b.left) (failed_rows b.failure)) bs r xs x e valid
        fine

  -- If the last result set ends with a valid row and without an error, a caller that reads all
  -- series, in more rounds than there are rows, finds no error, however the result sets before it
  -- failed.
  pub read_series_loses :
      (n : ℕ) (before : List (Rows F E)) (r : Rows F E) (xs : List (Row F E)) (x : Row F E)
      → count_rows (before ++ r ∷ []) < n
      → r.left ≡ xs ++ x ∷ []
      → is_some (series_of get_labels_for_ids x) ≡ true
      → r.failure ≡ none
      → (read_series get_labels_for_ids n (build_series_set (before ++ r ∷ []))).1.err ≡ none
  read_series_loses n before r xs x h e valid fine =
      (read_series_lem n (before ++ r ∷ []) h).1 ∙ last_error-append none before r xs x e valid fine
