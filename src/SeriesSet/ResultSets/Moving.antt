-- ===== src/SeriesSet/ResultSets/Moving.antt =====
-- pkg/pgmodel/series_set.go: `Next` moves to the next row that there is.
use timescale_prometheus.SeriesSet.ResultSets.{
  Row, Rows, SetError, rows_failed, PgxSeriesSet, next_row, keep_error, next_from,
}
use mathlib.Core.Path.{subst}
use timescale_prometheus.Prelude.{
  ℕ, zero, suc, ◌+◌, ◌<◌, ◌≡◌, refl, sym, ap, ◌∙◌, Bool, true, inl, inr, Option, none, some, List,
  [], ◌∷◌, length, set, drop, drop_cons, arith, List-cases, is_some,
}

module _ {ℓ} {A : Type ℓ} where
  drop-set :
      (xs : List A) (i : ℕ) (x r : A) (rs : List A)
      → drop i xs ≡ r ∷ rs
      → (drop i (set xs i x) ≡ x ∷ rs) × (drop (suc i) (set xs i x) ≡ rs)
  drop-set [] zero x r rs e = absurd (ground arith)
  drop-set [] (suc i) x r rs e = absurd (ground arith)
  drop-set (y ∷ xs) zero x r rs e = (ground arith, ground arith)
  drop-set (y ∷ xs) (suc i) x r rs e = drop-set xs i x r rs e

  pub length-drop_cons :
      (xs : List A) (i : ℕ) (r : A) (rs : List A)
      → drop i xs ≡ r ∷ rs
      → length xs ≡ i + suc (length rs)
  length-drop_cons [] zero r rs e = absurd (ground arith)
  length-drop_cons [] (suc i) r rs e = absurd (ground arith)
  length-drop_cons (y ∷ xs) zero r rs e = let same = ap length e in omega arith
  length-drop_cons (y ∷ xs) (suc i) r rs e = omega (arith, length-drop_cons xs i r rs e)

-- The first of two errors.
unfoldable pub first_of : {A : Type 0} → Option A → Option A → Option A
first_of (some a) b = some a
first_of none b = b

unfoldable pub failed_rows : {E : Type 0} → Option E → Option (SetError E)
failed_rows none = none
failed_rows (some e) = some (rows_failed e)

keep_error-first_of :
    {E : Type 0} (err : Option (SetError E)) (failure : Option E)
    → keep_error err failure ≡ first_of err (failed_rows failure)
unfolding keep_error first_of failed_rows
keep_error-first_of (some e) failure = refl
keep_error-first_of none none = refl
keep_error-first_of none (some e) = refl

module _ {F E : Type 0} where
  -- The next row, the result sets from its own on, and the error there; none when no row is left.
  unfoldable pub find_row :
      Option (SetError E)
      → List (Rows F E)
      → Option (Row F E × List (Rows F E)) × Option (SetError E)
  unfolding first_of failed_rows
  find_row err [] = (none, err)
  find_row err (r ∷ rs) =
      let later = find_row (first_of err (failed_rows r.failure)) rs in
      elim r.left [
        | [] ↦ later
        | x ∷ xs ↦ (some (x, record r { current = some x; left = xs } ∷ rs), err)
      ]

  -- What `Next` comes to.
  pub record IsNext (found : Option (Row F E × List (Rows F E)) × Option (SetError E))
      (next : Bool × PgxSeriesSet F E) : Type 0 where
    pub more : next.0 ≡ is_some found.0
    pub err : next.1.err ≡ found.1
    pub at :
        (x : Row F E) (left : List (Rows F E))
        → found.0 ≡ some (x, left)
        → drop next.1.row_idx next.1.rows ≡ left

  pub next_from-IsNext :
      (n : ℕ) (p : PgxSeriesSet F E) (r : Rows F E) (rs : List (Rows F E))
      → length rs < n
      → drop p.row_idx p.rows ≡ r ∷ rs
      → IsNext (find_row p.err (r ∷ rs)) (next_from n p)
  unfolding next_from find_row next_row
  next_from-IsNext zero p r rs h e = absurd (omega arith)
  next_from-IsNext (suc n) p r rs h e =
      let (found, _, inside) = drop_cons p.rows p.row_idx r rs e in
      let size = length-drop_cons p.rows p.row_idx r rs e in
      elim (List-cases r.left) [
        | inr (x, xs, f) ↦
            let r' = record r { current = some x; left = xs } in
            let (here, _) = drop-set p.rows p.row_idx r' r rs e in
            record { more = ground arith; err = ground arith; at = λ y left g. ground arith }
        | inl f ↦
            let r' : Rows F E = record r { current = none; closed = true } in
            let p' : PgxSeriesSet F E = record p {
              row_idx = suc p.row_idx;
              rows = set p.rows p.row_idx r';
              err = keep_error p.err r.failure;
            } in
            let (_, after) = drop-set p.rows p.row_idx r' r rs e in
            let kept = keep_error-first_of p.err r.failure in
            elim (List-cases rs) [
              | inl g ↦
                  let last : length rs ≡ 0 = ap length g in
                  record { more = ground arith; err = ground arith; at = λ y left k. ground arith }
              | inr (r2, rs2, g) ↦
                  let more_left : length rs ≡ suc (length rs2) = ap length g in
                  let next = next_from-IsNext n p' r2 rs2 (omega arith) (after ∙ g) in
                  let same_next : next_from (suc n) p ≡ next_from n p' = ground arith in
                  let same_row : find_row p.err (r ∷ rs) ≡ find_row p'.err (r2 ∷ rs2) =
                    (ground arith) ∙ ap (find_row p'.err) g in
                  subst (λ x. IsNext x (next_from (suc n) p)) (sym same_row)
                    (subst (IsNext (find_row p'.err (r2 ∷ rs2))) (sym same_next) next)
            ]
      ]
