-- ===== src/SeriesIds/Groups.antt =====
-- pkg/pgmodel/sql_ingest.go: sorting and grouping the series of a buffer loses none and mixes none.
use mathlib.Core.Path.{subst}
use timescale_prometheus.Prelude.Int.{pos, ltb_ℤ}
use timescale_prometheus.Labels.{Labels, equal, compare_lt}
use timescale_prometheus.Samples.{SamplesInfo}
use timescale_prometheus.SeriesIds.{
  Group, series_to_insert, insert_series, sort_series, group_from, batch_series,
}
use timescale_prometheus.Prelude.{
  ℕ, zero, suc, ◌+◌, ◌<◌, ◌≡◌, refl, sym, ap, ◌∙◌, inl, inr, Bool, true, false, ◌||◌, ◌==◌, Option,
  none, some, List, [], ◌∷◌, ◌++◌, get_elem?, All, arith, Bool-cases,
}

unfoldable pub is_in : ℕ → List ℕ → Bool
is_in j [] = false
is_in j (i ∷ is) = i == j || is_in j is

unfoldable pub is_listed : ℕ → List (ℕ × Labels) → Bool
is_listed j [] = false
is_listed j (x ∷ xs) = x.0 == j || is_listed j xs

unfoldable pub is_grouped : ℕ → List Group → Bool
unfolding is_in
is_grouped j [] = false
is_grouped j (g ∷ gs) = is_in j g.1 || is_grouped j gs

is_in-append : (j i : ℕ) (is : List ℕ) → is_in j (is ++ i ∷ []) ≡ (i == j || is_in j is)
unfolding is_in
is_in-append j i [] = ground arith
is_in-append j i (k ∷ is) = ground (arith, is_in-append j i is)

is_listed-insert_series :
    (j : ℕ) (x : ℕ × Labels) (xs : List (ℕ × Labels))
    → is_listed j (insert_series x xs) ≡ (x.0 == j || is_listed j xs)
unfolding is_listed insert_series
is_listed-insert_series j x [] = ground arith
is_listed-insert_series j x (y ∷ ys) = ground (arith, is_listed-insert_series j x ys)

is_listed-sort_series :
    (j : ℕ) (xs : List (ℕ × Labels)) → is_listed j (sort_series xs) ≡ is_listed j xs
unfolding is_listed sort_series
is_listed-sort_series j [] = refl
is_listed-sort_series j (x ∷ xs) =
    ground (arith, is_listed-insert_series j x (sort_series xs), is_listed-sort_series j xs)

is_grouped-group_from :
    (j : ℕ) (last : Group) (xs : List (ℕ × Labels))
    → is_grouped j (group_from last xs) ≡ (is_in j last.1 || is_listed j xs)
unfolding is_grouped is_listed group_from is_in
is_grouped-group_from j last [] = ground arith
is_grouped-group_from j last (x ∷ xs) = ground (
  arith,
  is_grouped-group_from j (last.0, last.1 ++ x.0 ∷ []) xs,
  is_grouped-group_from j (x.1, x.0 ∷ []) xs,
  is_in-append j x.0 last.1,
)

is_grouped-batch :
    (j : ℕ) (xs : List (ℕ × Labels)) → is_grouped j (batch_series xs) ≡ is_listed j xs
unfolding batch_series is_grouped is_listed is_in
is_grouped-batch j [] = refl
is_grouped-batch j (x ∷ xs) = ground (arith, is_grouped-group_from j (x.1, x.0 ∷ []) xs)

-- A series stands in some slice exactly if it is to be inserted.
pub is_grouped-batch_series :
    (j : ℕ) (xs : List (ℕ × Labels)) → is_grouped j (batch_series (sort_series xs)) ≡ is_listed j xs
is_grouped-batch_series j xs = is_grouped-batch j (sort_series xs) ∙ is_listed-sort_series j xs

equal_str : (l b : Labels) → equal l b ≡ true → l.str ≡ b.str
unfolding equal
equal_str l b h = ground arith

module _ {F : Type 0} (infos : List (SamplesInfo F)) where
  -- The labels are those of the series at the index.
  abbrev IsThere : ℕ × Labels → Type 0
  IsThere x = (s : SamplesInfo F) → get_elem? infos x.0 ≡ some s → s.labels ≡ x.1

  -- The series of a slice have the string of its first one.
  unfoldable pub IsUniform : Group → Type 0
  unfolding is_in
  IsUniform g =
      (j : ℕ)
      → is_in j g.1 ≡ true
      → (s : SamplesInfo F) → get_elem? infos j ≡ some s
      → s.labels.str ≡ g.0.str

  insert_series-All :
      (x : ℕ × Labels) (xs : List (ℕ × Labels))
      → IsThere x
      → All IsThere xs
      → All IsThere (insert_series x xs)
  unfolding insert_series
  insert_series-All x [] h hs = (h, tt)
  insert_series-All x (y ∷ ys) h hs = elim (Bool-cases (compare_lt y.1 x.1)) [
    | inl e ↦
        let q : insert_series x (y ∷ ys) ≡ y ∷ insert_series x ys = ground arith in
        subst (All IsThere) (sym q) (hs.0, insert_series-All x ys h hs.1)
    | inr e ↦
        let q : insert_series x (y ∷ ys) ≡ x ∷ y ∷ ys = ground arith in
        subst (All IsThere) (sym q) (h, hs)
  ]

  joined-IsUniform :
      (last : Group) (x : ℕ × Labels)
      → IsUniform last
      → IsThere x
      → last.0.str ≡ x.1.str
      → IsUniform (last.0, last.1 ++ x.0 ∷ [])
  unfolding IsUniform
  joined-IsUniform last x h there same j listed s at = elim (Bool-cases (x.0 == j)) [
    | inr e ↦ h j (ground (arith, is_in-append j x.0 last.1)) s at
    | inl e ↦
        let i : x.0 ≡ j = ground arith in
        ap (λ (l : Labels). l.str) (there s (ap (get_elem? infos) i ∙ at)) ∙ sym same
  ]

  single-IsUniform : (x : ℕ × Labels) → IsThere x → IsUniform (x.1, x.0 ∷ [])
  unfolding IsUniform is_in
  single-IsUniform x there j listed s at =
      let i : x.0 ≡ j = ground arith in
      ap (λ (l : Labels). l.str) (there s (ap (get_elem? infos) i ∙ at))

  group_from-All :
      (last : Group) (xs : List (ℕ × Labels))
      → IsUniform last
      → All IsThere xs
      → All IsUniform (group_from last xs)
  unfolding group_from
  group_from-All last [] h hs = (h, tt)
  group_from-All last (x ∷ xs) h hs = elim (Bool-cases (equal last.0 x.1)) [
    | inl e ↦
        let g : Group = (last.0, last.1 ++ x.0 ∷ []) in
        let q : group_from last (x ∷ xs) ≡ group_from g xs = ground arith in
        let u = joined-IsUniform last x h hs.0 (equal_str last.0 x.1 e) in
        subst (All IsUniform) (sym q) (group_from-All g xs u hs.1)
    | inr e ↦
        let g : Group = (x.1, x.0 ∷ []) in
        let q : group_from last (x ∷ xs) ≡ last ∷ group_from g xs = ground arith in
        subst (All IsUniform) (sym q) (h, group_from-All g xs (single-IsUniform x hs.0) hs.1)
  ]

  sort_series-All : (xs : List (ℕ × Labels)) → All IsThere xs → All IsThere (sort_series xs)
  unfolding sort_series
  sort_series-All [] hs = tt
  sort_series-All (x ∷ xs) hs = insert_series-All x (sort_series xs) hs.0 (sort_series-All xs hs.1)

  pub batch_series-All : (xs : List (ℕ × Labels)) → All IsThere xs → All IsUniform (batch_series xs)
  unfolding batch_series
  batch_series-All [] hs = tt
  batch_series-All (x ∷ xs) hs = group_from-All (x.1, x.0 ∷ []) xs (single-IsUniform x hs.0) hs.1

  -- `series_to_insert` lists, from the given index on, the series without an id with their labels.
  series_to_insert-There :
      (i : ℕ) (ss : List (SamplesInfo F))
      → ((j : ℕ) → get_elem? infos (i + j) ≡ get_elem? ss j)
      → All IsThere (series_to_insert i ss)
  unfolding series_to_insert
  series_to_insert-There i [] same = tt
  series_to_insert-There i (s ∷ ss) same =
      let same' : (j : ℕ) → get_elem? infos (suc i + j) ≡ get_elem? ss j =
        λ j. ap (get_elem? infos) (omega arith) ∙ same (suc j) in
      let rest = series_to_insert-There (suc i) ss same' in
      elim (Bool-cases (ltb_ℤ s.series_id (pos 0))) [
        | inl e ↦
            let q : series_to_insert i (s ∷ ss) ≡ (i, s.labels) ∷ series_to_insert (suc i) ss =
              ground arith in
            let at : get_elem? infos i ≡ some s = ap (get_elem? infos) (omega arith) ∙ same 0 in
            subst (All IsThere) (sym q) (λ t at_t. ground arith, rest)
        | inr e ↦
            let q : series_to_insert i (s ∷ ss) ≡ series_to_insert (suc i) ss = ground arith in
            subst (All IsThere) (sym q) rest
      ]

  pub groups-All : All IsUniform (batch_series (sort_series (series_to_insert 0 infos)))
  groups-All = batch_series-All (sort_series (series_to_insert 0 infos)) (
      sort_series-All (series_to_insert 0 infos)
        (series_to_insert-There 0 infos (λ j. ap (get_elem? infos) (omega arith))))

-- Whether the series at an index, if there is one, has no id.
unfoldable pub is_missing : {F : Type 0} → Option (SamplesInfo F) → Bool
is_missing none = false
is_missing (some s) = ltb_ℤ s.series_id (pos 0)

is_listed_before :
    {F : Type 0} (i j : ℕ) (ss : List (SamplesInfo F))
    → j < i
    → is_listed j (series_to_insert i ss) ≡ false
unfolding is_listed series_to_insert
is_listed_before i j [] h = refl
is_listed_before i j (s ∷ ss) h =
    let rest = is_listed_before (suc i) j ss (omega arith) in ground arith

pub is_listed-series_to_insert :
    {F : Type 0} (i j : ℕ) (ss : List (SamplesInfo F))
    → is_listed (i + j) (series_to_insert i ss) ≡ is_missing (get_elem? ss j)
unfolding is_listed series_to_insert is_missing
is_listed-series_to_insert i j [] = refl
is_listed-series_to_insert i zero (s ∷ ss) =
    let rest = is_listed_before (suc i) (i + 0) ss (omega arith) in ground arith
is_listed-series_to_insert i (suc j) (s ∷ ss) =
    let rest = is_listed-series_to_insert (suc i) j ss in
    let e : i + suc j ≡ suc i + j = omega arith in ground arith
