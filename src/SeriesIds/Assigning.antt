-- ===== src/SeriesIds/Assigning.antt =====
-- pkg/pgmodel/sql_ingest.go: `setSeriesIds` gives every series of a buffer its id.
use timescale_prometheus.Prelude.Dict
use timescale_prometheus.Prelude.Dict.{lookup-insert}
use timescale_prometheus.Prelude.Bytes.{Bytes, Bytes-discrete}
use timescale_prometheus.Prelude.Int.{ℤ, pos, ltb_ℤ}
use timescale_prometheus.Labels.{Labels}
use timescale_prometheus.Samples.{SamplesInfo}
use timescale_prometheus.SeriesIds.{
  SeriesCache, Reply, got, Sent, sent, fill_known_series_ids, Group, set_id, set_ids,
}
use timescale_prometheus.SeriesIds.Groups.{is_in, is_missing, IsUniform}
use timescale_prometheus.Prelude.{
  ℕ, zero, suc, ◌≡◌, refl, ap, inl, inr, ◌==◌, Option, none, some, List, [], ◌∷◌, if◌then◌else◌,
  get_elem?, set, map, All, arith, Bool-cases, Option-cases, get_elem?-set_self, get_elem?-set_ne,
  lt-length_of_get_elem?,
}

-- Lists with the same elements at every index are the same.
pub list_ext : {A : Type 0} (xs ys : List A) → ((j : ℕ) → get_elem? xs j ≡ get_elem? ys j) → xs ≡ ys
list_ext [] [] h = refl
list_ext [] (y ∷ ys) h = absurd (let e = h 0 in ground arith)
list_ext (x ∷ xs) [] h = absurd (let e = h 0 in ground arith)
list_ext (x ∷ xs) (y ∷ ys) h =
    let e : x ≡ y = let e0 = h 0 in ground arith in
    let r = list_ext xs ys (λ j. h (suc j)) in ground arith

module _ {F : Type 0} where
  -- The series with an id.
  unfoldable pub with_id : ℤ → Option (SamplesInfo F) → Option (SamplesInfo F)
  with_id id none = none
  with_id id (some s) = some (record s { series_id = id })

  get_elem?-set_id :
      (id : ℤ) (i j : ℕ) (infos : List (SamplesInfo F))
      → get_elem? (set_id id i infos) j
        ≡ (if i == j then with_id id (get_elem? infos j) else get_elem? infos j)
  unfolding set_id with_id
  get_elem?-set_id id i j infos = elim (Option-cases (get_elem? infos i)) [
    | inl e ↦ elim (Bool-cases (i == j)) [
      | inl h ↦ let q : i ≡ j = ground arith in let e' = ap (get_elem? infos) q in ground arith
      | inr h ↦ ground arith
    ]
    | inr (s, e) ↦ elim (Bool-cases (i == j)) [
      | inl h ↦
          let q : i ≡ j = ground arith in
          let e' = ap (get_elem? infos) q in
          let t : SamplesInfo F = record s { series_id = id } in
          let a = get_elem?-set_self infos i t (lt-length_of_get_elem? infos i e) in
          let a' = ap (get_elem? (set infos i t)) q in ground arith
      | inr h ↦
          let t : SamplesInfo F = record s { series_id = id } in
          let a = get_elem?-set_ne infos i j t (λ q. ground arith) in ground arith
    ]
  ]

  get_elem?-set_ids :
      (id : ℤ) (is : List ℕ) (j : ℕ) (infos : List (SamplesInfo F))
      → get_elem? (set_ids id is infos) j
        ≡ (if is_in j is then with_id id (get_elem? infos j) else get_elem? infos j)
  unfolding set_ids is_in with_id
  get_elem?-set_ids id [] j infos = refl
  get_elem?-set_ids id (i ∷ is) j infos =
      let a = get_elem?-set_ids id is j (set_id id i infos) in
      let b = get_elem?-set_id id i j infos in
      elim (Option-cases (get_elem? infos j)) [ inl e ↦ ground arith | inr (s, e) ↦ ground arith ]

module _ (id_of : Bytes → ℕ) where
  -- The cache holds ids of the database only.
  unfoldable pub IsCurrent : SeriesCache → Type 0
  IsCurrent cache =
      (k : Bytes) (id : ℤ) → Dict.lookup Bytes-discrete k cache ≡ some id → id ≡ pos (id_of k)

  pub insert-IsCurrent :
      (cache : SeriesCache) (k : Bytes)
      → IsCurrent cache
      → IsCurrent (Dict.insert Bytes-discrete k (pos (id_of k)) cache)
  unfolding IsCurrent
  insert-IsCurrent cache k v j id h =
      let a = lookup-insert Bytes-discrete k j (pos (id_of k)) cache in
      let b = v j id in ground arith

module _ {E : Type 0} (id_of : Bytes → ℕ) where
  -- The database answers a batch without an error, with the id of each label set.
  unfoldable pub IsServed : (List Labels → Sent E) → Type 0
  IsServed send =
      (ls : List Labels)
      → (replies : ℕ → Reply E) × (send ls ≡ sent replies)
        × ((i : ℕ) (l : Labels)
            → get_elem? ls i ≡ some l
            → replies i ≡ got (pos (id_of l.str)) none)

module _ {F : Type 0} (id_of : Bytes → ℕ) where
  -- A series without an id gets that of its labels.
  unfoldable pub assign : SamplesInfo F → SamplesInfo F
  assign s =
      if ltb_ℤ s.series_id (pos 0) then record s { series_id = pos (id_of s.labels.str) } else s

  -- What the replies do to the series at an index.
  unfoldable pub settle : Option (SamplesInfo F) → Option (SamplesInfo F)
  settle none = none
  settle (some s) = some (record s { series_id = pos (id_of s.labels.str) })

  pub fill_current :
      (cache : SeriesCache) (infos : List (SamplesInfo F))
      → IsCurrent id_of cache
      → (map assign (fill_known_series_ids cache infos).0 ≡ map assign infos)
        × ((fill_known_series_ids cache infos).1 ≡ 0
            → (fill_known_series_ids cache infos).0 ≡ map assign infos)
  unfolding IsCurrent assign fill_known_series_ids
  fill_current cache [] v = (refl, λ h. refl)
  fill_current cache (s ∷ ss) v =
      let (a, b) = fill_current cache ss v in
      elim (Option-cases (Dict.lookup Bytes-discrete s.labels.str cache)) [
        | inl e ↦ (ground arith, λ h. ground arith)
        | inr (id, e) ↦ let c = v s.labels.str id e in (ground arith, λ h. ground arith)
      ]

  pub at_assign :
      (j : ℕ) (infos : List (SamplesInfo F))
      → get_elem? (map assign infos) j
        ≡ (if is_missing (get_elem? infos j) then settle (get_elem? infos j) else get_elem? infos j)
  unfolding is_missing settle assign
  at_assign j [] = refl
  at_assign zero (s ∷ ss) = ground arith
  at_assign (suc j) (s ∷ ss) = at_assign j ss

  -- The series of a slice are settled by its id.
  pub set_ids-settle :
      (g : Group) (infos : List (SamplesInfo F))
      → IsUniform infos g
      → (j : ℕ)
      → get_elem? (set_ids (pos (id_of g.0.str)) g.1 infos) j
        ≡ (if is_in j g.1 then settle (get_elem? infos j) else get_elem? infos j)
  unfolding with_id settle IsUniform
  set_ids-settle g infos u j =
      let a = get_elem?-set_ids (pos (id_of g.0.str)) g.1 j infos in
      elim (Option-cases (get_elem? infos j)) [
        | inl e ↦ ground arith
        | inr (s, e) ↦ elim (Bool-cases (is_in j g.1)) [
          | inl h ↦ let same = ap id_of (u j h s e) in ground arith
          | inr h ↦ ground arith
        ]
      ]

  -- An id changes no labels.
  set_ids-IsUniform :
      (g h : Group) (infos : List (SamplesInfo F))
      → IsUniform infos g
      → IsUniform infos h
      → IsUniform (set_ids (pos (id_of g.0.str)) g.1 infos) h
  unfolding IsUniform settle
  set_ids-IsUniform g h infos ug uh j listed s at =
      let a = set_ids-settle g infos ug j in
      elim (Option-cases (get_elem? infos j)) [
        | inl e ↦ absurd (ground arith)
        | inr (t, e) ↦
            let b = uh j listed t e in
            elim (Bool-cases (is_in j g.1)) [ inl k ↦ ground arith | inr k ↦ ground arith ]
      ]

  pub set_ids-All :
      (g : Group) (gs : List Group) (infos : List (SamplesInfo F))
      → IsUniform infos g
      → All (IsUniform infos) gs
      → All (IsUniform (set_ids (pos (id_of g.0.str)) g.1 infos)) gs
  set_ids-All g [] infos u us = tt
  set_ids-All g (h ∷ gs) infos u us =
      (set_ids-IsUniform g h infos u us.0, set_ids-All g gs infos u us.1)
