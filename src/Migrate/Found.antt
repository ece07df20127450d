-- ===== src/Migrate/Found.antt =====
-- pkg/pgmodel/migrate.go: sorting and selecting the versions of the migration files loses none.
use timescale_prometheus.Migrate.{Versions, Database, Files, insert_version, sort_versions, is_due}
use timescale_prometheus.Prelude.{
  ℕ, zero, suc, ◌≡◌, sym, ap, ◌↔◌, ◌⊎◌, inl, inr, true, some, List, [], ◌∷◌, if◌then◌else◌,
  get_elem?, arith, Bool-cases,
}
use mathlib.Core.Path.{subst}

-- Some place of the list holds the value.
unfoldable pub Occurs : {A : Type 0} → A → List A → Type 0
Occurs a xs = (i : ℕ) × (get_elem? xs i ≡ some a)

Occurs-tail : {A : Type 0} (a x : A) (xs : List A) → Occurs a xs → Occurs a (x ∷ xs)
unfolding Occurs
Occurs-tail a x xs (i, e) = (suc i, e)

Occurs-cases : {A : Type 0} (a x : A) (xs : List A) → Occurs a (x ∷ xs) → (x ≡ a) ⊎ Occurs a xs
unfolding Occurs
Occurs-cases a x xs (zero, e) = inl (ground arith)
Occurs-cases a x xs (suc i, e) = inr (i, e)

module _ {S V : Type 0} (versions : Versions V) (db : Database S V) (files : Files) where
  -- The versions after `from` up to `to`, in order.
  unfoldable pub due : V → V → List V → List V
  unfolding is_due
  due from to [] = []
  due from to (v ∷ vs) =
      let rest = due from to vs in if is_due versions db files from to v then v ∷ rest else rest

  insert_version-Occurs :
      (a v : V) (ws : List V) → Occurs a (v ∷ ws) → Occurs a (insert_version versions db files v ws)
  unfolding insert_version
  insert_version-Occurs a v [] h = h
  insert_version-Occurs a v (w ∷ ws) h = elim (Bool-cases (versions.precedes w v)) [
    | inr e ↦
        let q : insert_version versions db files v (w ∷ ws) ≡ v ∷ w ∷ ws = ground arith in
        subst (Occurs a) (sym q) h
    | inl e ↦
        let q : insert_version versions db files v (w ∷ ws)
            ≡ w ∷ insert_version versions db files v ws =
          ground arith in
        subst (Occurs a) (sym q) (elim (Occurs-cases a v (w ∷ ws) h) [
          | inl f ↦
              Occurs-tail a w _ (insert_version-Occurs a v ws (unfold Occurs in (0, ap some f)))
          | inr g ↦ elim (Occurs-cases a w ws g) [
            | inl f ↦ unfold Occurs in (0, ap some f)
            | inr k ↦ Occurs-tail a w _ (insert_version-Occurs a v ws (Occurs-tail a v ws k))
          ]
        ])
  ]

  pub sort_versions-Occurs :
      (a : V) (vs : List V) → Occurs a vs → Occurs a (sort_versions versions db files vs)
  unfolding sort_versions
  sort_versions-Occurs a [] h = h
  sort_versions-Occurs a (v ∷ vs) h =
      insert_version-Occurs a v (sort_versions versions db files vs) (elim (Occurs-cases a v vs h) [
        | inl f ↦ unfold Occurs in (0, ap some f)
        | inr g ↦ Occurs-tail a v _ (sort_versions-Occurs a vs g)
      ])

  insert_version_from :
      (a v : V) (ws : List V) → Occurs a (insert_version versions db files v ws) → Occurs a (v ∷ ws)
  unfolding insert_version
  insert_version_from a v [] h = h
  insert_version_from a v (w ∷ ws) h = elim (Bool-cases (versions.precedes w v)) [
    | inr e ↦
        let q : insert_version versions db files v (w ∷ ws) ≡ v ∷ w ∷ ws = ground arith in
        subst (Occurs a) q h
    | inl e ↦
        let q : insert_version versions db files v (w ∷ ws)
            ≡ w ∷ insert_version versions db files v ws =
          ground arith in
        elim (Occurs-cases a w (insert_version versions db files v ws) (subst (Occurs a) q h)) [
          | inl f ↦ unfold Occurs in (1, ap some f)
          | inr g ↦ elim (Occurs-cases a v ws (insert_version_from a v ws g)) [
            | inl f ↦ unfold Occurs in (0, ap some f)
            | inr k ↦ Occurs-tail a v _ (Occurs-tail a w ws k)
          ]
        ]
  ]

  pub sort_versions_from :
      (a : V) (vs : List V) → Occurs a (sort_versions versions db files vs) → Occurs a vs
  unfolding sort_versions
  sort_versions_from a [] h = h
  sort_versions_from a (v ∷ vs) h =
      elim (Occurs-cases a v _ (insert_version_from a v (sort_versions versions db files vs) h)) [
        | inl f ↦ unfold Occurs in (0, ap some f)
        | inr g ↦ Occurs-tail a v vs (sort_versions_from a vs g)
      ]

  pub due-Occurs :
      (from to a : V) (vs : List V)
      → is_due versions db files from to a ≡ true
      → Occurs a vs ↔ Occurs a (due from to vs)
  unfolding due
  due-Occurs from to a [] d = (λ h. h, λ h. h)
  due-Occurs from to a (v ∷ vs) d =
      let (into, back) = due-Occurs from to a vs d in
      elim (Bool-cases (is_due versions db files from to v)) [
        | inl e ↦
            let q : due from to (v ∷ vs) ≡ v ∷ due from to vs = ground arith in
            (
              λ h. subst (Occurs a) (sym q) (elim (Occurs-cases a v vs h) [
                | inl f ↦ unfold Occurs in (0, ap some f)
                | inr g ↦ Occurs-tail a v _ (into g)
              ]),
              λ h. elim (Occurs-cases a v _ (subst (Occurs a) q h)) [
                | inl f ↦ unfold Occurs in (0, ap some f)
                | inr g ↦ Occurs-tail a v vs (back g)
              ],
            )
        | inr e ↦
            let q : due from to (v ∷ vs) ≡ due from to vs = ground arith in
            (
              λ h.
                  subst (Occurs a) (sym q) (elim (Occurs-cases a v vs h) [
                    | inl f ↦ absurd (ground arith)
                    | inr g ↦ into g
                  ]),
              λ h. Occurs-tail a v vs (back (subst (Occurs a) q h)),
            )
      ]
