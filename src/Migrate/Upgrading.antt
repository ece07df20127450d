-- ===== src/Migrate/Upgrading.antt =====
-- pkg/pgmodel/migrate.go: which migration files an upgrade runs, and in which order.
use timescale_prometheus.Prelude.Bytes.{Bytes}
use timescale_prometheus.Migrate.{
  Versions, Database, Files, Entry, exec_migration_file, exec_files, read_version_dirs,
  insert_version, sort_versions, version_file, is_due, apply_versions, upgrade_version,
  version_scripts,
}
use timescale_prometheus.Prelude.{
  ◌≡◌, refl, sym, ◌↔◌, inl, inr, true, false, some, List, [], ◌∷◌, map, arith, All, Bool-cases,
  Option-cases,
}
use timescale_prometheus.Migrate.Found.{
  Occurs, due, due-Occurs, sort_versions-Occurs, sort_versions_from,
}
use mathlib.Core.Path.{subst}

-- The precedence of versions is an order, up to versions that are the same.
pub record Ordered {V : Type 0} (versions : Versions V) : Type 0 where
  pub one_way : (v w : V) → versions.precedes v w ≡ true → versions.precedes w v ≡ false
  pub through :
      (u v w : V)
      → versions.precedes v u ≡ false
      → versions.precedes w v ≡ false
      → versions.precedes w u ≡ false

module _ {S V : Type 0} (versions : Versions V) (db : Database S V) (files : Files) where
  -- No version precedes an earlier one.
  unfoldable pub IsAscending : List V → Type 0
  IsAscending [] = true ≡ true
  IsAscending (v ∷ vs) = All (λ w. versions.precedes w v ≡ false) vs × IsAscending vs

  apply_versions-due :
      (from to : V) (version_map : List (Bytes × Bytes)) (vs : List V) (s : S)
      → apply_versions versions db files from to version_map vs s
        ≡ exec_files versions db files
            (map (version_file versions db files version_map) (due versions db files from to vs))
            s
  unfolding apply_versions exec_files due
  apply_versions-due from to version_map [] s = refl
  apply_versions-due from to version_map (v ∷ vs) s =
      elim (Bool-cases (is_due versions db files from to v)) [
        | inr e ↦ ground (arith, apply_versions-due from to version_map vs s)
        | inl e ↦
            elim (Option-cases (
              exec_migration_file versions db files (version_file versions db files version_map v)
                s)) [
                  | inl k ↦ ground arith
                  | inr (s', k) ↦ ground (arith, apply_versions-due from to version_map vs s')
                ]
      ]

  due-All :
      (P : V → Type 0) (from to : V) (vs : List V)
      → All P vs
      → All P (due versions db files from to vs)
  unfolding due
  due-All P from to [] h = tt
  due-All P from to (v ∷ vs) h = elim (Bool-cases (is_due versions db files from to v)) [
    | inl e ↦
        let q : due versions db files from to (v ∷ vs) ≡ v ∷ due versions db files from to vs =
          ground arith in
        subst (All P) (sym q) (h.0, due-All P from to vs h.1)
    | inr e ↦
        let q : due versions db files from to (v ∷ vs) ≡ due versions db files from to vs =
          ground arith in
        subst (All P) (sym q) (due-All P from to vs h.1)
  ]

  -- A version after `from`, up to `to`.
  unfoldable pub IsInRange : V → V → V → Type 0
  IsInRange from to v = (versions.precedes from v ≡ true) × (versions.precedes to v ≡ false)

  is_due_iff : (from to v : V) → (is_due versions db files from to v ≡ true) ↔ IsInRange from to v
  unfolding is_due IsInRange
  is_due_iff from to v = ground arith

  due-IsInRange :
      (from to : V) (vs : List V) → All (IsInRange from to) (due versions db files from to vs)
  unfolding due
  due-IsInRange from to [] = tt
  due-IsInRange from to (v ∷ vs) = elim (Bool-cases (is_due versions db files from to v)) [
    | inl e ↦
        let q : due versions db files from to (v ∷ vs) ≡ v ∷ due versions db files from to vs =
          ground arith in
        subst (All (IsInRange from to)) (sym q)
          ((is_due_iff from to v).0 e, due-IsInRange from to vs)
    | inr e ↦
        let q : due versions db files from to (v ∷ vs) ≡ due versions db files from to vs =
          ground arith in
        subst (All (IsInRange from to)) (sym q) (due-IsInRange from to vs)
  ]

  due-IsAscending :
      (from to : V) (vs : List V) → IsAscending vs → IsAscending (due versions db files from to vs)
  unfolding due IsAscending
  due-IsAscending from to [] h = h
  due-IsAscending from to (v ∷ vs) h = elim (Bool-cases (is_due versions db files from to v)) [
    | inl e ↦
        let q : due versions db files from to (v ∷ vs) ≡ v ∷ due versions db files from to vs =
          ground arith in
        let later : V → Type 0 = λ w. versions.precedes w v ≡ false in
        subst IsAscending (sym q) (due-All later from to vs h.0, due-IsAscending from to vs h.1)
    | inr e ↦
        let q : due versions db files from to (v ∷ vs) ≡ due versions db files from to vs =
          ground arith in
        subst IsAscending (sym q) (due-IsAscending from to vs h.1)
  ]

  insert_version-All :
      (P : V → Type 0) (v : V) (ws : List V)
      → P v
      → All P ws
      → All P (insert_version versions db files v ws)
  unfolding insert_version
  insert_version-All P v [] h hs = (h, tt)
  insert_version-All P v (w ∷ ws) h hs = elim (Bool-cases (versions.precedes w v)) [
    | inr e ↦
        let q : insert_version versions db files v (w ∷ ws) ≡ v ∷ w ∷ ws = ground arith in
        subst (All P) (sym q) (h, hs)
    | inl e ↦
        let q : insert_version versions db files v (w ∷ ws)
            ≡ w ∷ insert_version versions db files v ws =
          ground arith in
        subst (All P) (sym q) (hs.0, insert_version-All P v ws h hs.1)
  ]

  All-through :
      Ordered versions
      → (v w : V) (ws : List V) → versions.precedes w v ≡ false
      → All (λ u. versions.precedes u w ≡ false) ws
      → All (λ u. versions.precedes u v ≡ false) ws
  All-through laws v w [] h hs = tt
  All-through laws v w (u ∷ ws) h hs = (laws.through v w u h hs.0, All-through laws v w ws h hs.1)

  insert_version-IsAscending :
      Ordered versions
      → (v : V) (ws : List V) → IsAscending ws
      → IsAscending (insert_version versions db files v ws)
  unfolding insert_version IsAscending
  insert_version-IsAscending laws v [] h = (tt, refl)
  insert_version-IsAscending laws v (w ∷ ws) h = elim (Bool-cases (versions.precedes w v)) [
    | inr e ↦
        let q : insert_version versions db files v (w ∷ ws) ≡ v ∷ w ∷ ws = ground arith in
        subst IsAscending (sym q) ((e, All-through laws v w ws e h.0), h)
    | inl e ↦
        let q : insert_version versions db files v (w ∷ ws)
            ≡ w ∷ insert_version versions db files v ws =
          ground arith in
        let later : V → Type 0 = λ u. versions.precedes u w ≡ false in
        subst IsAscending (sym q) (
          insert_version-All later v ws (laws.one_way w v e) h.0,
          insert_version-IsAscending laws v ws h.1,
        )
  ]

  sort_versions-IsAscending :
      Ordered versions → (vs : List V) → IsAscending (sort_versions versions db files vs)
  unfolding sort_versions IsAscending
  sort_versions-IsAscending laws [] = refl
  sort_versions-IsAscending laws (v ∷ vs) =
      insert_version-IsAscending laws v (sort_versions versions db files vs)
        (sort_versions-IsAscending laws vs)

  -- If the directories of migration files can be read and the precedence of versions is an order,
  -- an upgrade runs the files of some versions one after another until one fails: no version
  -- precedes an earlier one, and a version after that of the database and up to that of the
  -- application is run exactly if it was found.
  pub upgrade_version_lem :
      (from to : V) (s : S) (dirs : List Entry) (version_map : List (Bytes × Bytes)) (vs : List V)
      → Ordered versions
      → files.read_dir version_scripts ≡ some dirs
      → read_version_dirs versions db files version_scripts dirs ([], []) ≡ some (version_map, vs)
      → (run : List V) × (upgrade_version versions db files from to s
          ≡ exec_files versions db files (map (version_file versions db files version_map) run) s)
        × IsAscending run
        × All (IsInRange from to) run
        × ((v : V) → IsInRange from to v → Occurs v vs ↔ Occurs v run)
  unfolding upgrade_version
  upgrade_version_lem from to s dirs version_map vs laws reads found =
      let sorted = sort_versions versions db files vs in
      let e = apply_versions-due from to version_map sorted s in
      (
        due versions db files from to sorted,
        ground arith,
        due-IsAscending from to sorted (sort_versions-IsAscending laws vs),
        due-IsInRange from to sorted,
        λ v d.
            let (into, back) =
              due-Occurs versions db files from to v sorted ((is_due_iff from to v).1 d) in
            (
              λ h. into (sort_versions-Occurs versions db files v vs h),
              λ h. sort_versions_from versions db files v vs (back h),
            ),
      )
