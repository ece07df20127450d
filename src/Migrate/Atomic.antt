-- ===== src/Migrate/Atomic.antt =====
-- pkg/pgmodel/migrate.go: a migration that fails leaves no trace, one that succeeds sets the version.
use timescale_prometheus.Prelude.Bytes.{Bytes, codes}
use timescale_prometheus.Migrate.{
  Versions, create_table, timescale_install, script, truncate, set_version, Database, Files,
  replace_schema_names, get_db_version, is_dev, scan_versions, exec_migration_file, exec_files,
  exec_migration_dir, upgrade_version, set_db_version, transaction, migration, migrate, join,
  dir_entries,
}
use timescale_prometheus.Prelude.{
  ◌>>=◌, ◌≡◌, sym, ap, ◌∙◌, inl, inr, Bool, true, false, Option, none, some, List, [], ◌∷◌, map,
  if◌then◌else◌, arith, Bool-cases, Option-cases,
}

-- What a migration needs of the database, its files and the versions: a truncated table has no row, a
-- version that is inserted into a table without rows is the one that is read, no script of the directory
-- `idempotent` changes what is read, and a version is the same as itself.
pub record Versioned {S V : Type 0} (versions : Versions V) (db : Database S V) (files : Files)
    : Type 0 where
  pub truncate_clears : (s s' : S) → db.exec truncate s ≡ some s' → db.versions s' ≡ some []
  pub set_version_reads :
      (v : V) (s s' : S)
      → db.versions s ≡ some []
      → db.exec (set_version v) s ≡ some s'
      → db.versions s' ≡ some (some v ∷ [])
  pub script_keeps :
      (name text : Bytes) (s s' : S)
      → files.contents (join (codes "idempotent") name) ≡ some text
      → db.exec (script (replace_schema_names text)) s ≡ some s'
      → db.versions s' ≡ db.versions s
  pub same_self : (v : V) → versions.same v v ≡ true

module _ {S V : Type 0} (versions : Versions V) (db : Database S V) (files : Files)
    (laws : Versioned versions db files) where
  exec_files_keeps :
      (fs : List Bytes) (s s' : S)
      → exec_files versions db files (map (join (codes "idempotent")) fs) s ≡ some s'
      → db.versions s' ≡ db.versions s
  unfolding exec_files exec_migration_file
  exec_files_keeps [] s s' h = ground arith
  exec_files_keeps (f ∷ fs) s s' h =
      elim (Option-cases (files.contents (join (codes "idempotent") f))) [
        | inl e ↦ absurd (ground arith)
        | inr (text, e) ↦ elim (Option-cases (db.exec (script (replace_schema_names text)) s)) [
          | inl k ↦ absurd (ground arith)
          | inr (s1, k) ↦
              exec_files_keeps fs s1 s' (ground arith) ∙ laws.script_keeps f text s s1 e k
        ]
      ]

  exec_migration_dir_keeps :
      (s s' : S)
      → exec_migration_dir versions db files (codes "idempotent") s ≡ some s'
      → db.versions s' ≡ db.versions s
  unfolding exec_migration_dir
  exec_migration_dir_keeps s s' h =
      elim (Option-cases (dir_entries versions db files (codes "idempotent"))) [
        | inl e ↦ absurd (ground arith)
        | inr (entries, e) ↦ exec_files_keeps entries s s' (ground arith)
      ]

  same_version :
      (s s' : S)
      → db.versions s' ≡ db.versions s
      → get_db_version versions db files s' ≡ get_db_version versions db files s
  unfolding get_db_version
  same_version s s' e = ap (λ rows. rows >>= scan_versions false versions.no_version) e

  one_version :
      (v : V) (s : S)
      → db.versions s ≡ some (some v ∷ [])
      → get_db_version versions db files s ≡ some v
  unfolding get_db_version scan_versions
  one_version v s e = ap (λ rows. rows >>= scan_versions false versions.no_version) e

  set_db_version_reads :
      (v : V) (s s' : S)
      → set_db_version versions db files v s ≡ some s'
      → get_db_version versions db files s' ≡ some v
  unfolding set_db_version
  set_db_version_reads v s s' h = elim (Option-cases (db.exec truncate s)) [
    | inl e ↦ absurd (ground arith)
    | inr (s1, e) ↦
        one_version v s'
          (laws.set_version_reads v s1 s' (laws.truncate_clears s s1 e) (ground arith))
  ]

  transaction_lem :
      (body : S → Option S) (s : S)
      → let (ok, s') = transaction versions db files body s in
        (ok ≡ false → s' ≡ s) × (ok ≡ true → body s ≡ some s')
  unfolding transaction
  transaction_lem body s = elim (Option-cases (body s)) [
    | inl e ↦ (λ h. ground arith, λ h. ground arith)
    | inr (s1, e) ↦ (λ h. ground arith, λ h. ground arith)
  ]

  migration_reads :
      (v app : V) (s s' : S)
      → migration versions db files v app s ≡ some s'
      → get_db_version versions db files s' ≡ some app
  unfolding migration
  migration_reads v app s s' h = elim (Option-cases (db.exec timescale_install s)) [
    | inl e ↦ absurd (ground arith)
    | inr (s1, e) ↦
        elim (Option-cases (
          if versions.same v versions.no_version
          then exec_migration_dir versions db files (codes "preinstall") s1
          else upgrade_version versions db files v app s1)) [
            | inl k ↦ absurd (ground arith)
            | inr (s2, k) ↦
                elim (Option-cases (exec_migration_dir versions db files (codes "idempotent") s2)) [
                  | inl l ↦ absurd (ground arith)
                  | inr (s3, l) ↦ set_db_version_reads app s3 s' (ground arith)
                ]
          ]
  ]

  -- The contents once the table of versions is there.
  unfoldable pub with_table : S → S
  with_table s = elim (db.exec create_table s) [ none ↦ s | some s' ↦ s' ]

  -- If Migrate fails, the contents of the database are as they were with the table of versions,
  -- where a transaction that is not reported as committed changes nothing; if it succeeds, the
  -- version of the database is the same as that of the application. This is for a database where a
  -- truncated table of versions has no row, a version inserted into a table without rows is the one
  -- that is read, and no script of the directory idempotent changes what is read, and for versions
  -- that are the same as themselves.
  pub migrate_atomic :
      (app : V) (s : S)
      → let (ok, s') = migrate versions db files app s in
        (ok ≡ false → s' ≡ with_table s)
        × (ok ≡ true
            → (v : V) × (get_db_version versions db files s' ≡ some v)
              × (versions.same v app ≡ true))
  unfolding migrate with_table
  migrate_atomic app s0 = elim (Option-cases (db.exec create_table s0)) [
    | inl e ↦ (λ h. ground arith, λ h. absurd (ground arith))
    | inr (s, e) ↦ elim (Option-cases (get_db_version versions db files s)) [
      | inl k ↦ (λ h. ground arith, λ h. absurd (ground arith))
      | inr (v, k) ↦
          let dir = exec_migration_dir versions db files (codes "idempotent") in
          let (a, b) = transaction_lem dir s in
          let (c, d) = transaction_lem (migration versions db files v app) s in
          let t = (transaction versions db files (migration versions db files v app) s).1 in
          let u = (transaction versions db files dir s).1 in
          elim (Bool-cases (versions.same v app)) [
            | inl l ↦ elim (Bool-cases (is_dev versions db files app)) [
              | inl f ↦
                  let q : migrate versions db files app s0 ≡ transaction versions db files dir s =
                    ground arith in
                  (
                    λ h. ground arith,
                    λ h. (
                      v,
                      ap (λ (r : Bool × S). get_db_version versions db files r.1) q
                          ∙ same_version s u (
                              exec_migration_dir_keeps s u
                                (b (sym (ap (λ (r : Bool × S). r.0) q) ∙ h)))
                          ∙ k,
                      l,
                    ),
                  )
              | inr f ↦ (λ h. ground arith, λ h. (v, ground arith, l))
            ]
            | inr l ↦ elim (Bool-cases (versions.precedes app v)) [
              | inl f ↦ (λ h. ground arith, λ h. absurd (ground arith))
              | inr f ↦
                  let q : migrate versions db files app s0
                      ≡ transaction versions db files (migration versions db files v app) s =
                    ground arith in
                  (
                    λ h. ground arith,
                    λ h. (
                      app,
                      ap (λ (r : Bool × S). get_db_version versions db files r.1) q
                          ∙ migration_reads v app s t (d (sym (ap (λ (r : Bool × S). r.0) q) ∙ h)),
                      laws.same_self app,
                    ),
                  )
            ]
          ]
    ]
  ]
