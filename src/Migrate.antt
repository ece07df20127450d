-- ===== src/Migrate.antt =====
-- pkg/pgmodel/migrate.go: bringing the schema to the version of the application. `S` is the contents of
-- the database, `V` are semantic versions; PostgreSQL, the versions and the embedded files are parameters.
-- Only whether a step fails is kept of its error.
mod Scripts
pub mod Found
pub mod Upgrading
pub mod Atomic
pub mod Startup
unfoldable pub use Scripts.*
use timescale_prometheus.Prelude.Bytes.{Bytes, codes, Bytes-discrete}
use timescale_prometheus.Prelude.Dict
use timescale_prometheus.Prelude.{
  ite, ℕ, zero, suc, ◌+◌, Bool, true, false, not, ◌&&◌, ◌>>=◌, Option, none, some, List, [], ◌∷◌,
  ◌++◌, ltb, leb, if◌then◌else◌, map, is_some, drop, ◌==◌, length,
}

-- The packages semver and regexp: `precedes v w` is `v.Compare(w) < 0`, `same v w` is `v.Compare(w) == 0`,
-- `key` is `String`, `pre` are the parts of the pre-release as strings, `make` is `semver.Make`, `add_pre` appends
-- a number to the pre-release, and `file_number` is the number that `migrationFileNameRegexp` finds in a name.
pub record Versions (V : Type 0) : Type 0 where
  pub precedes : V → V → Bool
  pub same : V → V → Bool
  pub key : V → Bytes
  pub pre : V → List Bytes
  pub no_version : V
  pub make : Bytes → Option V
  pub add_pre : V → ℕ → V
  pub file_number : Bytes → Option ℕ

-- The statements of a migration.
pub data Statement (V : Type 0) : Type 0 where
  create_table : Statement V
  timescale_install : Statement V
  script : Bytes → Statement V
  truncate : Statement V
  set_version : V → Statement V

-- A statement fails or changes the contents; `versions` are the rows of the query for the version, each
-- of which may fail to be scanned, if the query can be sent; a transaction may fail to begin or to commit, and
-- has then changed nothing.
pub record Database (S V : Type 0) : Type 0 where
  pub exec : Statement V → S → Option S
  pub versions : S → Option (List (Option V))
  pub begins : S → Bool
  pub commits : S → Bool

-- `http.FileSystem` and the table of contents; `opens` is whether a directory can be opened.
pub record Files : Type 0 where
  pub contents : Bytes → Option Bytes
  pub opens : Bytes → Bool
  pub read_dir : Bytes → Option (List Entry)
  pub stat_is_dir : Bytes → Option Bool
  pub toc : Bytes → Option (List Bytes)

-- `filepath.Join` of two names.
abbrev pub join : Bytes → Bytes → Bytes
join dir file = dir ++ b'/' ∷ file

abbrev pub version_scripts : Bytes
version_scripts = codes "versions/dev"

-- The loop of `getDBVersion`: whether the last scan failed, and the version scanned last.
unfoldable pub scan_versions : {V : Type 0} → Bool → V → List (Option V) → Option V
scan_versions failed version [] = if failed then none else some version
scan_versions failed version (none ∷ rows) = scan_versions true version rows
scan_versions failed version (some v ∷ rows) = scan_versions false v rows

unfoldable pub is_dev_part : List Bytes → Bool
unfolding Bytes-discrete
is_dev_part [] = false
is_dev_part (p ∷ ps) = let rest = is_dev_part ps in ite (Bytes-discrete p (codes "dev")) true rest

module _ {S V : Type 0} (versions : Versions V) (db : Database S V) (files : Files) where
  unfoldable pub get_db_version : S → Option V
  unfolding scan_versions
  get_db_version s = do rows ← db.versions s; scan_versions false versions.no_version rows

  -- Whether a version is a dev release.
  unfoldable pub is_dev : V → Bool
  unfolding is_dev_part
  is_dev v = is_dev_part (versions.pre v)

  unfoldable pub get_migration_file_version : Bytes → Bytes → Option V
  get_migration_file_version dir_name file_name = do
    n ← versions.file_number file_name
    v ← versions.make dir_name
    some (versions.add_pre v n)

  unfoldable pub exec_migration_file : Bytes → S → Option S
  unfolding replace_schema_names
  exec_migration_file file_name s = do
    contents ← files.contents file_name
    db.exec (script (replace_schema_names contents)) s

  unfoldable pub exec_files : List Bytes → S → Option S
  unfolding exec_migration_file
  exec_files [] s = some s
  exec_files (f ∷ fs) s = do s' ← exec_migration_file f s; exec_files fs s'

  -- The files that a table of contents names, directories left out.
  unfoldable pub toc_entries : Bytes → List Bytes → Option (List Bytes)
  toc_entries dir [] = some []
  toc_entries dir (f ∷ fs) = do
    is_dir ← files.stat_is_dir (join dir f)
    rest ← toc_entries dir fs
    some (if is_dir then rest else f ∷ rest)

  -- The files that `execMigrationDir` runs, in order.
  unfoldable pub dir_entries : Bytes → Option (List Bytes)
  unfolding toc_entries order_files_naturally
  dir_entries dir = if not (files.opens dir) then none else elim (files.toc dir) [
    | some names ↦ toc_entries dir names
    | none ↦ elim (files.read_dir dir) [
      | none ↦ none
      | some entries ↦ some (order_files_naturally entries)
    ]
  ]

  unfoldable pub exec_migration_dir : Bytes → S → Option S
  unfolding dir_entries exec_files
  exec_migration_dir dir s = do entries ← dir_entries dir; exec_files (map (join dir) entries) s

  -- The loop over the files of a version directory: the versions found, and their files by key.
  unfoldable pub read_version_files :
      Bytes
      → Bytes
      → List Entry
      → List (Bytes × Bytes) × List V
      → Option (List (Bytes × Bytes) × List V)
  unfolding get_migration_file_version
  read_version_files dir path [] found = some found
  read_version_files dir path (e ∷ es) (version_map, found) = do
    v ← get_migration_file_version dir e.name
    elim (Dict.lookup Bytes-discrete (versions.key v) version_map) [
      | some _ ↦ none
      | none ↦ read_version_files dir path es (
        Dict.insert Bytes-discrete (versions.key v) (join path e.name) version_map,
        found ++ v ∷ [],
      )
    ]

  unfoldable pub read_version_dirs :
      Bytes → List Entry → List (Bytes × Bytes) × List V → Option (List (Bytes × Bytes) × List V)
  unfolding read_version_files
  read_version_dirs root [] found = some found
  read_version_dirs root (d ∷ ds) found = if not d.is_dir then none else do
    entries ← files.read_dir (join root d.name)
    found' ← read_version_files d.name (join root d.name) entries found
    read_version_dirs root ds found'

  -- `sort.Sort` of the versions.
  unfoldable pub insert_version : V → List V → List V
  insert_version v [] = v ∷ []
  insert_version v (w ∷ ws) =
      let rest = insert_version v ws in if versions.precedes w v then w ∷ rest else v ∷ w ∷ ws

  unfoldable pub sort_versions : List V → List V
  unfolding insert_version
  sort_versions [] = []
  sort_versions (v ∷ vs) = insert_version v (sort_versions vs)

  -- `versionMap[v.String()]`, the empty string for a key that is not there.
  unfoldable pub version_file : List (Bytes × Bytes) → V → Bytes
  version_file version_map v = elim (Dict.lookup Bytes-discrete (versions.key v) version_map) [
    | none ↦ []
    | some f ↦ f
  ]

  -- The test of the last loop of `upgradeVersion`.
  unfoldable pub is_due : V → V → V → Bool
  is_due from to v = versions.precedes from v && not (versions.precedes to v)

  unfoldable pub apply_versions : V → V → List (Bytes × Bytes) → List V → S → Option S
  unfolding is_due version_file exec_migration_file
  apply_versions from to version_map [] s = some s
  apply_versions from to version_map (v ∷ vs) s =
      let skipped = apply_versions from to version_map vs s in
      if is_due from to v
      then (exec_migration_file (version_file version_map v) s >>= λ s'.
          apply_versions from to version_map vs s')
      else skipped

  unfoldable pub upgrade_version : V → V → S → Option S
  unfolding read_version_dirs sort_versions apply_versions
  upgrade_version from to s = do
    dirs ← files.read_dir version_scripts
    found ← read_version_dirs version_scripts dirs ([], [])
    apply_versions from to found.0 (sort_versions found.1) s

  unfoldable pub set_db_version : V → S → Option S
  set_db_version v s = do s' ← db.exec truncate s; db.exec (set_version v) s'

  -- A transaction of a body: begun, run, and committed; otherwise rolled back.
  unfoldable pub transaction : (S → Option S) → S → Bool × S
  transaction body s = if not (db.begins s) then (false, s) else elim (body s) [
    | none ↦ (false, s)
    | some s' ↦ if db.commits s' then (true, s') else (false, s)
  ]

  -- The body of the transaction that migrates from the version of the database.
  unfoldable pub migration : V → V → S → Option S
  unfolding exec_migration_dir upgrade_version set_db_version
  migration db_version app_version s = do
    s1 ← db.exec timescale_install s
    s2 ←
        (if versions.same db_version versions.no_version
          then exec_migration_dir (codes "preinstall") s1
          else upgrade_version db_version app_version s1)
    s3 ← exec_migration_dir (codes "idempotent") s2
    set_db_version app_version s3

  -- `Migrator.Migrate`: whether it succeeds, and the contents.
  unfoldable pub migrate : V → S → Bool × S
  unfolding transaction migration exec_migration_dir get_db_version is_dev
  migrate app_version s0 = elim (db.exec create_table s0) [
    | none ↦ (false, s0)
    | some s ↦ elim (get_db_version s) [
      | none ↦ (false, s)
      | some v ↦
          if versions.same v app_version
          then (if is_dev app_version
              then transaction (exec_migration_dir (codes "idempotent")) s
              else (true, s))
          else if versions.precedes app_version v
          then (false, s)
          else transaction (migration v app_version) s
    ]
  ]
