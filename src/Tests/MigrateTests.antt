-- ===== src/Tests/MigrateTests.antt =====
-- Runs and instances for pkg/pgmodel/migrate.go.
use timescale_prometheus.Prelude.Int.{pos}
use timescale_prometheus.Prelude.Dict
use timescale_prometheus.Prelude.Bytes.{Bytes, codes, Bytes-discrete}
use timescale_prometheus.Prelude.{
  ℕ, ◌≡◌, refl, Bool, true, false, Option, none, some, List, [], ◌∷◌, ◌++◌, ◌↔◌, arith, ltb, ◌==◌,
  ◌||◌, ap, length, map, All, ℕ_discrete,
}
use timescale_prometheus.Migrate.{
  Versions, Statement, create_table, timescale_install, script, truncate, set_version, Database,
  Entry, Files, replace_schema_names, replace_each, replace_all, strip_prefix,
  order_files_naturally, prefixed_names, sort_names, insert_name, read_version_dirs,
  read_version_files, version_file, get_migration_file_version, exec_files, upgrade_version,
  migrate, get_db_version, version_scripts,
}
use timescale_prometheus.Migrate.Startup.{Pool, Startup, migrate_app, IsMigrated, migrate_app_lem}
use timescale_prometheus.Migrate.Found.{Occurs}
use timescale_prometheus.Migrate.Upgrading.{IsInRange, Ordered, IsAscending, upgrade_version_lem}
use timescale_prometheus.Migrate.Atomic.{Versioned, with_table, migrate_atomic}

replaces_longest : replace_schema_names (codes "SCHEMA_DATA_SERIES.x") ≡ codes "prom_data_series.x"
unfolding replace_schema_names replace_each replace_all strip_prefix
replaces_longest = refl

orders :
    order_files_naturally (
      record { name = codes "10-b"; is_dir = false; prefix = some (pos 10) }
      ∷ record { name = codes "x"; is_dir = false; prefix = none }
      ∷ record { name = codes "9-a"; is_dir = false; prefix = some (pos 9) }
      ∷ [])
    ≡ codes "9-a" ∷ codes "10-b" ∷ []
unfolding order_files_naturally prefixed_names sort_names insert_name
orders = refl

-- Versions are numbers, and a file of the directory 1 has the number that its name starts with.
abbrev first : Bytes → Option ℕ
first [] = none
first (c ∷ cs) = some c

abbrev numbers : Versions ℕ
numbers = record {
  precedes = ltb;
  same = λ v w. v == w;
  key = λ v. v ∷ [];
  pre = λ v. [];
  no_version = 0;
  make = λ dir. first dir;
  add_pre = λ v n. n;
  file_number = λ file. first file;
}

numbers-Ordered : Ordered numbers
numbers-Ordered = record { one_way = λ v w h. ground arith; through = λ u v w h k. ground arith }

-- The rows of the table of versions, and the scripts that were run.
abbrev Schema : Type 0
Schema = List ℕ × List Bytes

-- A version that is there already violates the key.
abbrev insert_row : Bool → ℕ → Schema → Option Schema
insert_row true v s = none
insert_row false v s = some (s.0 ++ v ∷ [], s.1)

abbrev is_row : ℕ → List ℕ → Bool
is_row v [] = false
is_row v (w ∷ ws) = v == w || is_row v ws

abbrev run_statement : Statement ℕ → Schema → Option Schema
run_statement create_table s = some s
run_statement timescale_install s = some s
run_statement (script text) s = some (s.0, s.1 ++ text ∷ [])
run_statement truncate s = some ([], s.1)
run_statement (set_version v) s = insert_row (is_row v s.0) v s

-- The query asks for one row.
abbrev read_version : List ℕ → List (Option ℕ)
read_version [] = []
read_version (v ∷ vs) = some v ∷ []

abbrev postgres : Database Schema ℕ
postgres = record {
  exec = run_statement;
  versions = λ s. some (read_version s.0);
  begins = λ s. true;
  commits = λ s. true;
}

abbrev entry : Bool → ℕ → Entry
entry is_dir c = record { name = c ∷ []; is_dir = is_dir; prefix = some (pos c) }

abbrev version_dir : Bytes
version_dir = version_scripts ++ b'/' ∷ 7 ∷ []

abbrev found_dir : Bool → Option (List Entry)
found_dir true = some (entry true 7 ∷ [])
found_dir false = some (entry false 3 ∷ entry false 2 ∷ [])

-- The directory of versions has one directory, 7, with files for the versions 3 and 2.
abbrev embedded : Files
embedded = record {
  contents = λ name. some name;
  read_dir = λ dir. found_dir (ltb (length dir) 13);
  opens = λ dir. true;
  stat_is_dir = λ name. some false;
  toc = λ dir. none;
}

inserted :
    (v : ℕ) (s s' : Schema)
    → read_version s.0 ≡ []
    → insert_row (is_row v s.0) v s ≡ some s'
    → read_version s'.0 ≡ some v ∷ []
inserted v ([], t) s' h k = ground arith
inserted v (w ∷ ws, t) s' h k = absurd (ground arith)

postgres-Versioned : Versioned numbers postgres embedded
postgres-Versioned = record {
  truncate_clears = λ s s' h. ground arith;
  set_version_reads = λ v s s' h k. ap some (inserted v s s' (ground arith) k);
  script_keeps = λ name text s s' h k. ground arith;
  same_self = λ v. ground arith;
}

abbrev old_schema : Schema
old_schema = (2 ∷ [], [])

abbrev version_map : List (Bytes × Bytes)
version_map = (2 ∷ [], version_dir ++ b'/' ∷ 2 ∷ []) ∷ (3 ∷ [], version_dir ++ b'/' ∷ 3 ∷ []) ∷ []

upgrade_version_lem_example :
    (run : List ℕ) × (upgrade_version numbers postgres embedded 2 5 old_schema
      ≡ exec_files numbers postgres embedded
          (map (version_file numbers postgres embedded version_map) run)
          old_schema)
    × IsAscending numbers postgres embedded run
    × All (IsInRange numbers postgres embedded 2 5) run
    × ((v : ℕ) → IsInRange numbers postgres embedded 2 5 v → Occurs v (3 ∷ 2 ∷ []) ↔ Occurs v run)
unfolding get_migration_file_version read_version_dirs read_version_files Dict.lookup Dict.insert
    Dict.delete Bytes-discrete ℕ_discrete
upgrade_version_lem_example =
    upgrade_version_lem numbers postgres embedded 2 5 old_schema (entry true 7 ∷ []) version_map
      (3 ∷ 2 ∷ []) numbers-Ordered refl refl

migrate_atomic_example :
    (let (ok, s') = migrate numbers postgres embedded 5 old_schema in
      (ok ≡ false → s' ≡ old_schema)
      × (ok ≡ true
          → (v : ℕ) × (get_db_version numbers postgres embedded s' ≡ some v) × ((v == 5) ≡ true)))
unfolding with_table
migrate_atomic_example = migrate_atomic numbers postgres embedded postgres-Versioned 5 old_schema

-- A pool that has a connection and no extension.
abbrev plain_pool : Pool Schema
plain_pool = record {
  acquires = λ s. true;
  install = λ s. none;
  update_metadata = λ installed key value s. s;
}

abbrev at_rest : Startup Schema
at_rest = record {
  locked = false;
  extension_is_installed = true;
  acquired = 0;
  contents = old_schema;
}

migrate_app_lem_example :
    (ok : Bool) × (a' : Startup Schema) × (migrate_app numbers postgres embedded plain_pool
        (5 ∷ [])
        []
        at_rest
      ≡ some (ok, a'))
    × IsMigrated numbers postgres embedded plain_pool postgres-Versioned (5 ∷ []) [] at_rest ok a'
migrate_app_lem_example =
    migrate_app_lem numbers postgres embedded plain_pool postgres-Versioned (5 ∷ []) [] at_rest refl
