-- ===== src/Migrate/Scripts.antt =====
-- pkg/pgmodel/migrate.go: the names of the schemas in a script, and the order of the scripts of a directory.
use timescale_prometheus.Prelude.Int.{ℤ, ltb_ℤ}
use timescale_prometheus.Prelude.Bytes.{Bytes, codes}
use timescale_prometheus.Prelude.{
  ℕ, zero, suc, Bool, Option, none, some, List, [], ◌∷◌, ◌++◌, if◌then◌else◌, map, ◌==◌, length,
}

-- An entry of a directory: its name, whether it is a directory itself, and its numeric prefix, if its name
-- has the form that `fmt.Sscanf` expects.
pub record Entry : Type 0 where
  pub name : Bytes
  pub is_dir : Bool
  pub prefix : Option ℤ

-- The rest of a text after a prefix, if it has it.
unfoldable pub strip_prefix : Bytes → Bytes → Option Bytes
strip_prefix [] s = some s
strip_prefix (p ∷ ps) [] = none
strip_prefix (p ∷ ps) (c ∷ cs) = let rest = strip_prefix ps cs in if p == c then rest else none

-- `strings.ReplaceAll` for a text that is not empty, on fuel that the length of the text covers.
unfoldable pub replace_all : ℕ → Bytes → Bytes → Bytes → Bytes
unfolding strip_prefix
replace_all zero old new s = s
replace_all (suc fuel) old new [] = []
replace_all (suc fuel) old new (c ∷ cs) =
    let skipped = c ∷ replace_all fuel old new cs in
    elim (strip_prefix old (c ∷ cs)) [
      | none ↦ skipped
      | some rest ↦ new ++ replace_all fuel old new rest
    ]

unfoldable pub replace_each : List (Bytes × Bytes) → Bytes → Bytes
unfolding replace_all
replace_each [] s = s
replace_each ((old, new) ∷ rs) s = replace_each rs (replace_all (length s) old new s)

abbrev pub schema_names : List (Bytes × Bytes)
schema_names =
    (codes "SCHEMA_CATALOG", codes "_prom_catalog")
    ∷ (codes "SCHEMA_EXT", codes "_prom_ext")
    ∷ (codes "SCHEMA_PROM", codes "prom_api")
    ∷ (codes "SCHEMA_SERIES", codes "prom_series")
    ∷ (codes "SCHEMA_METRIC", codes "prom_metric")
    ∷ (codes "SCHEMA_DATA_SERIES", codes "prom_data_series")
    ∷ (codes "SCHEMA_DATA", codes "prom_data")
    ∷ (codes "SCHEMA_INFO", codes "prom_info")
    ∷ []

unfoldable pub replace_schema_names : Bytes → Bytes
unfolding replace_each
replace_schema_names s = replace_each schema_names s

-- `orderFilesNaturally`: the files whose names have a prefix, by prefix. `sort.Sort` may order files of the
-- same prefix in any way; here they keep their order.
unfoldable pub prefixed_names : List Entry → List (ℤ × Bytes)
prefixed_names [] = []
prefixed_names (e ∷ es) =
    let rest = prefixed_names es in
    elim e.prefix [ none ↦ rest | some n ↦ if e.is_dir then rest else (n, e.name) ∷ rest ]

unfoldable pub insert_name : ℤ × Bytes → List (ℤ × Bytes) → List (ℤ × Bytes)
insert_name x [] = x ∷ []
insert_name x (y ∷ ys) =
    let rest = insert_name x ys in if ltb_ℤ y.0 x.0 then y ∷ rest else x ∷ y ∷ ys

unfoldable pub sort_names : List (ℤ × Bytes) → List (ℤ × Bytes)
unfolding insert_name
sort_names [] = []
sort_names (x ∷ xs) = insert_name x (sort_names xs)

unfoldable pub order_files_naturally : List Entry → List Bytes
unfolding prefixed_names sort_names
order_files_naturally es = map (λ (x : ℤ × Bytes). x.1) (sort_names (prefixed_names es))
