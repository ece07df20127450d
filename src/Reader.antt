-- ===== src/Reader.antt =====
-- pkg/pgmodel/sql_reader.go and pkg/pgmodel/cache.go: labels by id and tables by metric, from the caches or
-- from the database, whose replies are a parameter. Errors are kept only as far as the code tells them apart.
pub mod Tables
pub mod LabelIds
pub mod Results
pub mod Queries
use timescale_prometheus.Prelude.Bytes.{Bytes, Bytes-discrete}
use timescale_prometheus.Prelude.Int.{ℤ, ℤ_discrete}
use timescale_prometheus.Labels.{Label}
use timescale_prometheus.ClockCache.{Cache, get, insert, get_values, insert_batch}
use timescale_prometheus.Prelude.{
  ℕ, ◌+◌, Bool, true, false, not, Option, none, some, List, [], ◌∷◌, ◌++◌, ltb, ◌==◌, if◌then◌else◌,
  length, take, drop, map, ◌>>=◌,
}

-- `MetricNameCache`
abbrev pub NameCache : Type 0
NameCache = Cache Bytes Bytes

unfoldable pub cached_name : NameCache → Bytes → Option Bytes × NameCache
unfolding get
cached_name = get Bytes-discrete

unfoldable pub set_name : NameCache → Bytes → Bytes → NameCache
unfolding insert
set_name c metric table_name = (insert Bytes-discrete c metric table_name).3

-- What `queryMetricTableName` leads to.
pub data TableReply : Type 0 where
  query_failed : TableReply
  missing_table_name : TableReply
  table : Bytes → TableReply

-- `getMetricTableName` of the reader: the name or the error, whether the database is asked, the cache.
unfoldable pub get_metric_table_name :
    (Bytes → TableReply) → NameCache → Bytes → TableReply × Bool × NameCache
unfolding cached_name set_name
get_metric_table_name query c metric =
    let (found, c') = cached_name c metric in
    elim found [
      | some name ↦ (table name, false, c')
      | none ↦ elim (query metric) [
        | query_failed ↦ (query_failed, true, c')
        | missing_table_name ↦ (missing_table_name, true, c')
        | table name ↦ (table name, true, set_name c' metric name)
      ]
    ]

-- The cache of labels.
abbrev pub LabelCache : Type 0
LabelCache = Cache ℤ Label

-- A row of `labels_info`: ids, keys and values.
pub record InfoRow : Type 0 where
  pub ids : List ℤ
  pub keys : List Bytes
  pub vals : List Bytes

unfoldable pub zip_labels : List Bytes → List Bytes → List Label
zip_labels (k ∷ ks) (v ∷ vs) = record { name = k; value = v } ∷ zip_labels ks vs
zip_labels ks vs = []

-- The loop of `fetchMissingLabels` over the rows: the labels of the last row, and the cache. The first
-- number is how many keys the slice of misses has, to which each row cuts it down. None is an error,
-- or a panic of the batch insert.
unfoldable pub read_infos :
    ℕ → List Label → LabelCache → List InfoRow → Option (List Label × LabelCache)
unfolding zip_labels insert_batch
read_infos misses labels c [] = some (labels, c)
read_infos misses labels c (row ∷ rows) =
    let new = zip_labels row.keys row.vals in
    elim (insert_batch ℤ_discrete c row.ids new) [
      | none ↦ none
      | some (_, _, new', c') ↦
          let rest = read_infos (length row.keys) new' c' rows in
          if not (length row.ids == length row.keys)
          then none
          else if not (length row.keys == length row.vals)
          then none
          else if ltb misses (length row.keys)
          then none
          else rest
    ]

-- `getLabelsForIds`; `query` is the database. The slots of the slice of values hold the given label
-- before they are written. None is an error, or a panic.
unfoldable pub get_labels_for_ids :
    Label
    → (List ℤ → Option (List InfoRow))
    → LabelCache
    → List ℤ
    → Option (List Label × LabelCache)
unfolding get_values read_infos
get_labels_for_ids blank query c ids = elim (get_values ℤ_discrete c ids (map (λ id. blank) ids)) [
  | none ↦ none
  | some (num_hits, keys, values, c') ↦
      let missed = drop num_hits keys in
      if ltb num_hits (length ids)
      then (query missed >>= λ rows. read_infos (length missed) [] c' rows >>= λ fetched.
          some (take num_hits values ++ fetched.0, fetched.1))
      else some (values, c')
]
