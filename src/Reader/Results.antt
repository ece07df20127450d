-- ===== src/Reader/Results.antt =====
-- pkg/pgmodel/sql_reader.go: a query is answered from the table of its metric, or from the tables of all metrics
-- that its matchers find; and the lists of label names and values. The answers of the database to the queries
-- are parameters; `R` are rows of samples.
pub mod Caching
use timescale_prometheus.Prelude.Int.{ℤ}
use timescale_prometheus.Prelude.Bytes.{Bytes, str_lt}
use timescale_prometheus.Labels.{Label}
use timescale_prometheus.Ingestor.{TimeSeries}
use timescale_prometheus.Reader.{
  NameCache, TableReply, query_failed, missing_table_name, table, get_metric_table_name,
}
use timescale_prometheus.QueryBuilder.{Matcher, build_sub_queries}
use timescale_prometheus.QueryBuilder.Finalizer.{
  Param, text_param, MetricTimeRangeFilter, SelectHints, Node, build_metric_name_series_id_query,
  build_timeseries_by_series_id_query, build_timeseries_by_label_clauses_query,
}
use timescale_prometheus.QueryBuilder.TimeSeries.{
  SeriesRow, build_time_series, MetricRow, get_series_per_metric,
}
use timescale_prometheus.Prelude.{
  ℕ, Bool, true, false, ◌⊎◌, inl, inr, Option, none, some, List, [], ◌∷◌, ◌++◌, if◌then◌else◌,
  length, map, ◌==◌,
}

-- The answer to the query of one metric: an error other than that of an undefined table, or rows.
pub record ReaderCalls (E R : Type 0) : Type 0 where
  pub table_of : Bytes → TableReply
  pub name_failed : E
  pub build_failed : E
  pub query_rows : Bytes → List Param → E ⊎ R
  pub query_metrics : Bytes → List Param → E ⊎ List (MetricRow E)
  pub sanitize : Bytes → Bytes → Bytes
  pub extension_is_installed : Bool
  pub matches : Matcher → Bytes → Bool

module _ {E R : Type 0} (calls : ReaderCalls E R) where
  -- `querySingleMetric`
  unfoldable pub query_single_metric :
      Bytes
      → MetricTimeRangeFilter
      → List Bytes
      → List Bytes
      → Option SelectHints
      → List Node
      → NameCache
      → (E ⊎ (List R × Option Node)) × NameCache
  query_single_metric metric filter cases values hints path cache =
      let (reply, _, cache') = get_metric_table_name calls.table_of cache metric in
      elim reply [
        | query_failed ↦ (inl calls.name_failed, cache')
        | missing_table_name ↦ (inr ([], none), cache')
        | table name ↦
            elim (build_timeseries_by_label_clauses_query calls.sanitize
              calls.extension_is_installed (record filter { metric = name }) cases
              (map text_param values) hints path) [
                | none ↦ (inl calls.build_failed, cache')
                | some (query, params, top) ↦ elim (calls.query_rows query params) [
                  | inl e ↦ (inl e, cache')
                  | inr rows ↦ (inr (rows ∷ [], top), cache')
                ]
              ]
      ]

  -- The loop of `getResultRows` over the metrics.
  unfoldable pub query_each :
      MetricTimeRangeFilter → List (Bytes × List ℕ) → NameCache → (E ⊎ List R) × NameCache
  query_each filter [] cache = (inr [], cache)
  query_each filter ((metric, ids) ∷ ms) cache =
      let (reply, _, cache') = get_metric_table_name calls.table_of cache metric in
      let (rest, cache'') = query_each filter ms cache' in
      elim reply [
        | query_failed ↦ (inl calls.name_failed, cache')
        | missing_table_name ↦ (rest, cache'')
        | table name ↦
            elim (calls.query_rows
              (build_timeseries_by_series_id_query calls.sanitize (record filter { metric = name })
                ids)
              []) [
                | inl e ↦ (inl e, cache')
                | inr rows ↦ elim rest [
                  | inl e ↦ (inl e, cache'')
                  | inr more ↦ (inr (rows ∷ more), cache'')
                ]
              ]
      ]

  -- `getResultRows`, for the two times of the filter as texts.
  unfoldable pub get_result_rows :
      Bytes
      → Bytes
      → Option SelectHints
      → List Node
      → List Matcher
      → NameCache
      → (E ⊎ (List R × Option Node)) × NameCache
  unfolding query_single_metric query_each
  get_result_rows start_time end_time hints path matchers cache =
      elim (build_sub_queries calls.matches matchers) [
        | none ↦ (inl calls.build_failed, cache)
        | some (metric, cases, values) ↦
            let filter : MetricTimeRangeFilter = record {
              metric = metric;
              start_time = start_time;
              end_time = end_time;
            } in
            let several : (E ⊎ (List R × Option Node)) × NameCache =
              elim (calls.query_metrics (build_metric_name_series_id_query cases)
                (map text_param values)) [
                  | inl e ↦ (inl e, cache)
                  | inr rows ↦ elim (get_series_per_metric rows) [
                    | inl e ↦ (inl e, cache)
                    | inr metrics ↦
                        let (results, cache') = query_each filter metrics cache in
                        elim results [ inl e ↦ (inl e, cache') | inr rs ↦ (inr (rs, none), cache') ]
                  ]
                ] in
            if length metric == 0
            then several
            else query_single_metric metric filter cases values hints path cache
      ]

-- The loop of `Query` over its result sets, each with its rows and the error that they end with.
unfoldable pub build_all :
    {F E : Type 0}
    → (List ℤ → E ⊎ List Label)
    → E
    → List (List (SeriesRow F E) × Option E)
    → E ⊎ List (TimeSeries F)
unfolding build_time_series
build_all get_labels mismatch [] = inr []
build_all get_labels mismatch ((rows, failure) ∷ sets) =
    let rest = build_all get_labels mismatch sets in
    elim (build_time_series get_labels mismatch rows failure) [
      | inl e ↦ inl e
      | inr ss ↦ elim rest [ inl e ↦ inl e | inr more ↦ inr (ss ++ more) ]
    ]

-- `sort.Strings`
unfoldable pub insert_string : Bytes → List Bytes → List Bytes
insert_string s [] = s ∷ []
insert_string s (t ∷ ts) =
    let rest = insert_string s ts in if str_lt t s then t ∷ rest else s ∷ t ∷ ts

unfoldable pub sort_strings : List Bytes → List Bytes
unfolding insert_string
sort_strings [] = []
sort_strings (s ∷ ss) = insert_string s (sort_strings ss)

-- The rows of a query for strings: those that can be read, up to one that cannot.
unfoldable pub scan_strings : {E : Type 0} → List (E ⊎ Bytes) → E ⊎ List Bytes
scan_strings [] = inr []
scan_strings (inl e ∷ rows) = inl e
scan_strings (inr s ∷ rows) =
    let rest = scan_strings rows in elim rest [ inl e ↦ inl e | inr ss ↦ inr (s ∷ ss) ]

-- `LabelNames` and `LabelValues`, for what the query answers: an error, or rows with the error that they end
-- with, which is not asked for.
unfoldable pub label_strings : {E : Type 0} → E ⊎ (List (E ⊎ Bytes) × Option E) → E ⊎ List Bytes
unfolding scan_strings sort_strings
label_strings (inl e) = inl e
label_strings (inr (rows, failure)) = elim (scan_strings rows) [
  | inl e ↦ inl e
  | inr names ↦ inr (sort_strings names)
]
