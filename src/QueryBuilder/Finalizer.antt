-- ===== src/QueryBuilder/Finalizer.antt =====
-- pkg/pgmodel/query_builder.go: the texts of the queries for samples, and the push-down of `delta` into the
-- extension. The quoting of identifiers by pgx is a parameter.
pub mod Texts
use timescale_prometheus.Prelude.Int.{ℤ, pos, negsuc, ◌+ℤ◌, ltb_ℤ, ℤ_discrete}
use timescale_prometheus.Prelude.Bytes.{Bytes, Bytes-discrete, codes}
use timescale_prometheus.QueryBuilder.{fill_in_parameters, decimal}
use timescale_prometheus.Prelude.{
  ℕ, suc, ◌*◌, Bool, true, false, not, ◌&&◌, Option, none, some, List, [], ◌∷◌, ◌++◌, ite, leb,
  if◌then◌else◌, length, get_elem?, ◌-◌, map, is_some,
}

-- A parameter of a query: a text, a time in milliseconds, a duration in milliseconds, or a number.
pub data Param : Type 0 where
  text_param : Bytes → Param
  time_param : ℤ → Param
  duration_param : ℤ → Param
  int_param : ℤ → Param

-- `metricTimeRangeFilter`
pub record MetricTimeRangeFilter : Type 0 where
  pub metric : Bytes
  pub start_time : Bytes
  pub end_time : Bytes

-- `storage.SelectHints`, in milliseconds.
pub record SelectHints : Type 0 where
  pub start : ℤ
  pub end : ℤ
  pub step : ℤ
  pub range : ℤ

-- The nodes of a query, as far as the code tells them apart.
pub data Node : Type 0 where
  call : Bytes → Node
  subquery_expr : Node
  other_node : Node

unfoldable pub is_subquery : Node → Bool
is_subquery (call name) = false
is_subquery subquery_expr = true
is_subquery other_node = false

unfoldable pub has_subquery : List Node → Bool
unfolding is_subquery
has_subquery [] = false
has_subquery (n ∷ ns) = if is_subquery n then true else has_subquery ns

-- `strings.Join`
unfoldable pub join : Bytes → List Bytes → Bytes
join sep [] = []
join sep (x ∷ []) = x
join sep (x ∷ y ∷ ys) = x ++ sep ++ join sep (y ∷ ys)

unfoldable pub build_metric_name_series_id_query : List Bytes → Bytes
unfolding join
build_metric_name_series_id_query cases =
    codes "SELECT m.metric_name, array_agg(s.id)\n\tFROM _prom_catalog.series s\n"
    ++ codes "\tINNER JOIN _prom_catalog.metric m\n\tON (m.id = s.metric_id)\n\tWHERE "
    ++ join (codes " AND ") cases
    ++ codes "\n\tGROUP BY m.metric_name\n\tORDER BY m.metric_name"

-- `queryFinalizer`
pub record QueryFinalizer : Type 0 where
  pub time_clause : Bytes
  pub time_params : List Param
  pub value_clause : Bytes
  pub value_params : List Param
  pub rest_of_query : Bytes
  pub rest_of_query_params : List Param

-- `Finalize`
unfoldable pub finalize : QueryFinalizer → Option (Bytes × List Param)
unfolding fill_in_parameters
finalize t =
    fill_in_parameters
      (codes "SELECT s.labels, "
        ++ t.time_clause
        ++ codes ", "
        ++ t.value_clause
        ++ t.rest_of_query)
      t.rest_of_query_params (t.time_params ++ t.value_params)

abbrev pub default_finalizer : Bytes → List Param → QueryFinalizer
default_finalizer other_clauses values = record {
  time_clause = codes "array_agg(m.time ORDER BY time) as time_array";
  time_params = [];
  value_clause = codes "array_agg(m.value ORDER BY time)";
  value_params = [];
  rest_of_query = other_clauses;
  rest_of_query_params = values;
}

-- The push-down of a call of delta over a range.
abbrev pub delta_finalizer : Bytes → List Param → SelectHints → ℤ → QueryFinalizer
delta_finalizer other_clauses values hints step = record {
  time_clause = codes "ARRAY(SELECT generate_series($%d::timestamptz, $%d::timestamptz, $%d))";
  time_params =
      time_param (hints.start +ℤ hints.range) ∷ time_param hints.end ∷ duration_param step ∷ [];
  value_clause = codes "prom_delta($%d, $%d,$%d, $%d, time, value ORDER BY time ASC)";
  value_params =
      time_param hints.start ∷ time_param hints.end ∷ int_param step ∷ int_param hints.range ∷ [];
  rest_of_query = other_clauses;
  rest_of_query_params = values;
}

-- The parent of the node that selects, if its call can be pushed down.
unfoldable pub pushed_node : Bool → Option SelectHints → List Node → Option (Node × SelectHints)
unfolding has_subquery
pushed_node extension_is_installed hints path =
    let parent : Option (Node × SelectHints) = elim hints [
      | none ↦ none
      | some h ↦ elim (get_elem? path (length path - 2)) [
        | none ↦ none
        | some (call name) ↦ ite (Bytes-discrete name (codes "delta")) (some (call name, h)) none
        | some subquery_expr ↦ none
        | some other_node ↦ none
      ]
    ] in
    if extension_is_installed && (leb 2 (length path) && not (has_subquery path))
    then parent
    else none

-- `getQueryFinalizer`; none is its panic.
unfoldable pub get_query_finalizer :
    Bool
    → Bytes
    → List Param
    → Option SelectHints
    → List Node
    → Option (QueryFinalizer × Option Node)
unfolding pushed_node
get_query_finalizer extension_is_installed other_clauses values hints path =
    elim (pushed_node extension_is_installed hints path) [
      | none ↦ some (default_finalizer other_clauses values, none)
      | some (node, h) ↦
          let with_step =
            λ (step : ℤ). some (delta_finalizer other_clauses values h step, some node) in
          if ltb_ℤ (pos 0) h.step
          then with_step h.step
          else ite (ℤ_discrete (h.start +ℤ h.range) h.end) (with_step (pos 1000)) none
    ]

module _ (sanitize : Bytes → Bytes → Bytes) where
  -- The part of both queries that names the tables of a metric.
  unfoldable pub from_tables : Bytes → Bytes
  from_tables metric =
      codes "\n\tFROM "
      ++ sanitize (codes "prom_data") metric
      ++ codes " m\n\tINNER JOIN "
      ++ sanitize (codes "prom_data_series") metric
      ++ codes " s\n\tON m.series_id = s.id\n\tWHERE "

  unfoldable pub time_range : MetricTimeRangeFilter → Bytes
  time_range filter =
      codes "\n\tAND time >= '"
      ++ filter.start_time
      ++ codes "'\n\tAND time <= '"
      ++ filter.end_time
      ++ codes "'\n\tGROUP BY s.id"

  -- `buildTimeseriesBySeriesIDQuery`, for ids that are not negative.
  unfoldable pub build_timeseries_by_series_id_query : MetricTimeRangeFilter → List ℕ → Bytes
  unfolding from_tables time_range join decimal
  build_timeseries_by_series_id_query filter series =
      codes "SELECT s.labels, array_agg(m.time ORDER BY time), array_agg(m.value ORDER BY time)"
      ++ from_tables filter.metric
      ++ codes "m.series_id IN ("
      ++ join (codes ",") (map (λ id. decimal (suc id) id) series)
      ++ codes ")"
      ++ time_range filter

  unfoldable pub rest_of_query : MetricTimeRangeFilter → List Bytes → Bytes
  unfolding from_tables time_range join
  rest_of_query filter cases =
      from_tables filter.metric ++ join (codes " AND ") cases ++ time_range filter

  -- `buildTimeseriesByLabelClausesQuery`; none is its panic or its error.
  unfoldable pub build_timeseries_by_label_clauses_query :
      Bool
      → MetricTimeRangeFilter
      → List Bytes
      → List Param
      → Option SelectHints
      → List Node
      → Option (Bytes × List Param × Option Node)
  unfolding rest_of_query get_query_finalizer finalize
  build_timeseries_by_label_clauses_query extension_is_installed filter cases values hints path =
      elim (get_query_finalizer extension_is_installed (rest_of_query filter cases) values hints
        path) [
          | none ↦ none
          | some (qf, node) ↦ elim (finalize qf) [
            | none ↦ none
            | some (query, new_values) ↦ some (query, new_values, node)
          ]
        ]
