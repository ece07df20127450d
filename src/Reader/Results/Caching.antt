-- ===== src/Reader/Results/Caching.antt =====
-- pkg/pgmodel/sql_reader.go: the result sets of a query do not depend on what the cache of table names holds.
use timescale_prometheus.Prelude.Bytes.{Bytes, Bytes-discrete}
use timescale_prometheus.ClockCache.Contents.{IsValid}
use timescale_prometheus.ClockCache.Access.{get-contents, get-SameButMarks}
use timescale_prometheus.ClockCache.Batches.{insert_stores}
use timescale_prometheus.ClockCache.{get}
use timescale_prometheus.ClockCache.Coherence.{Holds}
use timescale_prometheus.Reader.Tables.{
  IsAnswered, get_metric_table_name-IsLookup, TableReply-cases, IsLookup,
}
use timescale_prometheus.Reader.{
  NameCache, TableReply, get_metric_table_name, cached_name, set_name,
}
use timescale_prometheus.QueryBuilder.{Matcher, build_sub_queries}
use timescale_prometheus.QueryBuilder.Finalizer.{
  Param, text_param, MetricTimeRangeFilter, SelectHints, Node, build_metric_name_series_id_query,
  build_timeseries_by_series_id_query, build_timeseries_by_label_clauses_query,
}
use timescale_prometheus.QueryBuilder.TimeSeries.{get_series_per_metric}
use timescale_prometheus.Reader.Results.{
  ReaderCalls, query_single_metric, query_each, get_result_rows,
}
use timescale_prometheus.Prelude.{
  ℕ, ◌<◌, ◌≡◌, refl, inl, inr, Option, List, [], ◌∷◌, map, ◌==◌, length, arith, Option-cases,
  Sum-cases, Bool-cases,
}

get_metric_table_name-capacity :
    (query : Bytes → TableReply) (c : NameCache) (metric : Bytes)
    → IsValid Bytes-discrete c
    → 0 < c.capacity
    → (get_metric_table_name query c metric).2.capacity ≡ c.capacity
unfolding get_metric_table_name cached_name set_name
get_metric_table_name-capacity query c metric v some_room =
    let (_, _, v1) = get-contents Bytes-discrete c metric v in
    let c1 = (get Bytes-discrete c metric).1 in
    let same = (get-SameButMarks Bytes-discrete c metric).same_capacity in
    elim (Option-cases (get Bytes-discrete c metric).0) [
      | inr (name, e) ↦ ground arith
      | inl e ↦ elim (TableReply-cases (query metric)) [
        | inl (inl f) ↦ ground arith
        | inl (inr f) ↦ ground arith
        | inr (name, f) ↦
            let (_, cap, _, _, _) = insert_stores Bytes-discrete c1 metric name v1 (omega arith) in
            ground arith
      ]
    ]

module _ {E R : Type 0} (calls : ReaderCalls E R) where
  -- A cache of names that the database answers, with room.
  pub record IsNameCache (c : NameCache) : Type 0 where
    pub valid : IsValid Bytes-discrete c
    pub room : 0 < c.capacity
    pub current : Holds Bytes-discrete (IsAnswered calls.table_of) c

  pub look_up :
      (c : NameCache) (metric : Bytes)
      → IsNameCache c
      → ((get_metric_table_name calls.table_of c metric).0 ≡ calls.table_of metric)
        × IsNameCache (get_metric_table_name calls.table_of c metric).2
  unfolding IsLookup
  look_up c metric h =
      let (same, _, v, current, _) =
        get_metric_table_name-IsLookup calls.table_of c metric h.valid h.room h.current in
      let cap = get_metric_table_name-capacity calls.table_of c metric h.valid h.room in
      let room = h.room in (same, record { valid = v; room = omega arith; current = current })

  -- The same answer from both caches, and a cache of such names left by the first.
  pub IsSame : {A : Type 0} → (NameCache → A × NameCache) → NameCache → NameCache → Type 0
  IsSame run c d = ((run c).0 ≡ (run d).0) × IsNameCache (run c).1

  query_each_lem :
      (filter : MetricTimeRangeFilter) (ms : List (Bytes × List ℕ)) (c d : NameCache)
      → IsNameCache c
      → IsNameCache d
      → IsSame (query_each calls filter ms) c d
  unfolding query_each IsSame
  query_each_lem filter [] c d hc hd = (refl, hc)
  query_each_lem filter ((metric, ids) ∷ ms) c d hc hd =
      let (same_c, hc') = look_up c metric hc in
      let (same_d, hd') = look_up d metric hd in
      let c' = (get_metric_table_name calls.table_of c metric).2 in
      let d' = (get_metric_table_name calls.table_of d metric).2 in
      let (same_rest, left) = query_each_lem filter ms c' d' hc' hd' in
      elim (TableReply-cases (calls.table_of metric)) [
        | inl (inl e) ↦ rw (query_each, same_c, same_d, e) (refl, hc')
        | inl (inr e) ↦ rw (query_each, same_c, same_d, e) (same_rest, left)
        | inr (name, e) ↦
            elim (Sum-cases (
              calls.query_rows
                (build_timeseries_by_series_id_query calls.sanitize
                  (record filter { metric = name }) ids)
                [])) [
                  | inl (f, q) ↦ rw (query_each, same_c, same_d, e, q) (refl, hc')
                  | inr (rows, q) ↦ elim (Sum-cases (query_each calls filter ms c').0) [
                    | inl (f, r) ↦
                        rw (query_each, same_c, same_d, e, q, ← same_rest, r) (refl, left)
                    | inr (more, r) ↦
                        rw (query_each, same_c, same_d, e, q, ← same_rest, r) (refl, left)
                  ]
                ]
      ]

  module _ (start_time end_time : Bytes) (hints : Option SelectHints) (path : List Node)
      (matchers : List Matcher) where
    query_single_metric_lem :
        (filter : MetricTimeRangeFilter) (metric : Bytes) (cases values : List Bytes)
        (c d : NameCache)
        → IsNameCache c
        → IsNameCache d
        → IsSame (query_single_metric calls metric filter cases values hints path) c d
    unfolding query_single_metric IsSame
    query_single_metric_lem filter metric cases values c d hc hd =
        let (same_c, hc') = look_up c metric hc in
        let (same_d, _) = look_up d metric hd in
        elim (TableReply-cases (calls.table_of metric)) [
          | inl (inl e) ↦ rw (query_single_metric, same_c, same_d, e) (refl, hc')
          | inl (inr e) ↦ rw (query_single_metric, same_c, same_d, e) (refl, hc')
          | inr (name, e) ↦
              elim (Option-cases (
                build_timeseries_by_label_clauses_query calls.sanitize calls.extension_is_installed
                  (record filter { metric = name }) cases (map text_param values) hints path)) [
                    | inl q ↦ rw (query_single_metric, same_c, same_d, e, q) (refl, hc')
                    | inr ((query, params, top), q) ↦
                        elim (Sum-cases (calls.query_rows query params)) [
                          | inl (f, r) ↦
                              rw (query_single_metric, same_c, same_d, e, q, r) (refl, hc')
                          | inr (rows, r) ↦
                              rw (query_single_metric, same_c, same_d, e, q, r) (refl, hc')
                        ]
                  ]
        ]

    -- Two caches of names, valid and with room, that hold only what the database answers, give the
    -- same result sets or the same error for a query, and the one that was used is left such a
    -- cache.
    pub get_result_rows_cached :
        (c d : NameCache)
        → IsNameCache c
        → IsNameCache d
        → IsSame (get_result_rows calls start_time end_time hints path matchers) c d
    unfolding get_result_rows IsSame
    get_result_rows_cached c d hc hd =
        elim (Option-cases (build_sub_queries calls.matches matchers)) [
          | inl e ↦ rw (get_result_rows, e) (refl, hc)
          | inr ((metric, cases, values), e) ↦
              let filter : MetricTimeRangeFilter = record {
                metric = metric;
                start_time = start_time;
                end_time = end_time;
              } in
              let asked : Bytes × List Param =
                (build_metric_name_series_id_query cases, map text_param values) in
              elim (Bool-cases (length metric == 0)) [
                | inr one ↦
                    rw (get_result_rows, e, one)
                      (query_single_metric_lem filter metric cases values c d hc hd)
                | inl several ↦ elim (Sum-cases (calls.query_metrics asked.0 asked.1)) [
                  | inl (f, q) ↦ rw (get_result_rows, e, several, q) (refl, hc)
                  | inr (rows, q) ↦ elim (Sum-cases (get_series_per_metric rows)) [
                    | inl (f, r) ↦ rw (get_result_rows, e, several, q, r) (refl, hc)
                    | inr (metrics, r) ↦
                        let (same, left) = query_each_lem filter metrics c d hc hd in
                        elim (Sum-cases (query_each calls filter metrics c).0) [
                          | inl (f, u) ↦
                              rw (get_result_rows, e, several, q, r, ← same, u) (refl, left)
                          | inr (sets, u) ↦
                              rw (get_result_rows, e, several, q, r, ← same, u) (refl, left)
                        ]
                  ]
                ]
              ]
        ]
