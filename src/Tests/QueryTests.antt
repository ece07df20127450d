-- ===== src/Tests/QueryTests.antt =====
-- Runs and instances for pkg/pgmodel/query_builder.go.
use timescale_prometheus.Prelude.Bytes.{Bytes, codes, Bytes-discrete}
use timescale_prometheus.Prelude.Int.{ℤ, pos}
use timescale_prometheus.Prelude.{
  ℕ, ◌≡◌, refl, ap, ◌||◌, Bool, true, false, not, ◌⊎◌, inr, none, some, List, [], ◌∷◌, ◌++◌, ◌==◌,
  length, if◌then◌else◌, arith, ℕ_discrete,
}
use timescale_prometheus.Ingestor.{TimeSeries}
use timescale_prometheus.QueryBuilder.{count_verbs, number_verbs}
use timescale_prometheus.QueryBuilder.Finalizer.{
  text_param, MetricTimeRangeFilter, SelectHints, call, other_node, is_subquery, has_subquery, join,
  QueryFinalizer, delta_finalizer, pushed_node, get_query_finalizer, from_tables, time_range,
  rest_of_query, build_timeseries_by_label_clauses_query,
}
use timescale_prometheus.QueryBuilder.Finalizer.Texts.{
  IsPlain, head_of, new_params, build_timeseries_by_label_clauses_query_lem,
}
use timescale_prometheus.QueryBuilder.TimeSeries.{
  SeriesRow, read, unix_nano, to_milis, make_samples, build_one, build_time_series,
}
use timescale_prometheus.Labels.{Label, metric_name_label_name, sort_labels}
use timescale_prometheus.QueryBuilder.{
  match_equal, match_not_equal, match_regexp, match_not_regexp, Matcher, sub_query, clause_value,
  starts_with, ends_with, anchor_value, is_metric_matcher, build_sub_queries,
}
use timescale_prometheus.QueryBuilder.Clauses.{
  build_sub_queries_lem, numbered, arguments, metric_count, last_metric,
}
use timescale_prometheus.QueryBuilder.Patterns.{whole_pattern, Anchoring, IsSimple}
use timescale_prometheus.QueryBuilder.Selection.{
  Matching, selects, value_of, IsLabelSet, selects-Matching, is_same,
}

-- The anchors bind to the first and the last alternative only.
anchors_alternatives : anchor_value (codes "a|b") ≡ codes "^a|b$"
unfolding anchor_value starts_with ends_with
anchors_alternatives = refl

-- An escaped dollar sign is taken for an anchor.
anchors_escaped : anchor_value (codes "a\\$") ≡ codes "^a\\$"
unfolding anchor_value starts_with ends_with
anchors_escaped = refl

-- Regular expressions of letters, between anchors and in groups: a text is matched if it is the letters.
abbrev is_sign : ℕ → Bool
is_sign c = c == b'^' || (c == b'$' || (c == b'(' || (c == b'?' || (c == b':' || c == b')'))))

abbrev letters : Bytes → Bytes
letters [] = []
letters (c ∷ cs) = let rest = letters cs in if is_sign c then rest else c ∷ rest

abbrev same_text : Bytes → Bytes → Bool
same_text pattern text = is_same text (letters pattern)

letters-end : (p : Bytes) → letters (p ++ b'$' ∷ b'$' ∷ []) ≡ letters (p ++ b'$' ∷ [])
letters-end [] = refl
letters-end (c ∷ cs) = let rest = letters-end cs in ground arith

same_text-Anchoring : Anchoring same_text
same_text-Anchoring = record {
  twice_at_start = λ p v. refl;
  twice_at_end = λ p v h. ap (is_same v) (letters-end p);
}

abbrev is_b : Matcher
is_b = record { type = match_regexp; name = codes "job"; value = codes "b" }

is_b-IsSimple : IsSimple same_text (codes "b")
unfolding ends_with
is_b-IsSimple = record { no_group_needed = λ v. refl; no_escaped_end = λ q e. absurd (not_b q e) }
  where
    not_b : (q : Bytes) → codes "b" ≡ q ++ b'$' ∷ [] → ⊥
    not_b [] e = ground arith
    not_b (c ∷ []) e = ground arith
    not_b (c ∷ d ∷ ds) e = ground arith

abbrev matched : Matcher → Bytes → Bool
matched m v = elim m.type [
  | match_equal ↦ is_same v m.value
  | match_not_equal ↦ not (is_same v m.value)
  | match_regexp ↦ same_text (whole_pattern m.value) v
  | match_not_regexp ↦ not (same_text (whole_pattern m.value) v)
]

matched-Matching : Matching same_text matched
matched-Matching = record {
  equal_matches = λ m v t. ground arith;
  not_equal_matches = λ m v t. ground arith;
  regexp_matches = λ m v t. ground arith;
  not_regexp_matches = λ m v t. ground arith;
}

abbrev not_job : Matcher
not_job = record { type = match_not_equal; name = codes "job"; value = codes "a" }

abbrev up : Matcher
up = record { type = match_equal; name = codes "__name__"; value = codes "up" }

abbrev series : List Label
series = record { name = codes "job"; value = codes "b" } ∷ []

selects-Matching_example :
    selects same_text (sub_query match_regexp (matched is_b [])) (codes "job") (codes "^b$") series
    ≡ true
unfolding anchor_value starts_with ends_with clause_value value_of is_same Bytes-discrete ℕ_discrete
selects-Matching_example =
    selects-Matching same_text matched is_b series matched-Matching same_text-Anchoring
      (λ t. is_b-IsSimple)
      (unfold IsLabelSet in ((λ e. ground arith), unfold value_of in refl, refl))

build_sub_queries_lem_example :
    build_sub_queries matched (up ∷ not_job ∷ [])
    ≡ some (
      codes "up",
      numbered matched 1 (up ∷ not_job ∷ []),
      codes "__name__" ∷ codes "up" ∷ codes "job" ∷ codes "a" ∷ [],
    )
unfolding metric_count last_metric arguments clause_value is_metric_matcher metric_name_label_name
    Bytes-discrete ℕ_discrete
build_sub_queries_lem_example = build_sub_queries_lem matched up (not_job ∷ [])

abbrev quoted : Bytes → Bytes → Bytes
quoted schema name = codes "\"" ++ schema ++ codes "\".\"" ++ name ++ codes "\""

abbrev an_hour : MetricTimeRangeFilter
an_hour = record {
  metric = codes "up";
  start_time = codes "-Infinity";
  end_time = codes "Infinity";
}

abbrev one_case : List Bytes
one_case = codes "labels && $1" ∷ []

abbrev one_hint : SelectHints
one_hint = record { start = pos 0; end = pos 60000; step = pos 30000; range = pos 60000 }

no_verb : Bytes → Bool
no_verb [] = true
no_verb (c ∷ cs) = let rest = no_verb cs in if c == b'%' then false else rest

no_verb-IsPlain : (t : Bytes) → no_verb t ≡ true → IsPlain t
unfolding no_verb
no_verb-IsPlain [] e = tt
no_verb-IsPlain (c ∷ cs) e = (ground arith, no_verb-IsPlain cs (ground arith))

rest_of_query-IsPlain : IsPlain (rest_of_query quoted an_hour one_case)
rest_of_query-IsPlain =
    no_verb-IsPlain (rest_of_query quoted an_hour one_case)
      (unfold no_verb rest_of_query from_tables time_range join in refl)

abbrev pushed : QueryFinalizer
pushed =
    delta_finalizer (rest_of_query quoted an_hour one_case) (text_param (codes "a") ∷ []) one_hint
      (pos 30000)

build_timeseries_by_label_clauses_query_lem_example :
    (count_verbs (head_of pushed) ≡ length (new_params pushed))
    × (build_timeseries_by_label_clauses_query quoted true an_hour one_case
          (text_param (codes "a") ∷ [])
          (some one_hint)
          (call (codes "delta") ∷ other_node ∷ [])
        ≡ some (
          number_verbs 2 (head_of pushed) ++ rest_of_query quoted an_hour one_case,
          text_param (codes "a") ∷ new_params pushed,
          some (call (codes "delta")),
        ))
build_timeseries_by_label_clauses_query_lem_example =
    build_timeseries_by_label_clauses_query_lem quoted true an_hour one_case
      (text_param (codes "a") ∷ []) (some one_hint) (call (codes "delta") ∷ other_node ∷ []) pushed
      (some (call (codes "delta"))) rest_of_query-IsPlain
      (unfold get_query_finalizer pushed_node has_subquery is_subquery Bytes-discrete ℕ_discrete in
        refl)

abbrev no_label : List ℤ → Bytes ⊎ List Label
no_label ids = inr []

abbrev a_row : SeriesRow ℕ Bytes
a_row = read (pos 1 ∷ []) (pos 2000000 ∷ []) (7 ∷ [])

abbrev a_series : TimeSeries ℕ
a_series = record { labels = []; samples = record { timestamp = pos 2; value = 7 } ∷ [] }

a_row_read : build_time_series no_label [] (a_row ∷ []) none ≡ inr (a_series ∷ [])
unfolding build_time_series build_one make_samples to_milis unix_nano sort_labels
a_row_read = refl
