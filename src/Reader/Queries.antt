-- ===== src/Reader/Queries.antt =====
-- pkg/pgmodel/sql_reader.go: the two entries of the reader, `Select` for the query engine and `Query` for remote
-- reads; and the matchers of a remote read, from pkg/pgmodel/labels.go. The format of times, the labels of ids
-- and `labels.NewMatcher` are parameters.
pub mod Answers
use timescale_prometheus.Prelude.Int.{ℤ}
use timescale_prometheus.Prelude.Bytes.{Bytes}
use timescale_prometheus.Labels.{Label}
use timescale_prometheus.Ingestor.{TimeSeries}
use timescale_prometheus.Reader.{NameCache}
use timescale_prometheus.QueryBuilder.{
  MatchType, match_equal, match_not_equal, match_regexp, match_not_regexp, Matcher,
}
use timescale_prometheus.QueryBuilder.Finalizer.{SelectHints, Node}
use timescale_prometheus.QueryBuilder.TimeSeries.{SeriesRow, to_rfc3339_nano}
use timescale_prometheus.Reader.Results.{ReaderCalls, get_result_rows, build_all}
use timescale_prometheus.SeriesSet.ResultSets.{Rows, PgxSeriesSet, build_series_set}
use timescale_prometheus.Prelude.{
  ℕ, ◌⊎◌, inl, inr, Option, none, some, List, [], ◌∷◌, ◌==◌, if◌then◌else◌,
}

-- `prompb.LabelMatcher`, whose type is any number.
pub record LabelMatcher : Type 0 where
  pub type : ℕ
  pub name : Bytes
  pub value : Bytes

unfoldable pub match_type : ℕ → Option MatchType
match_type n =
    if n == 0
    then some match_equal
    else if n == 1
    then some match_not_equal
    else if n == 2
    then some match_regexp
    else if n == 3
    then some match_not_regexp
    else none

-- `prompb.Query`
pub record Query : Type 0 where
  pub start_timestamp_ms : ℤ
  pub end_timestamp_ms : ℤ
  pub matchers : List LabelMatcher

module _ {E : Type 0} (invalid_type : E)
    (new_matcher : MatchType → Bytes → Bytes → E ⊎ Matcher) where
  -- `FromLabelMatchers`
  unfoldable pub from_label_matchers : List LabelMatcher → E ⊎ List Matcher
  unfolding match_type
  from_label_matchers [] = inr []
  from_label_matchers (m ∷ ms) =
      let rest = from_label_matchers ms in
      elim (match_type m.type) [
        | none ↦ inl invalid_type
        | some t ↦ elim (new_matcher t m.name m.value) [
          | inl e ↦ inl e
          | inr matcher ↦ elim rest [ inl e ↦ inl e | inr result ↦ inr (matcher ∷ result) ]
        ]
      ]

-- The result sets of the query engine are read one row at a time, those of a remote read at once.
module _ {F E : Type 0} (to_text : ℤ → Bytes) where
  -- `Select`, for rows that have not been read.
  unfoldable pub select :
      ReaderCalls E (Rows F E)
      → ℤ
      → ℤ
      → Option SelectHints
      → List Node
      → List Matcher
      → NameCache
      → (E ⊎ (PgxSeriesSet F E × Option Node)) × NameCache
  unfolding get_result_rows build_series_set
  select calls mint maxt hints path ms cache =
      let (results, cache') =
        get_result_rows calls (to_text mint) (to_text maxt) hints path ms cache in
      elim results [
        | inl e ↦ (inl e, cache')
        | inr (rows, top) ↦ (inr (build_series_set rows, top), cache')
      ]

  module _ (calls : ReaderCalls E (List (SeriesRow F E) × Option E))
      (get_labels : List ℤ → E ⊎ List Label) (invalid_type mismatch : E)
      (new_matcher : MatchType → Bytes → Bytes → E ⊎ Matcher) where
    -- `Query`
    unfoldable pub query : Option Query → NameCache → (E ⊎ List (TimeSeries F)) × NameCache
    unfolding from_label_matchers get_result_rows build_all
    query none cache = (inr [], cache)
    query (some q) cache = elim (from_label_matchers invalid_type new_matcher q.matchers) [
      | inl e ↦ (inl e, cache)
      | inr ms ↦
          let (results, cache') =
            get_result_rows calls (to_text q.start_timestamp_ms) (to_text q.end_timestamp_ms) none
              [] ms cache in
          elim results [
            | inl e ↦ (inl e, cache')
            | inr (sets, top) ↦ (build_all get_labels mismatch sets, cache')
          ]
    ]
