-- ===== src/Api/Queries.antt =====
-- pkg/api/query.go, series.go, labels.go, label_values.go and read.go: the handlers that only read. The
-- querier of pkg/query never fails to be made, so that the handlers' branches for it are left out.
use timescale_prometheus.Labels.{Label}
use timescale_prometheus.Prelude.Int.{ℤ, ltb_ℤ}
use timescale_prometheus.Prelude.Bytes.{Bytes, codes}
use timescale_prometheus.Api.{
  labels_value, series_type, Answer, Parsers, parse_time_param, Response, new_response,
  respond_error, respond_labels, respond_answer,
}
use timescale_prometheus.Api.Ranges.{parse_timeout}
use timescale_prometheus.Prelude.{
  ◌==◌, Bool, ◌⊎◌, inl, inr, Option, none, some, List, [], ◌∷◌, ◌++◌, if◌then◌else◌, length,
}

-- What the engine is asked by an instant query.
pub record InstantQuery : Type 0 where
  pub query : Bytes
  pub time : ℤ
  pub timeout : Option ℤ

module _ {F V : Type 0} (parsers : Parsers) where
  -- `queryHandler`, at a time, for the form values of time, timeout and query.
  unfoldable pub query_handler :
      (InstantQuery → Answer F V) → ℤ → Bytes → Bytes → Bytes → Option (Response F V)
  unfolding parse_time_param parse_timeout respond_error respond_answer
  query_handler engine now time timeout query = elim (parse_time_param parsers time now) [
    | inl e ↦ respond_error 400 (some e) (codes "bad_data") new_response
    | inr ts ↦ elim (parse_timeout parsers timeout) [
      | inl e ↦ respond_error 400 (some e) (codes "bad_data") new_response
      | inr limit ↦
          respond_answer (engine (record { query = query; time = ts; timeout = limit }))
            new_response
    ]
  ]

-- `parser.ParseMetricSelector`, `Select` of the querier between two times, with its warnings, and the merge
-- of series sets: the labels of the series that its `At` gives one after another, none for a series that is
-- nil, as that of invalid data is, and the error of the merged set in the end.
pub record SeriesCalls (M S : Type 0) : Type 0 where
  pub parse_selector : Bytes → Bytes ⊎ M
  pub select : ℤ → ℤ → M → (Bytes ⊎ S) × List Bytes
  pub merge : List S → List (Option (List Label)) × Option Bytes

-- The form of a request for series; `broken` is the error of `ParseForm`.
pub record SeriesForm : Type 0 where
  pub broken : Option Bytes
  pub matches : List Bytes
  pub start : Bytes
  pub end : Bytes

module _ {M S : Type 0} (calls : SeriesCalls M S) where
  unfoldable pub parse_selectors : List Bytes → Bytes ⊎ List M
  parse_selectors [] = inr []
  parse_selectors (s ∷ ss) =
      let rest = parse_selectors ss in
      elim (calls.parse_selector s) [
        | inl e ↦ inl e
        | inr m ↦ elim rest [ inl e ↦ inl e | inr ms ↦ inr (m ∷ ms) ]
      ]

  unfoldable pub select_sets : ℤ → ℤ → List M → (Bytes ⊎ List S) × List Bytes
  select_sets start end [] = (inr [], [])
  select_sets start end (m ∷ ms) =
      let (found, warnings) = calls.select start end m in
      let (rest, more) = select_sets start end ms in
      elim found [
        | inl e ↦ (inl e, warnings)
        | inr s ↦ (elim rest [ inl e ↦ inl e | inr ss ↦ inr (s ∷ ss) ], warnings ++ more)
      ]

-- The times of a request for series.
unfoldable pub check_times : Parsers → SeriesForm → Bytes ⊎ (ℤ × ℤ)
unfolding parse_time_param
check_times parsers form = elim (parse_time_param parsers form.start parsers.min_time) [
  | inl e ↦ inl e
  | inr start ↦ elim (parse_time_param parsers form.end parsers.max_time) [
    | inl e ↦ inl e
    | inr end ↦
        if ltb_ℤ end start
        then inl (codes "end timestamp must not be before start time")
        else inr (start, end)
  ]
]

-- The loop over the merged set; none is the panic on the labels of a series that is nil.
unfoldable pub read_metrics : List (Option (List Label)) → Option (List (List Label))
read_metrics [] = some []
read_metrics (none ∷ ms) = none
read_metrics (some ls ∷ ms) = elim (read_metrics ms) [ none ↦ none | some rest ↦ some (ls ∷ rest) ]

module _ {F V M S : Type 0} (parsers : Parsers) (calls : SeriesCalls M S) where
  -- The end of the handler of series: after the error of the merged set it goes on. The error that is
  -- written there is `err`, which is nil where the code comes to it.
  unfoldable pub respond_series :
      List (Option (List Label)) × Option Bytes → List Bytes → Option (Response F V)
  unfolding read_metrics respond_error respond_labels
  respond_series (found, set_err) warnings =
      let after_error : Option (Response F V) = elim set_err [
        | none ↦ some new_response
        | some _ ↦ respond_error 422 none (codes "execution") new_response
      ] in
      elim (read_metrics found) [
        | none ↦ none
        | some metrics ↦ elim after_error [
          | none ↦ none
          | some w ↦ some (respond_labels (series_type metrics) warnings w)
        ]
      ]

  unfoldable pub find_series : ℤ → ℤ → List Bytes → Option (Response F V)
  unfolding parse_selectors select_sets respond_series respond_error
  find_series start end matches = elim (parse_selectors calls matches) [
    | inl e ↦ respond_error 400 (some e) (codes "bad_data") new_response
    | inr ms ↦
        let (found, warnings) = select_sets calls start end ms in
        elim found [
          | inl e ↦ respond_error 422 (some e) (codes "execution") new_response
          | inr sets ↦ respond_series (calls.merge sets) warnings
        ]
  ]

  -- The handler of series.
  unfoldable pub series : SeriesForm → Option (Response F V)
  unfolding find_series check_times respond_error
  series form =
      let answer : Option (Response F V) = elim (check_times parsers form) [
        | inl e ↦ respond_error 400 (some e) (codes "bad_data") new_response
        | inr times ↦ find_series times.0 times.1 form.matches
      ] in
      let checked : Option (Response F V) =
        if length form.matches == 0
        then respond_error 400 (some (codes "no match[] parameter provided")) (codes "bad_data")
            new_response
        else answer in
      elim form.broken [
        | some e ↦ respond_error 400 (some e) (codes "bad_data") new_response
        | none ↦ checked
      ]

module _ {F V : Type 0} where
  -- `labelsHandler`, for what the querier answers.
  unfoldable pub labels_handler : Bytes ⊎ List Bytes → Option (Response F V)
  unfolding respond_error respond_labels
  labels_handler (inl e) = respond_error 500 (some e) (codes "internal") new_response
  labels_handler (inr names) = some (respond_labels (labels_value names) [] new_response)

  -- `labelValues`, for `model.LabelNameRE.MatchString` and what the querier answers.
  unfoldable pub label_values :
      (Bytes → Bool) → (Bytes → Bytes ⊎ List Bytes) → Bytes → Option (Response F V)
  unfolding respond_error respond_labels
  label_values is_label_name values_of name =
      let answer : Option (Response F V) = elim (values_of name) [
        | inl e ↦ respond_error 500 (some e) (codes "internal") new_response
        | inr values ↦ some (respond_labels (labels_value values) [] new_response)
      ] in
      if is_label_name name
      then answer
      else respond_error 400 (some (codes "invalid label name")) (codes "bad_data") new_response
