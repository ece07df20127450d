-- ===== src/Api/Answers.antt =====
-- pkg/api: every handler that only reads answers once, but for the handler of series when the merged set has
-- an error or a series that is nil.
use timescale_prometheus.Prelude.Int.{ℤ}
use timescale_prometheus.Prelude.Bytes.{Bytes, codes}
use timescale_prometheus.Api.{
  Value, Answer, refused, exec_failed, answered, canceled, timed_out, storage_failed,
  execution_failed, Parsers, parse_time_param, Response, new_response, Body, error_body,
  success_body, set_json, set_no_store, write_header, encode, set_response_headers, respond_query,
  respond_labels, respond_error, respond_exec_error, respond_answer,
}
use timescale_prometheus.Api.Ranges.{RangeForm, RangeQuery, check_range, query_range, parse_timeout}
use timescale_prometheus.Api.Queries.{
  InstantQuery, query_handler, SeriesCalls, SeriesForm, parse_selectors, select_sets, check_times,
  read_metrics, respond_series, find_series, series, labels_handler, label_values,
}
use timescale_prometheus.Prelude.{
  ℕ, ◌<◌, ◌≤◌, ◌≡◌, ◌↔◌, refl, sym, Bool, true, ◌⊎◌, inl, inr, Option, none, some, List, [], ◌∷◌,
  ltb, length, arith, get_elem?, zero, suc, Sum-cases, Bool-cases, Option-cases,
}
use mathlib.Core.Path.{subst}
use timescale_prometheus.Labels.{Label}

-- The response is sent, as JSON, with a status that fits its one body.
abbrev pub IsStatus : {F V : Type 0} → ℕ → Body F V → Type 0
IsStatus status (error_body type e) = 400 ≤ status
IsStatus status (success_body value warnings) = status ≡ 200

abbrev pub AnswersOnce : {F V : Type 0} → Option (Response F V) → Type 0
AnswersOnce {F} {V} answer =
    (w : Response F V) × (status : ℕ) × (body : Body F V) × (answer ≡ some w)
    × (w.status ≡ some status)
    × (w.json ≡ true)
    × (w.bodies ≡ body ∷ [])
    × IsStatus status body

module _ {F V : Type 0} where
  respond_error-AnswersOnce :
      (status : ℕ) (e type : Bytes)
      → 400 ≤ status
      → AnswersOnce (respond_error {F = F} {V = V} status (some e) type new_response)
  unfolding respond_error set_json set_no_store write_header encode
  respond_error-AnswersOnce status e type high =
      (_, status, error_body type e, refl, refl, refl, refl, high)

  respond_query-AnswersOnce :
      (value : Value F V) (warnings : List Bytes)
      → AnswersOnce (some (respond_query value warnings new_response))
  unfolding respond_query set_response_headers set_json set_no_store write_header encode
  respond_query-AnswersOnce value warnings = elim (Bool-cases (ltb 0 (length warnings))) [
    | inl b ↦
        (_, 200, success_body value warnings, refl, ground arith, ground arith, ground arith, refl)
    | inr b ↦
        (_, 200, success_body value warnings, refl, ground arith, ground arith, ground arith, refl)
  ]

  respond_labels-AnswersOnce :
      (value : Value F V) (warnings : List Bytes)
      → AnswersOnce (some (respond_labels value warnings new_response))
  unfolding respond_labels set_response_headers set_json set_no_store write_header encode
  respond_labels-AnswersOnce value warnings = elim (Bool-cases (ltb 0 (length warnings))) [
    | inl b ↦ (_, 200, success_body value [], refl, ground arith, ground arith, ground arith, refl)
    | inr b ↦ (_, 200, success_body value [], refl, ground arith, ground arith, ground arith, refl)
  ]

  respond_answer-AnswersOnce : (a : Answer F V) → AnswersOnce (respond_answer a new_response)
  unfolding respond_answer respond_exec_error
  respond_answer-AnswersOnce (refused e) =
      respond_error-AnswersOnce 400 e (codes "bad_data") (omega arith)
  respond_answer-AnswersOnce (exec_failed (canceled e)) =
      respond_error-AnswersOnce 503 e (codes "canceled") (omega arith)
  respond_answer-AnswersOnce (exec_failed (timed_out e)) =
      respond_error-AnswersOnce 503 e (codes "timeout") (omega arith)
  respond_answer-AnswersOnce (exec_failed (storage_failed e)) =
      respond_error-AnswersOnce 500 e (codes "internal") (omega arith)
  respond_answer-AnswersOnce (exec_failed (execution_failed e)) =
      respond_error-AnswersOnce 422 e (codes "execution") (omega arith)
  respond_answer-AnswersOnce (answered value warnings) = respond_query-AnswersOnce value warnings

  -- A handler that goes on after a check.
  sum_AnswersOnce :
      {A B : Type 0} (s : A ⊎ B) (f : A → Option (Response F V)) (g : B → Option (Response F V))
      → ((a : A) → AnswersOnce (f a))
      → ((b : B) → AnswersOnce (g b))
      → AnswersOnce (elim s [ inl a ↦ f a | inr b ↦ g b ])
  sum_AnswersOnce (inl a) f g hf hg = hf a
  sum_AnswersOnce (inr b) f g hf hg = hg b

  bad :
      (e : Bytes)
      → AnswersOnce (respond_error {F = F} {V = V} 400 (some e) (codes "bad_data") new_response)
  bad e = respond_error-AnswersOnce 400 e (codes "bad_data") (omega arith)

  labels_handler-AnswersOnce :
      (names : Bytes ⊎ List Bytes) → AnswersOnce (labels_handler {F = F} {V = V} names)
  unfolding labels_handler
  labels_handler-AnswersOnce (inl e) =
      respond_error-AnswersOnce 500 e (codes "internal") (omega arith)
  labels_handler-AnswersOnce (inr names) = respond_labels-AnswersOnce (Value.labels_value names) []

  label_values-AnswersOnce :
      (is_label_name : Bytes → Bool) (values_of : Bytes → Bytes ⊎ List Bytes) (name : Bytes)
      → AnswersOnce (label_values {F = F} {V = V} is_label_name values_of name)
  unfolding label_values labels_handler
  label_values-AnswersOnce is_label_name values_of name =
      let is : Option (Response F V) = labels_handler (values_of name) in
      let is_not : Option (Response F V) =
        respond_error 400 (some (codes "invalid label name")) (codes "bad_data") new_response in
      elim (Sum-cases (values_of name)) [
        | inl (e, f) ↦ elim (Bool-cases (is_label_name name)) [
          | inl b ↦
              let q : label_values {F = F} {V = V} is_label_name values_of name ≡ is =
                ground arith in
              subst AnswersOnce (sym q) (labels_handler-AnswersOnce (values_of name))
          | inr b ↦
              let q : label_values {F = F} {V = V} is_label_name values_of name ≡ is_not =
                ground arith in
              subst AnswersOnce (sym q) (bad (codes "invalid label name"))
        ]
        | inr (l, f) ↦ elim (Bool-cases (is_label_name name)) [
          | inl b ↦
              let q : label_values {F = F} {V = V} is_label_name values_of name ≡ is =
                ground arith in
              subst AnswersOnce (sym q) (labels_handler-AnswersOnce (values_of name))
          | inr b ↦
              let q : label_values {F = F} {V = V} is_label_name values_of name ≡ is_not =
                ground arith in
              subst AnswersOnce (sym q) (bad (codes "invalid label name"))
        ]
      ]

  -- The handlers of range queries, of instant queries, of label names and of label values answer
  -- every request once, whatever the engine and the querier say: as JSON, with one body and one
  -- status, which is 400 or more for an error and 200 for a value.
  pub handlers_answer_once :
      (parsers : Parsers) (range_engine : RangeQuery → Answer F V)
      (engine : InstantQuery → Answer F V) (form : RangeForm) (now : ℤ) (time timeout query : Bytes)
      (names : Bytes ⊎ List Bytes) (is_label_name : Bytes → Bool)
      (values_of : Bytes → Bytes ⊎ List Bytes) (name : Bytes)
      → AnswersOnce (query_range parsers range_engine form)
        × AnswersOnce (query_handler parsers engine now time timeout query)
        × AnswersOnce (labels_handler {F = F} {V = V} names)
        × AnswersOnce (label_values {F = F} {V = V} is_label_name values_of name)
  unfolding query_range query_handler
  handlers_answer_once parsers range_engine engine form now time timeout query names is_label_name
        values_of name =
      (
        sum_AnswersOnce (check_range parsers form) _ _ bad
            (λ q. respond_answer-AnswersOnce (range_engine q)),
        sum_AnswersOnce (parse_time_param parsers time now) _ _ bad (λ ts.
            sum_AnswersOnce (parse_timeout parsers timeout) _ _ bad (λ limit.
              respond_answer-AnswersOnce
                (engine (record { query = query; time = ts; timeout = limit })))),
        labels_handler-AnswersOnce names,
        label_values-AnswersOnce is_label_name values_of name,
      )

-- One of the series of a merged set is nil, or the set has an error.
unfoldable pub IsBroken : List (Option (List Label)) × Option Bytes → Type 0
IsBroken (found, set_err) =
    ((i : ℕ) × (get_elem? found i ≡ some none)) ⊎ ((e : Bytes) × (set_err ≡ some e))

read_metrics_nil :
    (found : List (Option (List Label)))
    → read_metrics found ≡ none
    → (i : ℕ) × (get_elem? found i ≡ some none)
unfolding read_metrics
read_metrics_nil [] h = absurd (ground arith)
read_metrics_nil (none ∷ ms) h = (0, refl)
read_metrics_nil (some ls ∷ ms) h = elim (Option-cases (read_metrics ms)) [
  | inl e ↦ let (i, at) = read_metrics_nil ms e in (suc i, at)
  | inr (rest, e) ↦ absurd (ground arith)
]

read_metrics_panics :
    (found : List (Option (List Label))) (i : ℕ)
    → get_elem? found i ≡ some none
    → read_metrics found ≡ none
unfolding read_metrics
read_metrics_panics [] i h = absurd (ground arith)
read_metrics_panics (none ∷ ms) i h = refl
read_metrics_panics (some ls ∷ ms) zero h = absurd (ground arith)
read_metrics_panics (some ls ∷ ms) (suc i) h = let rest = read_metrics_panics ms i h in ground arith

-- The handler of series comes to a merged set of series that is broken.
unfoldable pub ReachesError : {M S : Type 0} → Parsers → SeriesCalls M S → SeriesForm → Type 0
ReachesError {M} {S} parsers calls form =
    (form.broken ≡ none)
    × (0 < length form.matches)
    × ((times : ℤ × ℤ) × (ms : List M) × (sets : List S) × (warnings : List Bytes) × (check_times
            parsers form
          ≡ inr times)
        × (parse_selectors calls form.matches ≡ inr ms)
        × (select_sets calls times.0 times.1 ms ≡ (inr sets, warnings))
        × IsBroken (calls.merge sets))

module _ {F V M S : Type 0} (parsers : Parsers) (calls : SeriesCalls M S) where
  respond_series_panics :
      (found : List (Option (List Label))) (set_err : Option Bytes) (warnings : List Bytes)
      → (respond_series {F = F} {V = V} parsers calls (found, set_err) warnings ≡ none)
        ↔ IsBroken (found, set_err)
  unfolding respond_series respond_error IsBroken
  respond_series_panics found set_err warnings = (
    λ h. elim (Option-cases (read_metrics found)) [
      | inl e ↦ inl (read_metrics_nil found e)
      | inr (metrics, e) ↦ elim (Option-cases set_err) [
        | inl k ↦ absurd (ground arith)
        | inr k ↦ inr k
      ]
    ],
    λ b. elim (Option-cases (read_metrics found)) [
      | inl e ↦ ground arith
      | inr (metrics, e) ↦ elim b [
        | inl (i, at) ↦ let panics = read_metrics_panics found i at in absurd (ground arith)
        | inr (x, k) ↦ ground arith
      ]
    ],
  )

  find_series_panics :
      (start end : ℤ) (ms : List M) (matches : List Bytes)
      → parse_selectors calls matches ≡ inr ms
      → find_series {F = F} {V = V} parsers calls start end matches ≡ none
      → (sets : List S) × (warnings : List Bytes) × (select_sets calls start end ms
          ≡ (inr sets, warnings))
        × IsBroken (calls.merge sets)
  unfolding find_series respond_error
  find_series_panics start end ms matches f h =
      elim (Sum-cases (select_sets calls start end ms).0) [
        | inl (e, g) ↦ absurd (ground arith)
        | inr (sets, g) ↦
            let (found, set_err) = calls.merge sets in
            let warnings = (select_sets calls start end ms).1 in
            (
              sets,
              warnings,
              ground arith,
              (respond_series_panics found set_err warnings).0 (ground arith),
            )
      ]

  -- The handler of series panics exactly when it comes to a merged set of series one of whose
  -- series is nil, as that of a row of invalid data is, or that has an error in the end: the form
  -- can be parsed and names a selector, the times and all selectors can be read, and all of them
  -- could be selected.
  pub series_panics :
      (form : SeriesForm)
      → (series {F = F} {V = V} parsers calls form ≡ none) ↔ ReachesError parsers calls form
  unfolding series ReachesError respond_error
  series_panics form = (
    λ h. elim (Option-cases form.broken) [
      | inr (e, f) ↦ absurd (ground arith)
      | inl f ↦ elim (Sum-cases (check_times parsers form)) [
        | inl (e, g) ↦ absurd (ground arith)
        | inr (times, g) ↦ elim (Sum-cases (parse_selectors calls form.matches)) [
          | inl (e, k) ↦ absurd (unfold find_series in ground arith)
          | inr (ms, k) ↦
              let here : find_series {F = F} {V = V} parsers calls times.0 times.1 form.matches
                  ≡ none =
                ground arith in
              let some_match : 0 < length form.matches = ground arith in
              let (sets, warnings, l, n) =
                find_series_panics times.0 times.1 ms form.matches k here in
              (f, some_match, (times, ms, sets, warnings, g, k, l, n))
        ]
      ]
    ],
    λ (f, some_match, (times, ms, sets, warnings, g, k, l, n)).
        let (found, set_err) = calls.merge sets in
        let last = (respond_series_panics found set_err warnings).1 n in
        let here : find_series {F = F} {V = V} parsers calls times.0 times.1 form.matches ≡ none =
          unfold find_series in ground arith in
        ground arith,
  )
