-- ===== src/Tests/ApiTests.antt =====
-- Runs and instances for the handlers of pkg/api and the series sets of pkg/pgmodel/series_set.go.
use timescale_prometheus.Prelude.Int.{leb_ℤ, div_ℤ, ◌+ℤ◌, ℤ, pos, ◌-ℤ◌}
use timescale_prometheus.Prelude.Bytes.{Bytes, codes}
use timescale_prometheus.Prelude.{
  ℕ, ◌≡◌, ◌↔◌, refl, true, false, ◌⊎◌, inl, inr, some, none, List, [], ◌∷◌, length, arith,
}
use timescale_prometheus.Labels.{Label}
use timescale_prometheus.Api.{Answer, refused, answered, Value, Parsers, parse_time, parse_duration}
use timescale_prometheus.Api.Ranges.{
  RangeForm, RangeQuery, check_range, check_step, parse_timeout, sub_time, max_points, query_range,
}
use timescale_prometheus.Api.Steps.{milliseconds, num_steps, HasSteps, check_range-num_steps}
use timescale_prometheus.Api.Queries.{
  InstantQuery, query_handler, labels_handler, label_values, SeriesCalls, SeriesForm, series,
}
use timescale_prometheus.Api.Answers.{
  AnswersOnce, handlers_answer_once, ReachesError, series_panics,
}
use timescale_prometheus.Api.Reads.{ReadCalls, read}
use timescale_prometheus.Api.Reads.Delivery.{request_of, IsRead, read-IsRead}
use timescale_prometheus.SeriesSet.ResultSets.{
  scanned, scan_failed, Rows, build_series_set, read_series, series_of,
}
use timescale_prometheus.SeriesSet.ResultSets.Errors.{
  all_series, last_error, count_rows, read_series_lem, read_series_loses,
}

-- Every text is its length, in seconds.
abbrev seconds : Bytes → ℤ
seconds s = pos (length s)

abbrev parsers : Parsers
parsers = record {
  unix_time = λ s. some (seconds s);
  rfc3339_time = λ _. none;
  float_duration = λ s. some (some (seconds s));
  model_duration = λ _. none;
  min_time = pos 0;
  max_time = pos 100;
  min_time_formatted = [];
  max_time_formatted = [];
}

abbrev range_form : RangeForm
range_form = record {
  start = codes "a";
  end = codes "abcd";
  step = codes "a";
  timeout = [];
  query = codes "up";
}

abbrev range_query_asked : RangeQuery
range_query_asked = record {
  query = codes "up";
  start = pos 1;
  end = pos 4;
  step = pos 1;
  timeout = none;
}

abbrev up : Value ℕ ℕ
up = Value.labels_value []

abbrev range_engine : RangeQuery → Answer ℕ ℕ
range_engine q = answered up []

abbrev instant_engine : InstantQuery → Answer ℕ ℕ
instant_engine q = refused (codes "parse error")

accepted : check_range parsers range_form ≡ inr range_query_asked
unfolding check_range parse_time parse_duration check_step sub_time parse_timeout ◌-ℤ◌
accepted = refl

check_range-num_steps_example : HasSteps range_query_asked
check_range-num_steps_example =
    check_range-num_steps parsers range_form range_query_asked (omega arith) (omega arith)
      (unfold ◌-ℤ◌ in omega arith) accepted

-- A step of 1.9999 milliseconds over 21 seconds passes the check, and is evaluated at 21,001 times.
abbrev cut_step : RangeQuery
cut_step = record {
  query = codes "up";
  start = pos 0;
  end = pos 21000000000;
  step = pos 1999900;
  timeout = none;
}

cut_step_asked :
    (leb_ℤ (div_ℤ (sub_time cut_step.end cut_step.start) 1999900) (pos max_points) ≡ true)
    × (num_steps cut_step ≡ some (pos 21001))
unfolding sub_time num_steps milliseconds ◌-ℤ◌ ◌+ℤ◌
cut_step_asked = (refl, refl)

handlers_answer_once_example :
    AnswersOnce (query_range parsers range_engine range_form)
    × AnswersOnce (query_handler parsers instant_engine (pos 7) [] [] (codes "up"))
    × AnswersOnce (labels_handler {F = ℕ} {V = ℕ} (inl (codes "no connection")))
    × AnswersOnce (label_values {F = ℕ} {V = ℕ} (λ _. true) (λ name. inr (name ∷ [])) (codes "job"))
handlers_answer_once_example =
    handlers_answer_once parsers range_engine instant_engine range_form (pos 7) [] [] (codes "up")
      (inl (codes "no connection")) (λ _. true) (λ name. inr (name ∷ [])) (codes "job")

-- A querier whose merged sets have a series that is nil.
abbrev broken_sets : SeriesCalls Bytes ℕ
broken_sets = record {
  parse_selector = λ s. inr s;
  select = λ _ _ _. (inr 1, []);
  merge = λ _. (some [] ∷ none ∷ some [] ∷ [], none);
}

abbrev series_form : SeriesForm
series_form = record { broken = none; matches = codes "up" ∷ []; start = []; end = [] }

series_panics_example :
    (series {F = ℕ} {V = ℕ} parsers broken_sets series_form ≡ none)
    ↔ ReachesError parsers broken_sets series_form
series_panics_example = series_panics parsers broken_sets series_form

-- Bodies are numbers; a request of n has the queries n and 0, and the query 5 fails.
abbrev read_calls : ReadCalls ℕ ℕ ℕ ℕ
read_calls = record {
  decode = λ b. some b;
  unmarshal = λ b. some (b ∷ 0 ∷ []);
  query = λ q. inr q;
  marshal = λ ts. some (length ts);
  encode = λ b. b;
  write = λ _. true;
}

read-IsRead_example :
    IsRead read_calls
      (request_of read_calls (some 3))
      (record { received = 4; failed = 1 })
      (read read_calls (some 3) (record { received = 4; failed = 1 }))
read-IsRead_example = read-IsRead read_calls (some 3) (record { received = 4; failed = 1 })

abbrev no_labels : List ℤ → ℕ ⊎ List Label
no_labels ids = inr []

-- A result set that breaks off after a row, and one that is read to its end.
abbrev broken_off : Rows ℕ ℕ
broken_off = record {
  current = none;
  left = scanned (pos 1 ∷ []) [] [] ∷ [];
  failure = some 8;
  closed = false;
}

abbrev whole : Rows ℕ ℕ
whole = record {
  current = none;
  left = scan_failed 3 ∷ scanned (pos 1 ∷ []) [] [] ∷ [];
  failure = none;
  closed = false;
}

read_series_lem_example :
    ((read_series no_labels 4 (build_series_set (broken_off ∷ whole ∷ []))).0
      ≡ all_series no_labels (broken_off ∷ whole ∷ []))
    × ((read_series no_labels 4 (build_series_set (broken_off ∷ whole ∷ []))).1.err
        ≡ last_error no_labels none (broken_off ∷ whole ∷ []))
read_series_lem_example =
    read_series_lem no_labels 4 (broken_off ∷ whole ∷ []) (unfold count_rows in omega arith)

read_series_loses_example :
    (read_series no_labels 4 (build_series_set (broken_off ∷ whole ∷ []))).1.err ≡ none
read_series_loses_example =
    read_series_loses no_labels 4 (broken_off ∷ []) whole (scan_failed 3 ∷ [])
      (scanned (pos 1 ∷ []) [] []) (unfold count_rows in omega arith) refl
      (unfold series_of in refl) refl
