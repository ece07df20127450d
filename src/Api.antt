-- ===== src/Api.antt =====
-- pkg/api/common.go: the response of a handler, and the answers to queries. Times are nanoseconds since the
-- epoch. The parsing of numbers, times, durations and selectors, and the query engine are parameters, and so
-- are the texts of errors. Cross-origin headers, compression of responses and logging are left out.
pub mod Ranges
pub mod Steps
pub mod Queries
pub mod Answers
pub mod Reads
use timescale_prometheus.Labels.{Label}
use timescale_prometheus.Json.{Sample, Series}
use timescale_prometheus.Prelude.Int.{ℤ}
use timescale_prometheus.Prelude.Bytes.{Bytes, Bytes-discrete, codes}
use timescale_prometheus.Prelude.{
  ℕ, ◌≡◌, Bool, true, false, ◌⊎◌, inl, inr, Option, none, some, List, [], ◌∷◌, ◌++◌, ltb, ◌==◌, ite,
  if◌then◌else◌, length,
}

-- The value of a result: a vector, a matrix, another value of the engine, or strings or series.
pub data Value (F V : Type 0) : Type 0 where
  vector : List (Sample F) → Value F V
  matrix : List (Series F) → Value F V
  other_value : V → Value F V
  labels_value : List Bytes → Value F V
  series_type : List (List Label) → Value F V

-- What a handler writes: an error with its type and text, or a value with its warnings.
pub data Body (F V : Type 0) : Type 0 where
  error_body : Bytes → Bytes → Body F V
  success_body : Value F V → List Bytes → Body F V

-- `http.ResponseWriter`: the first status is the one that is sent, and headers that are set after it are not.
pub record Response (F V : Type 0) : Type 0 where
  pub status : Option ℕ
  pub json : Bool
  pub no_store : Bool
  pub bodies : List (Body F V)

module _ {F V : Type 0} where
  abbrev pub new_response : Response F V
  new_response = record { status = none; json = false; no_store = false; bodies = [] }

  -- `w.Header().Set` of the content type and of the cache control, and `w.WriteHeader`.
  unfoldable pub set_json : Response F V → Response F V
  set_json w = elim w.status [ some _ ↦ w | none ↦ record w { json = true } ]

  unfoldable pub set_no_store : Response F V → Response F V
  set_no_store w = elim w.status [ some _ ↦ w | none ↦ record w { no_store = true } ]

  unfoldable pub write_header : ℕ → Response F V → Response F V
  write_header status w = elim w.status [ some _ ↦ w | none ↦ record w { status = some status } ]

  unfoldable pub encode : Body F V → Response F V → Response F V
  encode body w = record w { bodies = w.bodies ++ body ∷ [] }

  -- The status of a result that has a value or none.
  unfoldable pub set_response_headers : Bool → List Bytes → Response F V → Response F V
  unfolding set_json set_no_store write_header
  set_response_headers has_value warnings w =
      let typed = set_json w in
      let cached = if ltb 0 (length warnings) then set_no_store typed else typed in
      write_header (if has_value then 200 else 204) cached

  -- The three ways of `respondQuery` to write a value are told apart by the value.
  unfoldable pub respond_query : Value F V → List Bytes → Response F V → Response F V
  unfolding set_response_headers encode
  respond_query value warnings w =
      encode (success_body value warnings) (set_response_headers true warnings w)

  -- `respondLabels` and `respondSeries`, which write no warnings.
  unfoldable pub respond_labels : Value F V → List Bytes → Response F V → Response F V
  unfolding set_response_headers encode
  respond_labels value warnings w =
      encode (success_body value []) (set_response_headers true warnings w)

  -- None is the panic of `err.Error()` on an error that is nil.
  unfoldable pub respond_error : ℕ → Option Bytes → Bytes → Response F V → Option (Response F V)
  unfolding set_json set_no_store write_header encode
  respond_error status none type w = none
  respond_error status (some err) type w =
      some (encode (error_body type err) (write_header status (set_no_store (set_json w))))

-- The error of `Exec`.
pub data ExecError : Type 0 where
  canceled timed_out storage_failed execution_failed : Bytes → ExecError

-- What the engine does with a query: the text is refused, `Exec` fails, or there is a value with warnings.
pub data Answer (F V : Type 0) : Type 0 where
  refused : Bytes → Answer F V
  exec_failed : ExecError → Answer F V
  answered : Value F V → List Bytes → Answer F V

module _ {F V : Type 0} where
  unfoldable pub respond_exec_error : ExecError → Response F V → Option (Response F V)
  unfolding respond_error
  respond_exec_error (canceled e) w = respond_error 503 (some e) (codes "canceled") w
  respond_exec_error (timed_out e) w = respond_error 503 (some e) (codes "timeout") w
  respond_exec_error (storage_failed e) w = respond_error 500 (some e) (codes "internal") w
  respond_exec_error (execution_failed e) w = respond_error 422 (some e) (codes "execution") w

  -- The end of the two handlers of queries, from the call of the engine on.
  unfoldable pub respond_answer : Answer F V → Response F V → Option (Response F V)
  unfolding respond_error respond_exec_error respond_query
  respond_answer (refused e) w = respond_error 400 (some e) (codes "bad_data") w
  respond_answer (exec_failed e) w = respond_exec_error e w
  respond_answer (answered value warnings) w = some (respond_query value warnings w)

-- What the standard library and the packages of Prometheus answer: `strconv.ParseFloat` with `time.Unix` of
-- the number that it finds, `time.Parse`, `strconv.ParseFloat` as a number of seconds, with whether it
-- overflows, and `model.ParseDuration`.
pub record Parsers : Type 0 where
  pub unix_time : Bytes → Option ℤ
  pub rfc3339_time : Bytes → Option ℤ
  pub float_duration : Bytes → Option (Option ℤ)
  pub model_duration : Bytes → Option ℤ
  pub min_time : ℤ
  pub max_time : ℤ
  pub min_time_formatted : Bytes
  pub max_time_formatted : Bytes

module _ (parsers : Parsers) where
  -- The texts of the errors stand for those of the code, which name the value.
  unfoldable pub parse_time : Bytes → Bytes ⊎ ℤ
  parse_time s =
      let boundary : Bytes ⊎ ℤ =
        ite (Bytes-discrete s parsers.min_time_formatted) (inr parsers.min_time) (
          ite (Bytes-discrete s parsers.max_time_formatted) (inr parsers.max_time)
            (inl (codes "cannot parse to a valid timestamp"))) in
      elim (parsers.unix_time s) [
        | some t ↦ inr t
        | none ↦ elim (parsers.rfc3339_time s) [ some t ↦ inr t | none ↦ boundary ]
      ]

  unfoldable pub parse_duration : Bytes → Bytes ⊎ ℤ
  parse_duration s = elim (parsers.float_duration s) [
    | some (some d) ↦ inr d
    | some none ↦ inl (codes "overflows int64")
    | none ↦ elim (parsers.model_duration s) [
      | some d ↦ inr d
      | none ↦ inl (codes "cannot parse to a valid duration")
    ]
  ]

  -- A parameter that is not given has a default.
  unfoldable pub parse_time_param : Bytes → ℤ → Bytes ⊎ ℤ
  unfolding parse_time
  parse_time_param [] default_value = inr default_value
  parse_time_param (c ∷ cs) default_value = parse_time (c ∷ cs)
