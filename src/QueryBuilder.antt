-- ===== src/QueryBuilder.antt =====
-- pkg/pgmodel/query_builder.go: from label matchers to SQL clauses with numbered parameters. The method
-- `Matches` of a matcher, of the Prometheus library, is a parameter.
pub mod Clauses
pub mod Anchors
pub mod Patterns
pub mod Selection
pub mod Finalizer
pub mod TimeSeries
use timescale_prometheus.Prelude.Bytes.{Bytes, codes, Bytes-discrete}
use timescale_prometheus.Labels.{metric_name_label_name}
use timescale_prometheus.Prelude.{
  ℕ, zero, suc, ◌+◌, ◌*◌, ◌/◌, ◌%◌, Bool, true, false, not, ◌&&◌, Option, none, some, List, [], ◌∷◌,
  ◌++◌, ite, ltb, ◌==◌, if◌then◌else◌, length,
}

-- `labels.MatchType` and `labels.Matcher`.
pub data MatchType : Type 0 where
  match_equal match_not_equal match_regexp match_not_regexp : MatchType

pub record Matcher : Type 0 where
  pub type : MatchType
  pub name : Bytes
  pub value : Bytes

-- The subqueries differ in a leading NOT and in the comparison of the value.
pub data Comparison : Type 0 where
  equals differs like unlike : Comparison

pub record SubQuery : Type 0 where
  pub negated : Bool
  pub comparison : Comparison

abbrev pub comparison_sql : Comparison → Bytes
comparison_sql equals = codes "="
comparison_sql differs = codes "!="
comparison_sql like = codes "~"
comparison_sql unlike = codes "!~"

-- The texts `subQueryEQ`, `subQueryEQMatchEmpty`, ...
unfoldable pub sql : SubQuery → Bytes
sql q =
    (if q.negated then codes "NOT " else [])
    ++ codes
        "labels && (SELECT COALESCE(array_agg(l.id), array[]::int[]) FROM _prom_catalog.label l "
    ++ codes "WHERE l.key = $%d and l.value "
    ++ comparison_sql q.comparison
    ++ codes " $%d)"

-- The choice of `buildSubQueries` by the type of the matcher, and whether it matches the empty value.
unfoldable pub sub_query : MatchType → Bool → SubQuery
sub_query match_equal false = record { negated = false; comparison = equals }
sub_query match_equal true = record { negated = true; comparison = differs }
sub_query match_not_equal false = record { negated = false; comparison = differs }
sub_query match_not_equal true = record { negated = true; comparison = equals }
sub_query match_regexp false = record { negated = false; comparison = like }
sub_query match_regexp true = record { negated = true; comparison = unlike }
sub_query match_not_regexp false = record { negated = false; comparison = unlike }
sub_query match_not_regexp true = record { negated = true; comparison = like }

-- Whether a text, which is not empty, starts or ends with a character.
unfoldable pub starts_with : ℕ → Bytes → Bool
starts_with c [] = false
starts_with c (d ∷ ds) = d == c

unfoldable pub ends_with : ℕ → Bytes → Bool
ends_with c [] = false
ends_with c (d ∷ []) = d == c
ends_with c (d ∷ e ∷ es) = ends_with c (e ∷ es)

-- `anchorValue`
unfoldable pub anchor_value : Bytes → Bytes
unfolding starts_with ends_with
anchor_value [] = codes "^$"
anchor_value (c ∷ cs) =
    let str = c ∷ cs in
    if starts_with b'^' str && ends_with b'$' str
    then str
    else if starts_with b'^' str
    then str ++ codes "$"
    else if ends_with b'$' str
    then b'^' ∷ str
    else b'^' ∷ str ++ codes "$"

-- The value that a matcher's clause is given.
unfoldable pub clause_value : Matcher → Bytes
unfolding anchor_value
clause_value m = elim m.type [
  | match_equal ↦ m.value
  | match_not_equal ↦ m.value
  | match_regexp ↦ anchor_value m.value
  | match_not_regexp ↦ anchor_value m.value
]

-- `strings.Count` of `%d`.
unfoldable pub count_verbs : Bytes → ℕ
count_verbs [] = 0
count_verbs (c ∷ []) = 0
count_verbs (c ∷ d ∷ cs) =
    let there = suc (count_verbs cs) in
    let rest = count_verbs (d ∷ cs) in if c == b'%' && d == b'd' then there else rest

-- A number in decimal, on fuel that covers its digits.
unfoldable pub decimal : ℕ → ℕ → Bytes
decimal zero n = []
decimal (suc fuel) n =
    let more = decimal fuel (n / 10) in
    let digit = (b'0' + n % 10) ∷ [] in if ltb n 10 then digit else more ++ digit

-- `fmt.Sprintf` of a text whose only verb is `%d`, with the numbers from the given one on.
unfoldable pub number_verbs : ℕ → Bytes → Bytes
unfolding decimal
number_verbs n [] = []
number_verbs n (c ∷ []) = c ∷ []
number_verbs n (c ∷ d ∷ cs) =
    let there = decimal (suc n) n ++ number_verbs (suc n) cs in
    let rest = c ∷ number_verbs n (d ∷ cs) in if c == b'%' && d == b'd' then there else rest

-- `fillInParameters`; none is its error.
unfoldable pub fill_in_parameters : {A : Type 0} → Bytes → List A → List A → Option (Bytes × List A)
unfolding count_verbs number_verbs
fill_in_parameters query existing_args new_args =
    if count_verbs query == length new_args
    then some (number_verbs (length existing_args + 1) query, existing_args ++ new_args)
    else none

-- `clauseBuilder`
pub record ClauseBuilder : Type 0 where
  pub clauses : List Bytes
  pub args : List Bytes

unfoldable pub add_clause : ClauseBuilder → Bytes → List Bytes → Option ClauseBuilder
unfolding fill_in_parameters
add_clause c clause args = elim (fill_in_parameters clause c.args args) [
  | none ↦ none
  | some (clause', args') ↦ some (record { clauses = c.clauses ++ clause' ∷ []; args = args' })
]

unfoldable pub is_metric_matcher : Matcher → Bool
is_metric_matcher m = elim m.type [
  | match_equal ↦ ite (Bytes-discrete m.name metric_name_label_name) true false
  | match_not_equal ↦ false
  | match_regexp ↦ false
  | match_not_regexp ↦ false
]

module _ (matches : Matcher → Bytes → Bool) where
  -- The loop of `buildSubQueries`: the metric, how many matchers name one, and the builder.
  unfoldable pub add_matchers :
      Bytes → ℕ → ClauseBuilder → List Matcher → Option (Bytes × ℕ × ClauseBuilder)
  unfolding sql sub_query clause_value add_clause is_metric_matcher
  add_matchers metric count cb [] = some (metric, count, cb)
  add_matchers metric count cb (m ∷ ms) =
      elim (add_clause cb (sql (sub_query m.type (matches m []))) (m.name ∷ clause_value m ∷ [])) [
        | none ↦ none
        | some cb' ↦
            let named = add_matchers m.value (count + 1) cb' ms in
            let unnamed = add_matchers metric count cb' ms in
            if is_metric_matcher m then named else unnamed
      ]

  -- `buildSubQueries`; none is its error.
  unfoldable pub build_sub_queries : List Matcher → Option (Bytes × List Bytes × List Bytes)
  unfolding add_matchers
  build_sub_queries ms = elim (add_matchers [] 0 (record { clauses = []; args = [] }) ms) [
    | none ↦ none
    | some (metric, count, cb) ↦
        if length cb.clauses == 0
        then none
        else some (if ltb 1 count then [] else metric, cb.clauses, cb.args)
  ]
