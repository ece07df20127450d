-- ===== src/QueryBuilder/Clauses.antt =====
-- pkg/pgmodel/query_builder.go: the clauses of a query and the numbers of their parameters.
use timescale_prometheus.Prelude.Bytes.{Bytes}
use timescale_prometheus.QueryBuilder.{
  Matcher, Comparison, equals, differs, like, unlike, SubQuery, sql, sub_query, clause_value,
  count_verbs, number_verbs, fill_in_parameters, ClauseBuilder, add_clause, is_metric_matcher,
  add_matchers, build_sub_queries,
}
use timescale_prometheus.Prelude.{
  ℕ, suc, ◌+◌, ◌≡◌, refl, ap, Bool, true, false, inl, inr, some, List, [], ◌∷◌, ◌++◌, if◌then◌else◌,
  length, arith, Bool-cases, length-append, append_assoc, append-nil, ◌==◌,
}

count_verbs-sql_of :
    (b : Bool) (c : Comparison) → count_verbs (sql (record { negated = b; comparison = c })) ≡ 2
unfolding count_verbs sql
count_verbs-sql_of true equals = refl
count_verbs-sql_of true differs = refl
count_verbs-sql_of true like = refl
count_verbs-sql_of true unlike = refl
count_verbs-sql_of false equals = refl
count_verbs-sql_of false differs = refl
count_verbs-sql_of false like = refl
count_verbs-sql_of false unlike = refl

count_verbs-sql : (q : SubQuery) → count_verbs (sql q) ≡ 2
count_verbs-sql q = count_verbs-sql_of q.negated q.comparison

module _ (matches : Matcher → Bytes → Bool) where
  -- The clauses, their parameters numbered from the given number on, two for each clause, the name and
  -- the value of its matcher.
  unfoldable pub numbered : ℕ → List Matcher → List Bytes
  numbered n [] = []
  numbered n (m ∷ ms) = number_verbs n (sql (sub_query m.type (matches m []))) ∷ numbered (n + 2) ms

  unfoldable pub arguments : List Matcher → List Bytes
  arguments [] = []
  arguments (m ∷ ms) = m.name ∷ clause_value m ∷ arguments ms

  -- How many matchers ask for a metric by name, and the name of the last of them.
  unfoldable pub metric_count : List Matcher → ℕ
  metric_count [] = 0
  metric_count (m ∷ ms) = (if is_metric_matcher m then 1 else 0) + metric_count ms

  unfoldable pub last_metric : Bytes → List Matcher → Bytes
  last_metric metric [] = metric
  last_metric metric (m ∷ ms) = last_metric (if is_metric_matcher m then m.value else metric) ms

  last_metric_none :
      (metric : Bytes) (ms : List Matcher) → metric_count ms ≡ 0 → last_metric metric ms ≡ metric
  unfolding metric_count last_metric
  last_metric_none metric [] h = refl
  last_metric_none metric (m ∷ ms) h =
      let rest = last_metric_none metric ms (ground arith) in ground arith

  add_clause-sql :
      (cb : ClauseBuilder) (q : SubQuery) (k v : Bytes)
      → add_clause cb (sql q) (k ∷ v ∷ [])
        ≡ some (record {
          clauses = cb.clauses ++ number_verbs (length cb.args + 1) (sql q) ∷ [];
          args = cb.args ++ k ∷ v ∷ [];
        })
  unfolding add_clause fill_in_parameters
  add_clause-sql cb q k v = let e = count_verbs-sql q in ground arith

  add_matchers_lem :
      (metric : Bytes) (count : ℕ) (cb : ClauseBuilder) (ms : List Matcher)
      → add_matchers matches metric count cb ms
        ≡ some (
          last_metric metric ms,
          count + metric_count ms,
          record {
            clauses = cb.clauses ++ numbered (length cb.args + 1) ms;
            args = cb.args ++ arguments ms;
          },
        )
  unfolding add_matchers numbered arguments metric_count last_metric
  add_matchers_lem metric count cb [] =
      let a = append-nil cb.clauses in let b = append-nil cb.args in ground arith
  add_matchers_lem metric count cb (m ∷ ms) =
      let q = sub_query m.type (matches m []) in
      let first = number_verbs (length cb.args + 1) (sql q) in
      let new = m.name ∷ clause_value m ∷ [] in
      let cb' : ClauseBuilder = record {
        clauses = cb.clauses ++ first ∷ [];
        args = cb.args ++ new;
      } in
      let e : add_clause cb (sql q) new ≡ some cb' = add_clause-sql cb q m.name (clause_value m) in
      let named = add_matchers_lem m.value (count + 1) cb' ms in
      let unnamed = add_matchers_lem metric count cb' ms in
      let size : length cb.args + 1 + 2 ≡ length (cb.args ++ new) + 1 =
        omega (arith, length-append cb.args new) in
      let rest = ap (λ (n : ℕ). numbered n ms) size in
      let a = append_assoc cb.clauses (first ∷ []) (numbered (length (cb.args ++ new) + 1) ms) in
      let b = append_assoc cb.args new (arguments ms) in
      elim (Bool-cases (is_metric_matcher m)) [ inl f ↦ ground arith | inr f ↦ ground arith ]

  -- For at least one matcher buildSubQueries has no error: it makes a clause of each matcher in
  -- order, whose two parameters are numbered on from 1 and stand for its name and value, and the
  -- metric is that of the only equality matcher on the metric name, empty if there are none or
  -- several.
  pub build_sub_queries_lem :
      (m : Matcher) (ms : List Matcher)
      → build_sub_queries matches (m ∷ ms)
        ≡ some (
          if metric_count (m ∷ ms) == 1 then last_metric [] (m ∷ ms) else [],
          numbered 1 (m ∷ ms),
          arguments (m ∷ ms),
        )
  unfolding build_sub_queries
  build_sub_queries_lem m ms =
      let e = add_matchers_lem [] 0 (record { clauses = []; args = [] }) (m ∷ ms) in
      let a = last_metric_none [] (m ∷ ms) in
      let size : length (numbered 1 (m ∷ ms)) ≡ suc (length (numbered 3 ms)) =
        unfold numbered in refl in
      ground arith
