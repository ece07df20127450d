-- ===== src/QueryBuilder/Finalizer/Texts.antt =====
-- pkg/pgmodel/query_builder.go: the parameters of a query for samples are numbered in order, after those of
-- the matchers.
use timescale_prometheus.Prelude.Int.{ℤ, pos, ◌+ℤ◌, ltb_ℤ, ℤ_discrete}
use timescale_prometheus.Prelude.Bytes.{Bytes, codes}
use timescale_prometheus.QueryBuilder.{
  fill_in_parameters, count_verbs, number_verbs, decimal, ends_with,
}
use timescale_prometheus.QueryBuilder.Finalizer.{
  Param, MetricTimeRangeFilter, SelectHints, Node, QueryFinalizer, finalize, default_finalizer,
  delta_finalizer, pushed_node, get_query_finalizer, rest_of_query,
  build_timeseries_by_label_clauses_query,
}
use mathlib.Core.Path.{subst, ap₂}
use timescale_prometheus.Prelude.{
  ℕ, suc, ◌+◌, ◌≡◌, ◌≢◌, refl, ap, ◌∙◌, Bool, true, false, inl, inr, Option, none, some, List, [],
  ◌∷◌, ◌++◌, ◌==◌, if◌then◌else◌, length, All, arith, append_assoc, append-nil, Option-cases,
  Bool-cases,
}

-- A text without `%`.
abbrev pub IsPlain : Bytes → Type 0
IsPlain t = All (λ c. c ≢ b'%') t

count_verbs-plain : (t : Bytes) → IsPlain t → count_verbs t ≡ 0
unfolding count_verbs
count_verbs-plain [] h = refl
count_verbs-plain (c ∷ []) h = refl
count_verbs-plain (c ∷ d ∷ cs) h = let rest = count_verbs-plain (d ∷ cs) h.1 in ground arith

number_verbs-plain : (n : ℕ) (t : Bytes) → IsPlain t → number_verbs n t ≡ t
unfolding number_verbs
number_verbs-plain n [] h = refl
number_verbs-plain n (c ∷ []) h = refl
number_verbs-plain n (c ∷ d ∷ cs) h = let rest = number_verbs-plain n (d ∷ cs) h.1 in ground arith

-- A text whose verbs end before another text that has none.
count_verbs-append :
    (p t : Bytes) → ends_with b'%' p ≡ false → IsPlain t → count_verbs (p ++ t) ≡ count_verbs p
unfolding count_verbs ends_with
count_verbs-append [] t e h = count_verbs-plain t h
count_verbs-append (c ∷ []) [] e h = refl
count_verbs-append (c ∷ []) (d ∷ ds) e h = let rest = count_verbs-plain (d ∷ ds) h in ground arith
count_verbs-append (c ∷ d ∷ []) t e h =
    let rest = count_verbs-append (d ∷ []) t e h in
    let none_left = count_verbs-plain t h in ground arith
count_verbs-append (c ∷ d ∷ x ∷ cs) t e h =
    let here = count_verbs-append (x ∷ cs) t e h in
    let rest = count_verbs-append (d ∷ x ∷ cs) t e h in ground arith

number_verbs-append :
    (n : ℕ) (p t : Bytes)
    → ends_with b'%' p ≡ false
    → IsPlain t
    → number_verbs n (p ++ t) ≡ number_verbs n p ++ t
unfolding number_verbs ends_with
number_verbs-append n [] t e h = number_verbs-plain n t h
number_verbs-append n (c ∷ []) [] e h = refl
number_verbs-append n (c ∷ []) (d ∷ ds) e h =
    let rest = number_verbs-plain n (d ∷ ds) h in ground arith
number_verbs-append n (c ∷ d ∷ []) t e h =
    let rest = number_verbs-append n (d ∷ []) t e h in
    let plain = number_verbs-plain (suc n) t h in
    let digits = append_assoc (decimal (suc n) n) [] t in
    let same = append-nil (decimal (suc n) n) in ground arith
number_verbs-append n (c ∷ d ∷ x ∷ cs) t e h =
    let here = number_verbs-append (suc n) (x ∷ cs) t e h in
    let rest = number_verbs-append n (d ∷ x ∷ cs) t e h in
    let digits = append_assoc (decimal (suc n) n) (number_verbs (suc n) (x ∷ cs)) t in ground arith

-- The head of a query: what it selects.
unfoldable pub head_of : QueryFinalizer → Bytes
head_of qf = codes "SELECT s.labels, " ++ qf.time_clause ++ codes ", " ++ qf.value_clause

abbrev pub new_params : QueryFinalizer → List Param
new_params qf = qf.time_params ++ qf.value_params

-- A finalizer whose head asks for its parameters.
record IsFilled (rest : Bytes) (values : List Param) (qf : QueryFinalizer) : Type 0 where
  verbs : count_verbs (head_of qf) ≡ length (new_params qf)
  closed : ends_with b'%' (head_of qf) ≡ false
  same_rest : qf.rest_of_query ≡ rest
  same_values : qf.rest_of_query_params ≡ values

default-IsFilled :
    (rest : Bytes) (values : List Param) → IsFilled rest values (default_finalizer rest values)
unfolding head_of count_verbs ends_with
default-IsFilled rest values = record {
  verbs = refl;
  closed = refl;
  same_rest = refl;
  same_values = refl;
}

delta-IsFilled :
    (rest : Bytes) (values : List Param) (h : SelectHints) (step : ℤ)
    → IsFilled rest values (delta_finalizer rest values h step)
unfolding head_of count_verbs ends_with
delta-IsFilled rest values h step = record {
  verbs = refl;
  closed = refl;
  same_rest = refl;
  same_values = refl;
}

get_query_finalizer-IsFilled :
    (installed : Bool) (rest : Bytes) (values : List Param) (hints : Option SelectHints)
    (path : List Node) (qf : QueryFinalizer) (top : Option Node)
    → get_query_finalizer installed rest values hints path ≡ some (qf, top)
    → IsFilled rest values qf
unfolding get_query_finalizer
get_query_finalizer-IsFilled installed rest values hints path qf top e =
    elim (Option-cases (pushed_node installed hints path)) [
      | inl f ↦
          let same : default_finalizer rest values ≡ qf = ground arith in
          subst (IsFilled rest values) same (default-IsFilled rest values)
      | inr ((n, h), f) ↦ elim (Bool-cases (ltb_ℤ (pos 0) h.step)) [
        | inl b ↦
            let same : delta_finalizer rest values h h.step ≡ qf = ground arith in
            subst (IsFilled rest values) same (delta-IsFilled rest values h h.step)
        | inr b ↦ elim (ℤ_discrete (h.start +ℤ h.range) h.end) [
          | yes k ↦
              let same : delta_finalizer rest values h (pos 1000) ≡ qf = ground arith in
              subst (IsFilled rest values) same (delta-IsFilled rest values h (pos 1000))
          | no k ↦ absurd (ground arith)
        ]
      ]
    ]

equal_numbers : (a b : ℕ) → a ≡ b → (a == b) ≡ true
equal_numbers a b e = ground arith

fill_in_parameters_lem :
    {A : Type 0} (query : Bytes) (existing_args new_args : List A)
    → count_verbs query ≡ length new_args
    → fill_in_parameters query existing_args new_args
      ≡ some (number_verbs (length existing_args + 1) query, existing_args ++ new_args)
unfolding fill_in_parameters
fill_in_parameters_lem query existing_args new_args e =
    ap
      (λ b.
        if b
        then some (number_verbs (length existing_args + 1) query, existing_args ++ new_args)
        else none)
      (equal_numbers (count_verbs query) (length new_args) e)

-- If the text after the selected columns has no % and the finalizer is found, the query for a
-- metric with label clauses is that of the head with its verbs numbered on from the parameters of
-- the clauses, followed by that text as it is, and its parameters are those of the clauses and the
-- new ones of the head, as many as it has verbs.
pub build_timeseries_by_label_clauses_query_lem :
    (sanitize : Bytes → Bytes → Bytes) (installed : Bool) (filter : MetricTimeRangeFilter)
    (cases : List Bytes) (values : List Param) (hints : Option SelectHints) (path : List Node)
    (qf : QueryFinalizer) (top : Option Node)
    → IsPlain (rest_of_query sanitize filter cases)
    → get_query_finalizer installed (rest_of_query sanitize filter cases) values hints path
      ≡ some (qf, top)
    → (count_verbs (head_of qf) ≡ length (new_params qf))
      × (build_timeseries_by_label_clauses_query sanitize installed filter cases values hints path
          ≡ some (
            number_verbs (length values + 1) (head_of qf) ++ rest_of_query sanitize filter cases,
            values ++ new_params qf,
            top,
          ))
unfolding build_timeseries_by_label_clauses_query
build_timeseries_by_label_clauses_query_lem sanitize installed filter cases values hints path qf top
      plain e =
    let rest = rest_of_query sanitize filter cases in
    let f = get_query_finalizer-IsFilled installed rest values hints path qf top e in
    let same_rest = f.same_rest in
    let same_values = f.same_values in
    let count = count_verbs-append (head_of qf) rest f.closed plain in
    let numbers = number_verbs-append (length values + 1) (head_of qf) rest f.closed plain in
    let verbs = f.verbs in
    let filled =
      fill_in_parameters_lem (head_of qf ++ rest) values (new_params qf) (count ∙ verbs)
      ∙ ap (λ q. some (q, values ++ new_params qf)) numbers in
    let final : finalize qf
        ≡ some (number_verbs (length values + 1) (head_of qf) ++ rest, values ++ new_params qf) =
      unfold finalize head_of in
      (ap₂ (λ x y. fill_in_parameters (head_of qf ++ x) y (new_params qf)) same_rest same_values
        ∙ filled) in
    (verbs, ground arith)
