-- ===== src/QueryBuilder/Selection.antt =====
-- pkg/pgmodel/query_builder.go: the clause of a matcher selects the series that the matcher matches.
use timescale_prometheus.Prelude.Bytes.{Bytes, Bytes-discrete}
use timescale_prometheus.Labels.{Label}
use timescale_prometheus.QueryBuilder.{
  MatchType, match_equal, match_not_equal, match_regexp, match_not_regexp, Matcher, Comparison,
  equals, differs, like, unlike, SubQuery, sub_query, clause_value,
}
use timescale_prometheus.QueryBuilder.Patterns.{
  whole_pattern, Anchoring, IsSimple, anchor_value-whole,
}
use timescale_prometheus.Prelude.{
  sym, ap, ◌∙◌, ◌⊎◌, ◌≡◌, refl, ◌≢◌, Bool, true, false, not, ◌&&◌, ◌||◌, inl, inr, List, [], ◌∷◌,
  ite, if◌then◌else◌, arith, Bool-cases,
}

unfoldable pub is_same : Bytes → Bytes → Bool
is_same a b = ite (Bytes-discrete a b) true false

is_same_eq : (a b : Bytes) → is_same a b ≡ true → a ≡ b
unfolding is_same
is_same_eq a b h = ground arith

is_same_ne : (a b : Bytes) → a ≢ b → is_same a b ≡ false
unfolding is_same
is_same_ne a b h = ground arith

is_same_self : (a : Bytes) → is_same a a ≡ true
unfolding is_same
is_same_self a = ground arith

-- The comparison of a clause that is not negated, and the other one.
unfoldable pub plain : MatchType → Comparison
plain match_equal = equals
plain match_not_equal = differs
plain match_regexp = like
plain match_not_regexp = unlike

unfoldable pub opposite : Comparison → Comparison
opposite equals = differs
opposite differs = equals
opposite like = unlike
opposite unlike = like

sub_query_pair :
    (t : MatchType) (b : Bool)
    → sub_query t b ≡ record { negated = b; comparison = if b then opposite (plain t) else plain t }
unfolding sub_query plain opposite
sub_query_pair match_equal true = refl
sub_query_pair match_equal false = refl
sub_query_pair match_not_equal true = refl
sub_query_pair match_not_equal false = refl
sub_query_pair match_regexp true = refl
sub_query_pair match_regexp false = refl
sub_query_pair match_not_regexp true = refl
sub_query_pair match_not_regexp false = refl

MatchType-cases :
    (t : MatchType)
    → (t ≡ match_equal) ⊎ ((t ≡ match_not_equal) ⊎ ((t ≡ match_regexp) ⊎ (t ≡ match_not_regexp)))
MatchType-cases match_equal = inl refl
MatchType-cases match_not_equal = inr (inl refl)
MatchType-cases match_regexp = inr (inr (inl refl))
MatchType-cases match_not_regexp = inr (inr (inr refl))

abbrev pub IsRegexp : MatchType → Type 0
IsRegexp t = (t ≡ match_regexp) ⊎ (t ≡ match_not_regexp)

-- The value of a label, empty for a name that is not there.
unfoldable pub value_of : Bytes → List Label → Bytes
unfolding is_same
value_of name [] = []
value_of name (l ∷ ls) =
    let rest = value_of name ls in if is_same l.name name then l.value else rest

-- Labels with distinct names and no empty value, as they are stored.
unfoldable pub IsLabelSet : List Label → Type 0
IsLabelSet [] = true ≡ true
IsLabelSet (l ∷ ls) = (l.value ≢ []) × (value_of l.name ls ≡ []) × IsLabelSet ls

-- What PostgreSQL makes of a subquery; `pg_match pattern text` is its `~`.
module _ (pg_match : Bytes → Bytes → Bool) where
  unfoldable pub compares : Comparison → Bytes → Bytes → Bool
  unfolding is_same
  compares equals value arg = is_same value arg
  compares differs value arg = not (is_same value arg)
  compares like value arg = pg_match arg value
  compares unlike value arg = not (pg_match arg value)

  -- Some label has the key, and a value that compares.
  unfoldable pub overlaps : Comparison → Bytes → Bytes → List Label → Bool
  unfolding compares
  overlaps c key arg [] = false
  overlaps c key arg (l ∷ ls) =
      (is_same l.name key && compares c l.value arg) || overlaps c key arg ls

  unfoldable pub selects : SubQuery → Bytes → Bytes → List Label → Bool
  selects q key arg ls =
      if q.negated then not (overlaps q.comparison key arg ls) else overlaps q.comparison key arg ls

  -- What `Matches` of a matcher is documented to do, for regular expressions that PostgreSQL reads as Prometheus
  -- does: they match whole values.
  pub record Matching (matches : Matcher → Bytes → Bool) : Type 0 where
    pub equal_matches :
        (m : Matcher) (v : Bytes) → m.type ≡ match_equal → matches m v ≡ is_same v m.value
    pub not_equal_matches :
        (m : Matcher) (v : Bytes) → m.type ≡ match_not_equal → matches m v ≡ not (is_same v m.value)
    pub regexp_matches :
        (m : Matcher) (v : Bytes)
        → m.type ≡ match_regexp
        → matches m v ≡ pg_match (whole_pattern m.value) v
    pub not_regexp_matches :
        (m : Matcher) (v : Bytes)
        → m.type ≡ match_not_regexp
        → matches m v ≡ not (pg_match (whole_pattern m.value) v)

  overlaps_value :
      (c : Comparison) (key arg : Bytes) (ls : List Label)
      → IsLabelSet ls
      → overlaps c key arg ls
        ≡ (if is_same (value_of key ls) [] then false else compares c (value_of key ls) arg)
  unfolding overlaps value_of IsLabelSet is_same
  overlaps_value c key arg [] h = ground arith
  overlaps_value c key arg (l ∷ ls) h =
      let rest = overlaps_value c key arg ls h.2 in
      elim (Bool-cases (is_same l.name key)) [
        | inl e ↦
            let same = is_same_eq l.name key e in
            let absent : value_of key ls ≡ [] = ap (λ k. value_of k ls) (sym same) ∙ h.1 in
            let none_there : overlaps c key arg ls ≡ false =
              rest
              ∙ ap (λ v. if is_same v [] then false else compares c v arg) absent
              ∙ ap (λ b. if b then false else compares c [] arg) (is_same_self []) in
            let full = is_same_ne l.value [] h.0 in ground arith
        | inr e ↦ ground arith
      ]

  compares-opposite :
      (c : Comparison) (v arg : Bytes) → compares (opposite c) v arg ≡ not (compares c v arg)
  unfolding compares opposite
  compares-opposite equals v arg = refl
  compares-opposite differs v arg = ground arith
  compares-opposite like v arg = refl
  compares-opposite unlike v arg = ground arith

  matches_plain :
      (matches : Matcher → Bytes → Bool) (m : Matcher) (v : Bytes)
      → Matching matches
      → Anchoring pg_match
      → (IsRegexp m.type → IsSimple pg_match m.value)
      → matches m v ≡ compares (plain m.type) v (clause_value m)
  unfolding plain clause_value compares
  matches_plain matches m v laws anchors simple = elim (MatchType-cases m.type) [
    | inl t ↦ let l = laws.equal_matches m v t in ground arith
    | inr (inl t) ↦ let l = laws.not_equal_matches m v t in ground arith
    | inr (inr (inl t)) ↦
        let l = laws.regexp_matches m v t in
        let a = anchor_value-whole pg_match m.value v anchors (simple (inl t)) in ground arith
    | inr (inr (inr t)) ↦
        let l = laws.not_regexp_matches m v t in
        let a = anchor_value-whole pg_match m.value v anchors (simple (inr t)) in ground arith
  ]

  -- For labels with distinct names and no empty value, the clause that a matcher is given selects a
  -- series exactly if the matcher matches the value of its label, empty for a label that is not
  -- there, where Matches compares values as documented and a regular expression p matches what
  -- PostgreSQL matches with ^(?:p)$; in PostgreSQL a second ^ at the start, and a second $ at the
  -- end of a pattern that does not end in a backslash, change nothing; and the expression of the
  -- matcher needs no group between its anchors, as one with alternatives does, and does not end in
  -- an escaped dollar sign.
  pub selects-Matching :
      (matches : Matcher → Bytes → Bool) (m : Matcher) (ls : List Label)
      → Matching matches
      → Anchoring pg_match
      → (IsRegexp m.type → IsSimple pg_match m.value)
      → IsLabelSet ls
      → selects (sub_query m.type (matches m [])) m.name (clause_value m) ls
        ≡ matches m (value_of m.name ls)
  unfolding selects
  selects-Matching matches m ls laws anchors simple set =
      let v = value_of m.name ls in
      let c = plain m.type in
      let arg = clause_value m in
      let q = sub_query_pair m.type (matches m []) in
      let a = overlaps_value c m.name arg ls set in
      let b = overlaps_value (opposite c) m.name arg ls set in
      let o = compares-opposite c v arg in
      let p = matches_plain matches m v laws anchors simple in
      let empty : is_same v [] ≡ true → matches m v ≡ matches m [] =
        λ e. ap (matches m) (is_same_eq v [] e) in
      elim (Bool-cases (is_same v [])) [
        | inl e ↦ let same = empty e in ground arith
        | inr e ↦ ground arith
      ]
