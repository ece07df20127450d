-- ===== src/QueryBuilder/Patterns.antt =====
-- pkg/pgmodel/query_builder.go: the anchored pattern matches what Prometheus' pattern for whole values matches.
use timescale_prometheus.Prelude.Bytes.{Bytes, codes}
use timescale_prometheus.QueryBuilder.{starts_with, ends_with, anchor_value}
use timescale_prometheus.QueryBuilder.Anchors.{ends_with-cons}
use timescale_prometheus.Prelude.{
  ℕ, ◌≡◌, refl, sym, ap, ◌∙◌, Bool, true, false, inl, inr, [], ◌∷◌, ◌++◌, arith, Bool-cases,
  append_assoc,
}

-- The pattern that Prometheus compiles for a regular expression, which makes it match whole values.
abbrev pub whole_pattern : Bytes → Bytes
whole_pattern p = codes "^(?:" ++ p ++ codes ")$"

ends_with-split : (c : ℕ) (s : Bytes) → ends_with c s ≡ true → (q : Bytes) × (s ≡ q ++ c ∷ [])
unfolding ends_with
ends_with-split c [] h = absurd (ground arith)
ends_with-split c (d ∷ []) h = ([], ground arith)
ends_with-split c (d ∷ e ∷ es) h =
    let (q, split) = ends_with-split c (e ∷ es) h in (d ∷ q, ap (λ t. d ∷ t) split)

-- PostgreSQL's `~`.
module _ (pg_match : Bytes → Bytes → Bool) where
  -- Anchors in PostgreSQL: one at the start and one at the end may be written twice; a backslash would
  -- escape the first of two at the end.
  pub record Anchoring : Type 0 where
    pub twice_at_start : (p v : Bytes) → pg_match (b'^' ∷ b'^' ∷ p) v ≡ pg_match (b'^' ∷ p) v
    pub twice_at_end :
        (p v : Bytes)
        → ends_with b'\\' p ≡ false
        → pg_match (p ++ b'$' ∷ b'$' ∷ []) v ≡ pg_match (p ++ b'$' ∷ []) v

  -- A pattern that needs no group between its anchors, as one with alternatives does, and does not end in an
  -- escaped dollar sign.
  pub record IsSimple (p : Bytes) : Type 0 where
    pub no_group_needed :
        (v : Bytes) → pg_match (whole_pattern p) v ≡ pg_match (b'^' ∷ p ++ b'$' ∷ []) v
    pub no_escaped_end : (q : Bytes) → p ≡ q ++ b'$' ∷ [] → ends_with b'\\' q ≡ false

  -- No backslash comes before the dollar sign at the end of a pattern that has one.
  unfoldable NotEscaped : Bytes → Type 0
  NotEscaped p = (q : Bytes) → p ≡ q ++ b'$' ∷ [] → ends_with b'\\' q ≡ false

  NotEscaped-cons : (p : Bytes) → NotEscaped p → NotEscaped (b'^' ∷ p)
  unfolding NotEscaped ends_with
  NotEscaped-cons p k [] e = refl
  NotEscaped-cons p k (c ∷ []) e = ground arith
  NotEscaped-cons p k (c ∷ d ∷ ds) e = k (d ∷ ds) (ground arith)

  end_once :
      (p v : Bytes)
      → Anchoring
      → NotEscaped p
      → ends_with b'$' p ≡ true
      → pg_match (p ++ b'$' ∷ []) v ≡ pg_match p v
  unfolding NotEscaped
  end_once p v laws k h =
      let (q, e) = ends_with-split b'$' p h in
      ap (λ t. pg_match (t ++ b'$' ∷ []) v) e
      ∙ ap (λ t. pg_match t v) (append_assoc q (b'$' ∷ []) (b'$' ∷ []))
      ∙ laws.twice_at_end q v (k q e)
      ∙ ap (λ t. pg_match t v) (sym e)

  -- The anchors of `anchorValue` do what the group of Prometheus does for a simple pattern.
  pub anchor_value-whole :
      (p v : Bytes)
      → Anchoring
      → IsSimple p
      → pg_match (anchor_value p) v ≡ pg_match (whole_pattern p) v
  unfolding anchor_value starts_with
  anchor_value-whole [] v laws simple = sym (simple.no_group_needed v)
  anchor_value-whole (c ∷ cs) v laws simple =
      let p = c ∷ cs in
      let plain = simple.no_group_needed v in
      let k : NotEscaped p = unfold NotEscaped in simple.no_escaped_end in
      elim (Bool-cases (starts_with b'^' p)) [
        | inl e ↦
            let start : c ≡ b'^' = ground arith in
            let once : pg_match (b'^' ∷ p ++ b'$' ∷ []) v ≡ pg_match (p ++ b'$' ∷ []) v =
              rw start (laws.twice_at_start (cs ++ b'$' ∷ []) v) in
            elim (Bool-cases (ends_with b'$' p)) [
              | inl f ↦ let last = end_once p v laws k f in ground arith
              | inr f ↦ ground arith
            ]
        | inr e ↦ elim (Bool-cases (ends_with b'$' p)) [
          | inl f ↦
              let last =
                end_once (b'^' ∷ p) v laws (NotEscaped-cons p k) (ends_with-cons b'$' b'^' p f) in
              ground arith
          | inr f ↦ ground arith
        ]
      ]
