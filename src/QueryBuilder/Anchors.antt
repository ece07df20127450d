-- ===== src/QueryBuilder/Anchors.antt =====
-- pkg/pgmodel/query_builder.go: anchors of regular expressions.
use timescale_prometheus.Prelude.Bytes.{Bytes}
use timescale_prometheus.QueryBuilder.{starts_with, ends_with, anchor_value}
use timescale_prometheus.Prelude.{ℕ, ◌≡◌, refl, true, inl, inr, [], ◌∷◌, ◌++◌, arith, Bool-cases}

ends_with-append : (c : ℕ) (s : Bytes) → ends_with c (s ++ c ∷ []) ≡ true
unfolding ends_with
ends_with-append c [] = ground arith
ends_with-append c (d ∷ []) = ground arith
ends_with-append c (d ∷ e ∷ es) = ends_with-append c (e ∷ es)

pub ends_with-cons : (c d : ℕ) (s : Bytes) → ends_with c s ≡ true → ends_with c (d ∷ s) ≡ true
unfolding ends_with
ends_with-cons c d [] h = absurd (ground arith)
ends_with-cons c d (e ∷ es) h = h

anchored :
    (s : Bytes)
    → (starts_with b'^' (anchor_value s) ≡ true) × (ends_with b'$' (anchor_value s) ≡ true)
unfolding anchor_value starts_with
anchored [] = (refl, unfold ends_with in refl)
anchored (c ∷ cs) =
    let a = ends_with-append b'$' (c ∷ cs) in
    let b = ends_with-cons b'$' b'^' (c ∷ cs) in
    let d = ends_with-cons b'$' b'^' (c ∷ cs ++ b'$' ∷ []) a in
    elim (Bool-cases (starts_with b'^' (c ∷ cs))) [
      | inl e ↦ elim (Bool-cases (ends_with b'$' (c ∷ cs))) [
        | inl f ↦ ground arith
        | inr f ↦ ground arith
      ]
      | inr e ↦ elim (Bool-cases (ends_with b'$' (c ∷ cs))) [
        | inl f ↦ ground arith
        | inr f ↦ ground arith
      ]
    ]

anchor_value_fixed :
    (s : Bytes) → starts_with b'^' s ≡ true → ends_with b'$' s ≡ true → anchor_value s ≡ s
unfolding anchor_value starts_with
anchor_value_fixed [] h k = absurd (ground arith)
anchor_value_fixed (c ∷ cs) h k = ground arith

-- An anchored pattern starts with ^ and ends with $, anchoring it again changes nothing, and a
-- pattern that starts and ends so is left as it is.
pub anchor_value_lem :
    (s : Bytes)
    → (starts_with b'^' (anchor_value s) ≡ true)
      × (ends_with b'$' (anchor_value s) ≡ true)
      × (anchor_value (anchor_value s) ≡ anchor_value s)
      × (starts_with b'^' s ≡ true → ends_with b'$' s ≡ true → anchor_value s ≡ s)
anchor_value_lem s =
    let (h, k) = anchored s in (h, k, anchor_value_fixed (anchor_value s) h k, anchor_value_fixed s)
