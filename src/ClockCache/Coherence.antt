-- ===== src/ClockCache/Coherence.antt =====
-- What holds of the entries of a clock cache keeps holding under inserts of pairs of which it holds.
use timescale_prometheus.ClockCache.{Cache, insert, insert_all}
use timescale_prometheus.ClockCache.Contents.{contents, IsValid, contents-SameButMarks}
use timescale_prometheus.ClockCache.Access.{insert_hit}
use timescale_prometheus.ClockCache.Inserts.{insert_new, forget}
use timescale_prometheus.ClockCache.Batches.{insert_stores}
use timescale_prometheus.Prelude.{
  ◌<◌, ◌≡◌, refl, sym, ◌∙◌, ite, ◌⊎◌, inl, inr, true, false, Option, none, some, List, [], ◌∷◌,
  arith, Option-cases,
}
use mathlib.Core.Path.{subst}

ite-some :
    {A V : Type 0} (d : Dec A) (v w : V) (x : Option V)
    → ite d (some v) x ≡ some w
    → (A × (v ≡ w)) ⊎ (x ≡ some w)
ite-some (yes a) v w x h = inl (a, ground arith)
ite-some (no n) v w x h = inr h

module _ {K V : Type 0} (dec : Discrete K) (P : K → V → Type 0) where
  unfoldable pub Holds : Cache K V → Type 0
  Holds c = (q : K) (w : V) → contents dec c q ≡ some w → P q w

  forget-some :
      (lost : Option K) (f : K → Option V) (q : K) (w : V)
      → forget dec lost f q ≡ some w
      → f q ≡ some w
  forget-some none f q w h = h
  forget-some (some k) f q w h = ground arith

  pub insert-Holds :
      (c : Cache K V) (key : K) (value : V)
      → IsValid dec c
      → 0 < c.capacity
      → Holds c
      → P key value
      → Holds (insert dec c key value).3
  unfolding Holds
  insert-Holds c key value v pos h p q w e = elim (Option-cases (contents dec c key)) [
    | inr (u, present) ↦
        let (_, _, _, marks, _) = insert_hit dec c key value u v present in
        let c' = (insert dec c key value).3 in
        h q w (sym (contents-SameButMarks dec c c' q marks) ∙ e)
    | inl absent ↦
        let (lost, r) = insert_new dec c key value v pos absent in
        elim (ite-some (dec key q) value w (forget dec lost (contents dec c) q)
          (sym (r.maps q) ∙ e)) [
            | inl (same, same_value) ↦ subst (P q) same_value (subst (λ k. P k value) same p)
            | inr kept ↦ h q w (forget-some lost (contents dec c) q w kept)
          ]
  ]

  -- The value that an insert of a pair returns goes with the key.
  pub insert_value-Holds :
      (c : Cache K V) (key : K) (value : V)
      → IsValid dec c
      → 0 < c.capacity
      → Holds c
      → P key value
      → P key (insert dec c key value).1
  insert_value-Holds c key value v pos h p =
      let (_, _, _, _, mapped) = insert_stores dec c key value v pos in
      unfold Holds in (insert-Holds c key value v pos h p key (insert dec c key value).1 mapped)

  -- The pairs of two lists.
  unfoldable pub Together : List K → List V → Type 0
  Together [] [] = true ≡ true
  Together (k ∷ ks) (w ∷ ws) = P k w × Together ks ws
  Together ks ws = true ≡ false

  -- Inserting pairs that belong together returns values that belong to the keys, and leaves a valid
  -- cache of such entries.
  pub insert_all-Holds :
      (c : Cache K V) (ks : List K) (vs : List V)
      → IsValid dec c
      → 0 < c.capacity
      → Holds c
      → Together ks vs
      → let (_, _, vs', c') = insert_all dec c ks vs in Together ks vs' × Holds c' × IsValid dec c'
  unfolding insert_all Together
  insert_all-Holds c [] [] v pos h t = (refl, h, v)
  insert_all-Holds c [] (w ∷ ws) v pos h t = absurd (ground arith)
  insert_all-Holds c (k ∷ ks) [] v pos h t = absurd (ground arith)
  insert_all-Holds c (k ∷ ks) (w ∷ ws) v pos h t =
      let (v', cap, ok, _, _) = insert_stores dec c k w v pos in
      let h' = insert-Holds c k w v pos h t.0 in
      let p = insert_value-Holds c k w v pos h t.0 in
      let (ts, h'', v'') = insert_all-Holds (insert dec c k w).3 ks ws v' (omega arith) h' t.1 in
      rw ok ((p, ts), h'', v'')
