-- ===== src/ClockCache/Swaps.antt =====
-- The swap of two keys in `GetValues` (pkg/clockcache/cache.go).
use mathlib.Core.List.{Perm}
use mathlib.Core.List.Perm
use timescale_prometheus.Prelude.{
  ℕ, zero, suc, ◌<◌, ◌≡◌, inl, inr, ite, some, List, [], ◌∷◌, arith, length, get_elem?, set,
  Option-cases, length-set, ℕ_discrete,
}
use timescale_prometheus.ClockCache.{swap_keys}
use timescale_prometheus.ClockCache.Pointers.{get_elem?-set}

module _ {A : Type 0} where
  -- To write `b` over the element `a` at `i` exchanges the two.
  set-perm :
      (xs : List A) (i : ℕ) (a b : A) → get_elem? xs i ≡ some a → Perm (b ∷ xs) (a ∷ set xs i b)
  set-perm [] i a b h = absurd (ground arith)
  set-perm (x ∷ xs) zero a b h = let e : x ≡ a = ground arith in rw e (Perm.swap a b xs)
  set-perm (x ∷ xs) (suc i) a b h =
      Perm.trans (Perm.swap x b xs)
        (Perm.trans (Perm.cons x (set-perm xs i a b h)) (Perm.swap a x (set xs i b)))

  swap-perm :
      (xs : List A) (i j : ℕ) (a b : A)
      → get_elem? xs i ≡ some a
      → get_elem? xs j ≡ some b
      → Perm (set (set xs i b) j a) xs
  swap-perm [] i j a b h k = Perm.refl []
  swap-perm (x ∷ xs) zero zero a b h k = let e : x ≡ a = ground arith in rw e (Perm.refl (a ∷ xs))
  swap-perm (x ∷ xs) zero (suc j) a b h k =
      let e : x ≡ a = ground arith in rw e (Perm.symm (set-perm xs j b a k))
  swap-perm (x ∷ xs) (suc i) zero a b h k =
      let e : x ≡ b = ground arith in rw e (Perm.symm (set-perm xs i a b h))
  swap-perm (x ∷ xs) (suc i) (suc j) a b h k = Perm.cons x (swap-perm xs i j a b h k)

  pub swapped :
      (xs : List A) (i j : ℕ) (a b : A)
      → get_elem? xs i ≡ some a
      → get_elem? xs j ≡ some b
      → swap_keys xs i j ≡ set (set xs i b) j a
  unfolding swap_keys
  swapped xs i j a b h k = ground arith

  pub get_elem?-swapped :
      (xs : List A) (i j q : ℕ) (a b : A)
      → i < length xs
      → j < length xs
      → get_elem? (set (set xs i b) j a) q
        ≡ ite (ℕ_discrete j q) (some a) (ite (ℕ_discrete i q) (some b) (get_elem? xs q))
  get_elem?-swapped xs i j q a b h k =
      let inside : j < length (set xs i b) = omega (arith, length-set xs i b) in
      rw (get_elem?-set (set xs i b) j q a inside, get_elem?-set xs i q b h)

  pub swap_keys-perm : (xs : List A) (i j : ℕ) → Perm (swap_keys xs i j) xs
  unfolding swap_keys
  swap_keys-perm xs i j = elim (Option-cases (get_elem? xs i)) [
    | inl e ↦ rw (e, swap_keys) (Perm.refl xs)
    | inr (a, e) ↦ elim (Option-cases (get_elem? xs j)) [
      | inl e' ↦ rw (e, swap_keys, e') (Perm.refl xs)
      | inr (b, e') ↦ rw (e, swap_keys, e') (swap-perm xs i j a b e e')
    ]
  ]
