-- ===== src/Prelude/Dict.antt =====
-- Go maps as association lists: `m[k]`, `m[k] = v` and `delete(m, k)`, and what a read finds after each.

use mathlib.Core.Path.{◌≡◌, refl, sym, ◌∙◌}
use mathlib.Core.Logic.{ite, if_pos, if_neg}
use mathlib.Core.List.{List, [], ◌∷◌}
use mathlib.Core.Option.{Option, none, some}
use native.Mathlib.Omega.{arith}

module _ {ℓ} {K V : Type ℓ} (dec : Discrete K) where
  unfoldable pub lookup : K → List (K × V) → Option V
  lookup k [] = none
  lookup k ((j, v) ∷ m) = ite (dec j k) (some v) (lookup k m)

  unfoldable pub delete : K → List (K × V) → List (K × V)
  delete k [] = []
  delete k ((j, v) ∷ m) = let rest = delete k m in ite (dec j k) rest ((j, v) ∷ rest)

  unfoldable pub insert : K → V → List (K × V) → List (K × V)
  insert k v m = (k, v) ∷ delete k m

  pub lookup-delete :
      (k j : K) (m : List (K × V)) → lookup j (delete k m) ≡ ite (dec k j) none (lookup j m)
  unfolding lookup delete
  lookup-delete k j [] = ground arith
  lookup-delete k j ((i, w) ∷ m) = ground (arith, lookup-delete k j m)

  pub lookup-insert :
      (k j : K) (v : V) (m : List (K × V))
      → lookup j (insert k v m) ≡ ite (dec k j) (some v) (lookup j m)
  unfolding lookup insert
  lookup-insert k j v m = ground (arith, lookup-delete k j m)

  -- No key twice, as in a Go map.
  abbrev pub Distinct : List (K × V) → Type ℓ
  Distinct [] = Unit
  Distinct ((j, v) ∷ m) = (lookup j m ≡ none) × Distinct m

  pub delete_absent : (k : K) (m : List (K × V)) → lookup k m ≡ none → delete k m ≡ m
  unfolding lookup delete
  delete_absent k [] h = refl
  delete_absent k ((j, v) ∷ m) h = ground (arith, delete_absent k m)

  pub delete-Distinct : (k : K) (m : List (K × V)) → Distinct m → Distinct (delete k m)
  unfolding delete
  delete-Distinct k [] h = tt
  delete-Distinct k ((j, v) ∷ m) h = elim (dec j k) [
    | yes same ↦ rw (if_pos _ same) (delete-Distinct k m h.1)
    | no other ↦ rw (if_neg _ other) (
      lookup-delete k j m ∙ if_neg (dec k j) (λ e. other (sym e)) _ _ ∙ h.0,
      delete-Distinct k m h.1,
    )
  ]

  pub insert-Distinct : (k : K) (v : V) (m : List (K × V)) → Distinct m → Distinct (insert k v m)
  unfolding insert
  insert-Distinct k v m h = (lookup-delete k k m ∙ if_pos (dec k k) refl _ _, delete-Distinct k m h)
