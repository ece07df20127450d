-- ===== src/Prelude/Lists.antt =====
-- Lists measured and indexed by native numbers, under the library's names.
use Prim.Native.Nat.{ℕ, zero, suc, ◌+◌, ◌-◌, ◌<◌, ◌≤◌}
use mathlib.Core.Path.{◌≡◌, refl, ap, sym, ◌∙◌}
use mathlib.Core.Logic.{◌≢◌, ◌⊎◌, inl, inr}
use mathlib.Core.List.{List, [], ◌∷◌, ◌++◌, map}
use mathlib.Core.Option.{Option, none, some}
use native.Mathlib.Omega.{arith}

module _ {ℓ} {A : Type ℓ} where
  abbrev pub length : List A → ℕ
  length [] = 0
  length (x ∷ xs) = suc (length xs)

  abbrev pub get_elem? : List A → ℕ → Option A
  get_elem? [] i = none
  get_elem? (x ∷ xs) zero = some x
  get_elem? (x ∷ xs) (suc i) = get_elem? xs i

  -- A write out of bounds changes nothing.
  abbrev pub set : List A → ℕ → A → List A
  set [] i v = []
  set (x ∷ xs) zero v = v ∷ xs
  set (x ∷ xs) (suc i) v = x ∷ set xs i v

  abbrev pub take : ℕ → List A → List A
  take zero xs = []
  take (suc n) [] = []
  take (suc n) (x ∷ xs) = x ∷ take n xs

  abbrev pub drop : ℕ → List A → List A
  drop zero xs = xs
  drop (suc n) [] = []
  drop (suc n) (x ∷ xs) = drop n xs

  abbrev pub replicate : ℕ → A → List A
  replicate zero a = []
  replicate (suc n) a = a ∷ replicate n a

  abbrev pub All {κ} : (A → Type κ) → List A → Type κ
  All P [] = Unit {κ}
  All P (x ∷ xs) = P x × All P xs

  pub length-append : (xs ys : List A) → length (xs ++ ys) ≡ length xs + length ys
  length-append [] ys = omega arith
  length-append (x ∷ xs) ys = omega (arith, length-append xs ys)

  pub length-set : (xs : List A) (i : ℕ) (v : A) → length (set xs i v) ≡ length xs
  length-set [] i v = refl
  length-set (x ∷ xs) zero v = refl
  length-set (x ∷ xs) (suc i) v = ap suc (length-set xs i v)

  pub get_elem?-set_self :
      (xs : List A) (i : ℕ) (v : A) → i < length xs → get_elem? (set xs i v) i ≡ some v
  get_elem?-set_self [] i v h = elim h [ ]
  get_elem?-set_self (x ∷ xs) zero v h = refl
  get_elem?-set_self (x ∷ xs) (suc i) v h = get_elem?-set_self xs i v (omega arith)

  pub get_elem?-set_ne :
      (xs : List A) (i j : ℕ) (v : A) → i ≢ j → get_elem? (set xs i v) j ≡ get_elem? xs j
  get_elem?-set_ne [] i j v h = refl
  get_elem?-set_ne (x ∷ xs) zero zero v h = absurd (h refl)
  get_elem?-set_ne (x ∷ xs) zero (suc j) v h = refl
  get_elem?-set_ne (x ∷ xs) (suc i) zero v h = refl
  get_elem?-set_ne (x ∷ xs) (suc i) (suc j) v h = get_elem?-set_ne xs i j v (λ e. h (ap suc e))

  pub lt-length_of_get_elem? :
      (xs : List A) (i : ℕ) {a : A} → get_elem? xs i ≡ some a → i < length xs
  lt-length_of_get_elem? [] i h = absurd (ground arith)
  lt-length_of_get_elem? (x ∷ xs) zero h = omega arith
  lt-length_of_get_elem? (x ∷ xs) (suc i) h = omega (arith, lt-length_of_get_elem? xs i h)

  pub get_elem?_of_lt : (xs : List A) (i : ℕ) → i < length xs → (a : A) × (get_elem? xs i ≡ some a)
  get_elem?_of_lt [] i h = absurd (omega arith)
  get_elem?_of_lt (x ∷ xs) zero h = (x, refl)
  get_elem?_of_lt (x ∷ xs) (suc i) h = get_elem?_of_lt xs i (omega arith)

  pub get_elem?-append_lt :
      (xs ys : List A) (i : ℕ) → i < length xs → get_elem? (xs ++ ys) i ≡ get_elem? xs i
  get_elem?-append_lt [] ys i h = elim h [ ]
  get_elem?-append_lt (x ∷ xs) ys zero h = refl
  get_elem?-append_lt (x ∷ xs) ys (suc i) h = get_elem?-append_lt xs ys i (omega arith)

  pub get_elem?-append_length :
      (xs : List A) (y : A) → get_elem? (xs ++ y ∷ []) (length xs) ≡ some y
  get_elem?-append_length [] y = refl
  get_elem?-append_length (x ∷ xs) y = get_elem?-append_length xs y

  pub get_elem?_of_le : (xs : List A) (i : ℕ) → length xs ≤ i → get_elem? xs i ≡ none
  get_elem?_of_le [] i h = refl
  get_elem?_of_le (x ∷ xs) zero h = absurd (omega arith)
  get_elem?_of_le (x ∷ xs) (suc i) h = get_elem?_of_le xs i (omega arith)

  pub take-append-drop : (n : ℕ) (xs : List A) → take n xs ++ drop n xs ≡ xs
  take-append-drop zero xs = refl
  take-append-drop (suc n) [] = refl
  take-append-drop (suc n) (x ∷ xs) = rw (take-append-drop n xs)

  pub length-take_of_le : (n : ℕ) (xs : List A) → n ≤ length xs → length (take n xs) ≡ n
  length-take_of_le zero xs h = refl
  length-take_of_le (suc n) [] h = absurd (omega arith)
  length-take_of_le (suc n) (x ∷ xs) h = ap suc (length-take_of_le n xs (omega arith))

  pub length-drop : (n : ℕ) (xs : List A) → length (drop n xs) ≡ length xs - n
  length-drop zero xs = omega arith
  length-drop (suc n) [] = omega arith
  length-drop (suc n) (x ∷ xs) = omega (arith, length-drop n xs)

  pub All-append {κ} : (P : A → Type κ) (xs ys : List A) → All P xs → All P ys → All P (xs ++ ys)
  All-append P [] ys hx hy = hy
  All-append P (x ∷ xs) ys hx hy = (hx.0, All-append P xs ys hx.1 hy)

module _ {ℓ κ} {A : Type ℓ} {B : Type κ} where
  pub length-map : (f : A → B) (xs : List A) → length (map f xs) ≡ length xs
  length-map f [] = refl
  length-map f (x ∷ xs) = ap suc (length-map f xs)

module _ {ℓ} {A : Type ℓ} where
  pub take-append_length : (n : ℕ) (xs ys : List A) → length xs ≡ n → take n (xs ++ ys) ≡ xs
  take-append_length zero [] ys h = refl
  take-append_length zero (x ∷ xs) ys h = absurd (omega arith)
  take-append_length (suc n) [] ys h = absurd (omega arith)
  take-append_length (suc n) (x ∷ xs) ys h = ap (◌∷◌ x) (take-append_length n xs ys (omega arith))

  pub drop-append_length : (n : ℕ) (xs ys : List A) → length xs ≡ n → drop n (xs ++ ys) ≡ ys
  drop-append_length zero [] ys h = refl
  drop-append_length zero (x ∷ xs) ys h = absurd (omega arith)
  drop-append_length (suc n) [] ys h = absurd (omega arith)
  drop-append_length (suc n) (x ∷ xs) ys h = drop-append_length n xs ys (omega arith)

module _ {ℓ} {A : Type ℓ} where
  -- What stands at the position that a drop comes to.
  pub drop_cons :
      (xs : List A) (a : ℕ) (x : A) (r : List A)
      → drop a xs ≡ x ∷ r
      → (get_elem? xs a ≡ some x) × (drop (suc a) xs ≡ r) × (a < length xs)
  drop_cons [] zero x r h = absurd (ground arith)
  drop_cons [] (suc a) x r h = absurd (ground arith)
  drop_cons (y ∷ xs) zero x r h = (ground arith, ground arith, omega arith)
  drop_cons (y ∷ xs) (suc a) x r h =
      let (at_a, next, inside) = drop_cons xs a x r h in (at_a, next, omega arith)

  pub drop_nil : (xs : List A) (a : ℕ) → drop a xs ≡ [] → length xs ≤ a
  drop_nil [] a h = omega arith
  drop_nil (y ∷ xs) zero h = absurd (ground arith)
  drop_nil (y ∷ xs) (suc a) h = omega (arith, drop_nil xs a h)

  pub drop_empty : (n : ℕ) → ◌≡◌ {A = List A} (drop n []) []
  drop_empty zero = refl
  drop_empty (suc n) = refl

  pub drop_add : (j n : ℕ) (xs : List A) → drop (j + n) xs ≡ drop n (drop j xs)
  drop_add zero n xs = ap (λ k. drop k xs) (omega arith)
  drop_add (suc j) n [] = drop_empty (suc j + n) ∙ sym (drop_empty n)
  drop_add (suc j) n (x ∷ xs) =
      let e : suc j + n ≡ suc (j + n) = omega arith in ap (λ k. drop k (x ∷ xs)) e ∙ drop_add j n xs

pub List-cases {ℓ} :
    {A : Type ℓ} (xs : List A) → (xs ≡ []) ⊎ ((y : A) × (ys : List A) × (xs ≡ y ∷ ys))
List-cases [] = inl refl
List-cases (y ∷ ys) = inr (y, ys, refl)
