-- ===== src/Prelude/Bytes.antt =====
-- Go strings as lists of bytes: literals, equality, and the order of `<` and `strings.Compare`.
use Prim.Native.Nat.{ℕ}
use Prim.Native.Char.{code}
use Prim.Native.String.{String}
use mathlib.Core.Path.{◌≡◌, refl}
use mathlib.Core.Bool.{Bool, true, false}
use mathlib.Core.List.{List, [], ◌∷◌}
use native.Mathlib.Omega.{arith}
use native.Mathlib.Decide.{ℕ_discrete}
use timescale_prometheus.Prelude.Tests.{ltb, if◌then◌else◌}

abbrev pub Bytes : Type 0
Bytes = List ℕ

-- The code points of a literal, which are its bytes when the text is ASCII.
abbrev pub codes : String → Bytes
codes String.[] = []
codes (String.◌∷◌ c s) = code c ∷ codes s

unfoldable pub Bytes-discrete : Discrete Bytes
Bytes-discrete = hlevel ℕ_discrete

unfoldable pub str_lt : Bytes → Bytes → Bool
str_lt [] [] = false
str_lt [] (y ∷ ys) = true
str_lt (x ∷ xs) [] = false
str_lt (x ∷ xs) (y ∷ ys) = if ltb x y then true else if ltb y x then false else str_lt xs ys

pub str_lt_irrefl : (a : Bytes) → str_lt a a ≡ false
unfolding str_lt
str_lt_irrefl [] = refl
str_lt_irrefl (x ∷ xs) = ground (arith, str_lt_irrefl xs)

pub str_lt_asymm : (a b : Bytes) → str_lt a b ≡ true → str_lt b a ≡ false
unfolding str_lt
str_lt_asymm [] [] h = refl
str_lt_asymm [] (y ∷ ys) h = refl
str_lt_asymm (x ∷ xs) [] h = ground arith
str_lt_asymm (x ∷ xs) (y ∷ ys) h = ground (arith, str_lt_asymm xs ys)

pub str_lt_trans : (a b c : Bytes) → str_lt a b ≡ true → str_lt b c ≡ true → str_lt a c ≡ true
unfolding str_lt
str_lt_trans [] [] c h k = k
str_lt_trans [] (y ∷ ys) [] h k = ground arith
str_lt_trans [] (y ∷ ys) (z ∷ zs) h k = refl
str_lt_trans (x ∷ xs) [] c h k = ground arith
str_lt_trans (x ∷ xs) (y ∷ ys) [] h k = k
str_lt_trans (x ∷ xs) (y ∷ ys) (z ∷ zs) h k = ground (arith, str_lt_trans xs ys zs)

pub str_lt_connected : (a b : Bytes) → str_lt a b ≡ false → str_lt b a ≡ false → a ≡ b
unfolding str_lt
str_lt_connected [] [] h k = refl
str_lt_connected [] (y ∷ ys) h k = ground arith
str_lt_connected (x ∷ xs) [] h k = ground arith
str_lt_connected (x ∷ xs) (y ∷ ys) h k = ground (arith, str_lt_connected xs ys)
