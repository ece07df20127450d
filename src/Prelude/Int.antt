-- ===== src/Prelude/Int.antt =====
-- Signed integers over the native numbers: `negsuc n` is -(n + 1). Orders go through the two parts.
use Prim.Native.Nat.{ℕ, zero, suc, ◌+◌, ◌-◌, ◌*◌, ◌/◌, ◌≤◌, ◌<◌}
use mathlib.Core.Bool.{Bool, false}
use mathlib.Core.List.{List}
use mathlib.Core.Option.{Option, none}
use timescale_prometheus.Prelude.Lists.{get_elem?}
use native.Mathlib.Decide.{ℕ_discrete}
use timescale_prometheus.Prelude.Tests.{ltb, leb, if◌then◌else◌}

pub data ℤ : Type 0 where
  pos : ℕ → ℤ
  negsuc : ℕ → ℤ

pub ℤ_discrete : Discrete ℤ
ℤ_discrete = hlevel ℕ_discrete

abbrev pub pos_part : ℤ → ℕ
pos_part (pos n) = n
pos_part (negsuc n) = 0

abbrev pub neg_part : ℤ → ℕ
neg_part (pos n) = 0
neg_part (negsuc n) = suc n

-- a - b, as an integer.
abbrev pub sub_ℕ : ℕ → ℕ → ℤ
sub_ℕ a b = if leb b a then pos (a - b) else negsuc (b - a - 1)

infixl 65 ◌+ℤ◌ ◌-ℤ◌
infixl 70 ◌*ℤ◌
infix 50 ◌≤ℤ◌ ◌<ℤ◌
unfoldable pub ◌+ℤ◌ : ℤ → ℤ → ℤ
a +ℤ b = sub_ℕ (pos_part a + pos_part b) (neg_part a + neg_part b)

unfoldable pub ◌-ℤ◌ : ℤ → ℤ → ℤ
a -ℤ b = sub_ℕ (pos_part a + neg_part b) (neg_part a + pos_part b)

unfoldable pub ◌*ℤ◌ : ℤ → ℤ → ℤ
a *ℤ b =
    sub_ℕ (pos_part a * pos_part b + neg_part a * neg_part b)
      (pos_part a * neg_part b + neg_part a * pos_part b)

abbrev pub ◌≤ℤ◌ : ℤ → ℤ → Type 0
a ≤ℤ b = pos_part a + neg_part b ≤ pos_part b + neg_part a

abbrev pub ◌<ℤ◌ : ℤ → ℤ → Type 0
a <ℤ b = pos_part a + neg_part b < pos_part b + neg_part a

abbrev pub ltb_ℤ : ℤ → ℤ → Bool
ltb_ℤ a b = ltb (pos_part a + neg_part b) (pos_part b + neg_part a)

abbrev pub leb_ℤ : ℤ → ℤ → Bool
leb_ℤ a b = leb (pos_part a + neg_part b) (pos_part b + neg_part a)

-- Go's `/` on signed integers rounds towards zero.
abbrev pub div_ℤ : ℤ → ℕ → ℤ
div_ℤ (pos n) d = pos (n / d)
div_ℤ (negsuc n) d = sub_ℕ 0 (suc n / d)

abbrev pub max_int64 : ℤ
max_int64 = pos 9223372036854775807

abbrev pub min_int64 : ℤ
min_int64 = negsuc 9223372036854775807

-- `i++` on an int
abbrev pub incr : ℤ → ℤ
incr (pos n) = pos (suc n)
incr (negsuc zero) = pos 0
incr (negsuc (suc n)) = negsuc n

-- `i >= n`
abbrev pub at_least : ℤ → ℕ → Bool
at_least (pos i) n = leb n i
at_least (negsuc i) n = false

-- `xs[i]`; `none` is the panic on an index out of range.
abbrev pub index {ℓ} : {A : Type ℓ} → List A → ℤ → Option A
index xs (pos i) = get_elem? xs i
index xs (negsuc i) = none
