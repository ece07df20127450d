-- ===== src/Prelude/Utf8.antt =====
-- `utf8.DecodeRuneInString` of Go, `utf8.EncodeRune` for runes below 2^16, and `strings.ToValidUTF8` with
-- U+FFFD for each byte that is not part of an encoding.
use timescale_prometheus.Prelude.Bytes.{Bytes}
use timescale_prometheus.Prelude.Lists.{All, take, drop, length}
use timescale_prometheus.Prelude.Tests.{ltb, leb, ◌==◌, if◌then◌else◌}
use Prim.Native.Nat.{ℕ, zero, suc, ◌+◌, ◌*◌, ◌/◌, ◌%◌, ◌≤◌, ◌<◌}
use mathlib.Core.Path.{◌≡◌}
use native.Mathlib.Omega.{arith}
use mathlib.Core.Bool.{Bool, true, false, ◌&&◌}
use mathlib.Core.List.{[], ◌∷◌, ◌++◌}

-- `utf8.RuneError`
abbrev pub rune_error : ℕ
rune_error = 0xfffd

-- The range of the second byte, given the first.
unfoldable pub accept : ℕ → ℕ → Bool
accept b c =
    leb (if b == 0xe0 then 0xa0 else if b == 0xf0 then 0x90 else 0x80) c
    && leb c (if b == 0xed then 0x9f else if b == 0xf4 then 0x8f else 0xbf)

unfoldable pub is_continuation : ℕ → Bool
is_continuation c = leb 0x80 c && leb c 0xbf

unfoldable pub decode_two : ℕ → Bytes → ℕ × ℕ
unfolding accept
decode_two b [] = (rune_error, 1)
decode_two b (c ∷ cs) = if accept b c then (b % 32 * 64 + c % 64, 2) else (rune_error, 1)

unfoldable pub decode_three : ℕ → Bytes → ℕ × ℕ
unfolding accept is_continuation
decode_three b (c ∷ d ∷ ds) =
    if accept b c && is_continuation d
    then (b % 16 * 4096 + c % 64 * 64 + d % 64, 3)
    else (rune_error, 1)
decode_three b _ = (rune_error, 1)

unfoldable pub decode_four : ℕ → Bytes → ℕ × ℕ
unfolding accept is_continuation
decode_four b (c ∷ d ∷ e ∷ es) =
    if accept b c && (is_continuation d && is_continuation e)
    then (b % 8 * 262144 + c % 64 * 4096 + d % 64 * 64 + e % 64, 4)
    else (rune_error, 1)
decode_four b _ = (rune_error, 1)

-- The rune that a string starts with, and the number of its bytes.
unfoldable pub decode_rune : Bytes → ℕ × ℕ
unfolding decode_two decode_three decode_four
decode_rune [] = (rune_error, 0)
decode_rune (b ∷ bs) =
    if ltb b 0x80
    then (b, 1)
    else if ltb b 0xc2
    then (rune_error, 1)
    else if ltb b 0xe0
    then decode_two b bs
    else if ltb b 0xf0
    then decode_three b bs
    else if ltb b 0xf5
    then decode_four b bs
    else (rune_error, 1)

-- `utf8.EncodeRune` of a rune below 2^16 that is not a surrogate.
unfoldable pub encode_rune : ℕ → Bytes
encode_rune r =
    if ltb r 0x80
    then r ∷ []
    else if ltb r 0x800
    then (0xc0 + r / 64) ∷ (0x80 + r % 64) ∷ []
    else (0xe0 + r / 4096) ∷ (0x80 + r / 64 % 64) ∷ (0x80 + r % 64) ∷ []

unfoldable pub is_invalid : ℕ × ℕ → Bool
is_invalid (r, size) = (r == rune_error) && (size == 1)

unfoldable pub to_valid : ℕ → Bytes → Bytes
to_valid zero s = []
to_valid (suc n) [] = []
to_valid (suc n) (b ∷ bs) =
    let s = b ∷ bs in
    let (r, size) = decode_rune s in
    let rest = to_valid n (drop size s) in
    if is_invalid (r, size) then encode_rune rune_error ++ rest else take size s ++ rest

-- `strings.ToValidUTF8` would write one U+FFFD for a run of such bytes; here each has its own.
unfoldable pub to_valid_utf8 : Bytes → Bytes
unfolding to_valid
to_valid_utf8 s = to_valid (length s) s

unfoldable pub is_valid_from : ℕ → Bytes → Bool
is_valid_from zero s = true
is_valid_from (suc n) [] = true
is_valid_from (suc n) (b ∷ bs) =
    let s = b ∷ bs in
    let (r, size) = decode_rune s in
    let rest = is_valid_from n (drop size s) in if is_invalid (r, size) then false else rest

-- `utf8.ValidString`
unfoldable pub is_valid_string : Bytes → Bool
unfolding is_valid_from
is_valid_string s = is_valid_from (length s) s

pub decode_rune_size :
    (b : ℕ) (bs : Bytes)
    → let (r, size) = decode_rune (b ∷ bs) in (1 ≤ size) × (size ≤ length (b ∷ bs))
unfolding decode_rune decode_two decode_three decode_four
decode_rune_size b [] = ground arith
decode_rune_size b (c ∷ []) = ground arith
decode_rune_size b (c ∷ d ∷ []) = ground arith
decode_rune_size b (c ∷ d ∷ e ∷ es) = ground arith

pub decode_rune_ascii : (b : ℕ) (bs : Bytes) → b < 0x80 → decode_rune (b ∷ bs) ≡ (b, 1)
unfolding decode_rune
decode_rune_ascii b bs h = ground arith

-- The bytes of a rune that is not ASCII.
pub decode_rune_high :
    (b : ℕ) (bs : Bytes)
    → 0x80 ≤ b
    → is_invalid (decode_rune (b ∷ bs)) ≡ false
    → All (λ c. 0x80 ≤ c) (take (decode_rune (b ∷ bs)).1 (b ∷ bs))
unfolding decode_rune decode_two decode_three decode_four is_invalid accept is_continuation
decode_rune_high b [] h k = ground arith
decode_rune_high b (c ∷ []) h k = ground arith
decode_rune_high b (c ∷ d ∷ []) h k = ground arith
decode_rune_high b (c ∷ d ∷ e ∷ es) h k = ground arith

-- U+2028 and U+2029 have one encoding.
pub decode_rune_separator :
    (b : ℕ) (bs : Bytes)
    → let (r, size) = decode_rune (b ∷ bs) in
      0x2028 ≤ r → r ≤ 0x2029 → take size (b ∷ bs) ≡ encode_rune r
unfolding decode_rune decode_two decode_three decode_four accept is_continuation encode_rune
decode_rune_separator b [] h k = ground arith
decode_rune_separator b (c ∷ []) h k = ground arith
decode_rune_separator b (c ∷ d ∷ []) h k = ground arith
decode_rune_separator b (c ∷ d ∷ e ∷ es) h k = ground arith
