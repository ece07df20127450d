-- ===== src/Json/Reading.antt =====
-- A reader of JSON strings, and what it makes of each piece that `WriteEscapedString` of
-- pkg/api/marshal.go writes.
use timescale_prometheus.Prelude.Bytes.{Bytes, codes}
use timescale_prometheus.Prelude.Utf8.{rune_error, encode_rune}
use timescale_prometheus.Json.{html_safe_set, hex_at}
use timescale_prometheus.Json.Emitting.{escape_byte}
use timescale_prometheus.Prelude.{
  ℕ, zero, suc, ◌≡◌, ◌+◌, ◌-◌, ◌*◌, ◌/◌, ◌%◌, ◌≤◌, ◌<◌, refl, ap, sym, ◌∙◌, Bool, true, false, ◌&&◌,
  ◌||◌, inl, inr, Option, none, some, [], ◌∷◌, ◌++◌, ltb, leb, ◌==◌, if◌then◌else◌, All, arith,
  append_assoc, Option-cases, Bool-cases, ℕ_discrete,
}

-- Where a reader stands in a string: between characters, after a backslash, or in the digits of an
-- escape, of which so many are left after the next one.
pub data Reading : Type 0 where
  plain : Reading
  slash : Reading
  digits : ℕ → ℕ → Reading

unfoldable pub hex_value : ℕ → Option ℕ
hex_value c =
    if leb b'0' c && leb c b'9'
    then some (c - b'0')
    else if leb b'a' c && leb c b'f'
    then some (c - b'a' + 10)
    else if leb b'A' c && leb c b'F'
    then some (c - b'A' + 10)
    else none

-- The character that an escape of two characters stands for.
unfoldable simple_escape : ℕ → Option ℕ
simple_escape c =
    if (c == b'"') || ((c == b'\\') || (c == b'/'))
    then some c
    else if c == b'n'
    then some b'\n'
    else if c == b'r'
    then some b'\r'
    else if c == b't'
    then some b'\t'
    else if c == b'b'
    then some 8
    else if c == b'f'
    then some 12
    else none

unfoldable pub prepend : Bytes → Option Bytes → Option Bytes
prepend a none = none
prepend a (some b) = some (a ++ b)

-- The string that the characters between two quotes stand for; a quote or a control character has no
-- place there. Escapes of surrogates are read one by one.
unfoldable pub read_string : Reading → Bytes → Option Bytes
unfolding hex_value simple_escape prepend encode_rune
read_string plain [] = some []
read_string slash [] = none
read_string (digits k acc) [] = none
read_string plain (c ∷ s) =
    let escape = read_string slash s in
    let raw = prepend (c ∷ []) (read_string plain s) in
    if c == b'\\' then escape else if (c == b'"') || ltb c 0x20 then none else raw
read_string slash (c ∷ s) =
    let unicode = read_string (digits 3 0) s in
    let rest = read_string plain s in
    if c == b'u'
    then unicode
    else (elim (simple_escape c) [ none ↦ none | some d ↦ prepend (d ∷ []) rest ])
read_string (digits zero acc) (c ∷ s) =
    let rest = read_string plain s in
    elim (hex_value c) [ none ↦ none | some v ↦ prepend (encode_rune (acc * 16 + v)) rest ]
read_string (digits (suc k) acc) (c ∷ s) = elim (hex_value c) [
  | none ↦ none
  | some v ↦ read_string (digits k (acc * 16 + v)) s
]

-- A test of the numbers below `n`.
all_below : ℕ → (ℕ → Bool) → Bool
all_below zero f = true
all_below (suc n) f = f n && all_below n f

all_below-at : (n : ℕ) (f : ℕ → Bool) (i : ℕ) → all_below n f ≡ true → i < n → f i ≡ true
unfolding all_below
all_below-at zero f i h k = absurd (omega arith)
all_below-at (suc n) f i h k =
    let a : f n ≡ true = ground arith in
    let b : all_below n f ≡ true = ground arith in
    elim (ℕ_discrete i n) [ yes e ↦ ap f e ∙ a | no e ↦ all_below-at n f i b (omega arith) ]

reads_hex : ℕ → Bool
reads_hex i = elim (hex_value (hex_at i)) [ none ↦ false | some v ↦ v == i ]

pub hex_value-hex_at : (i : ℕ) → i < 16 → hex_value (hex_at i) ≡ some i
unfolding reads_hex
hex_value-hex_at i h =
    let checked : all_below 16 reads_hex ≡ true = unfold all_below hex_value hex_at in refl in
    let a : reads_hex i ≡ true = all_below-at 16 reads_hex i checked h in
    elim (Option-cases (hex_value (hex_at i))) [
      | inl e ↦ absurd (ground arith)
      | inr (v, e) ↦ ground arith
    ]

prepend_map : (a b : Bytes) (o : Option Bytes) → prepend (a ++ b) o ≡ prepend a (prepend b o)
unfolding prepend
prepend_map a b none = refl
prepend_map a b (some c) = ap some (append_assoc a b c)

prepend_none : (o : Option Bytes) → prepend [] o ≡ o
unfolding prepend
prepend_none none = refl
prepend_none (some c) = refl

-- Bytes from 0x80 on are read as they are.
pub read_string_high :
    (xs t : Bytes)
    → All (λ c. 0x80 ≤ c) xs
    → read_string plain (xs ++ t) ≡ prepend xs (read_string plain t)
unfolding read_string
read_string_high [] t h = sym (prepend_none (read_string plain t))
read_string_high (c ∷ xs) t (h, hs) =
    let rest = read_string_high xs t hs in
    let e = prepend_map (c ∷ []) xs (read_string plain t) in
    let f : read_string plain (c ∷ xs ++ t) ≡ prepend (c ∷ []) (read_string plain (xs ++ t)) =
      ground arith in
    f ∙ ap (prepend (c ∷ [])) rest ∙ sym e

pub read_string_safe :
    (c : ℕ) (t : Bytes)
    → html_safe_set c ≡ true
    → read_string plain (c ∷ t) ≡ prepend (c ∷ []) (read_string plain t)
unfolding read_string html_safe_set
read_string_safe c t h = ground arith

-- The four digits of an escape.
read_string_digits :
    (a b c d : ℕ) (t : Bytes)
    → a < 16
    → b < 16
    → c < 16
    → d < 16
    → read_string plain (codes "\\u" ++ hex_at a ∷ hex_at b ∷ hex_at c ∷ hex_at d ∷ t)
      ≡ prepend (encode_rune (((a * 16 + b) * 16 + c) * 16 + d)) (read_string plain t)
unfolding read_string
read_string_digits a b c d t ha hb hc hd =
    let ea = hex_value-hex_at a ha in
    let eb = hex_value-hex_at b hb in
    let ec = hex_value-hex_at c hc in let ed = hex_value-hex_at d hd in ground arith

encode_rune_ascii : (b : ℕ) → b < 0x80 → encode_rune b ≡ b ∷ []
unfolding encode_rune
encode_rune_ascii b h = ground arith

short_escape :
    (b c : ℕ) (t : Bytes)
    → simple_escape c ≡ some b
    → (c == b'u') ≡ false
    → read_string plain (b'\\' ∷ c ∷ t) ≡ prepend (b ∷ []) (read_string plain t)
unfolding read_string
short_escape b c t e f = ground arith

unicode_escape :
    (b : ℕ) (t : Bytes)
    → b < 0x80
    → read_string plain (codes "\\u00" ++ hex_at (b / 16) ∷ hex_at (b % 16) ∷ t)
      ≡ prepend (b ∷ []) (read_string plain t)
unicode_escape b t h =
    let digits_read =
      read_string_digits 0 0 (b / 16) (b % 16) t (omega arith) (omega arith) (omega arith)
        (omega arith) in
    let zero_digit : codes "\\u00" ≡ codes "\\u" ++ hex_at 0 ∷ hex_at 0 ∷ [] =
      unfold hex_at in refl in
    let same : ((0 * 16 + 0) * 16 + b / 16) * 16 + b % 16 ≡ b = omega arith in
    let tail = hex_at (b / 16) ∷ hex_at (b % 16) ∷ t in
    ap (λ x. read_string plain (x ++ tail)) zero_digit
    ∙ digits_read
    ∙ ap (λ r. prepend (encode_rune r) (read_string plain t)) same
    ∙ ap (λ x. prepend x (read_string plain t)) (encode_rune_ascii b h)

pub read_string_escape :
    (b : ℕ) (t : Bytes)
    → b < 0x80
    → read_string plain (escape_byte b ++ t) ≡ prepend (b ∷ []) (read_string plain t)
unfolding escape_byte
read_string_escape b t h =
    let short = λ (c : ℕ). short_escape b c t in
    let u = unicode_escape b t h in
    elim (Bool-cases (b == b'\\')) [
      | inl e ↦ let s = short b'\\' (unfold simple_escape in ground arith) refl in ground arith
      | inr e ↦ elim (Bool-cases (b == b'"')) [
        | inl f ↦ let s = short b'"' (unfold simple_escape in ground arith) refl in ground arith
        | inr f ↦ elim (Bool-cases (b == b'\n')) [
          | inl g ↦ let s = short b'n' (unfold simple_escape in ground arith) refl in ground arith
          | inr g ↦ elim (Bool-cases (b == b'\r')) [
            | inl k ↦ let s = short b'r' (unfold simple_escape in ground arith) refl in ground arith
            | inr k ↦ elim (Bool-cases (b == b'\t')) [
              | inl l ↦
                  let s = short b't' (unfold simple_escape in ground arith) refl in ground arith
              | inr l ↦ ground arith
            ]
          ]
        ]
      ]
    ]

-- U+2028, U+2029 and an invalid byte.
pub read_string_separator :
    (c : ℕ) (t : Bytes)
    → 0x2028 ≤ c
    → c ≤ 0x2029
    → read_string plain (codes "\\u202" ++ hex_at (c % 16) ∷ t)
      ≡ prepend (encode_rune c) (read_string plain t)
read_string_separator c t h k =
    let digits_read =
      read_string_digits 2 0 2 (c % 16) t (omega arith) (omega arith) (omega arith) (omega arith) in
    let start : codes "\\u202" ≡ codes "\\u" ++ hex_at 2 ∷ hex_at 0 ∷ hex_at 2 ∷ [] =
      unfold hex_at in refl in
    let same : ((2 * 16 + 0) * 16 + 2) * 16 + c % 16 ≡ c = omega arith in
    ap (λ x. read_string plain (x ++ hex_at (c % 16) ∷ t)) start
    ∙ digits_read
    ∙ ap (λ r. prepend (encode_rune r) (read_string plain t)) same

pub read_string_broken :
    (t : Bytes)
    → read_string plain (codes "\\ufffd" ++ t)
      ≡ prepend (encode_rune rune_error) (read_string plain t)
read_string_broken t =
    let digits_read =
      read_string_digits 15 15 15 13 t (omega arith) (omega arith) (omega arith) (omega arith) in
    let start : codes "\\ufffd"
        ≡ codes "\\u" ++ hex_at 15 ∷ hex_at 15 ∷ hex_at 15 ∷ hex_at 13 ∷ [] =
      unfold hex_at in refl in
    ap (λ x. read_string plain (x ++ t)) start ∙ digits_read
