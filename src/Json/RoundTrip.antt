-- ===== src/Json/RoundTrip.antt =====
-- pkg/api/marshal.go: a reader of JSON strings finds in what `WriteEscapedString` writes the string that
-- was written, and nothing in it can end the string or a script element of HTML.
use timescale_prometheus.Prelude.Bytes.{Bytes}
use timescale_prometheus.Prelude.Utf8.{
  rune_error, decode_rune, encode_rune, is_invalid, to_valid, to_valid_utf8, is_valid_from,
  is_valid_string, decode_rune_size, decode_rune_ascii, decode_rune_high, decode_rune_separator,
}
use timescale_prometheus.Json.{ErrorWrapper, html_safe_set, hex_at, write_escaped_string}
use timescale_prometheus.Json.Emitting.{
  concat, escape_byte, escape_rune, escaped_from, escaped, write_until, view,
}
use timescale_prometheus.Json.Escaping.{write_escaped_string-Writes}
use mathlib.Core.Path.{subst}
use timescale_prometheus.Prelude.{
  length-drop, ℕ, zero, suc, ◌≡◌, ◌≢◌, ◌/◌, ◌%◌, ◌≤◌, ◌<◌, refl, ap, sym, ◌∙◌, true, false, ◌||◌,
  inl, inr, Option, some, List, [], ◌∷◌, ◌++◌, ltb, ◌==◌, length, take, drop, All, All-append,
  arith, Bool-cases, take-append-drop,
}
use timescale_prometheus.Json.Reading.{
  hex_value, hex_value-hex_at, plain, prepend, read_string, read_string_high, read_string_safe,
  read_string_escape, read_string_separator, read_string_broken,
}

prepend-some : (a b : Bytes) → prepend a (some b) ≡ some (a ++ b)
unfolding prepend
prepend-some a b = refl

read_string-escaped_from :
    (n : ℕ) (s : Bytes) → read_string plain (escaped_from n s) ≡ some (to_valid n s)
unfolding escaped_from to_valid escape_rune
read_string-escaped_from zero s = unfold read_string in refl
read_string-escaped_from (suc n) [] = unfold read_string in refl
read_string-escaped_from (suc n) (b ∷ bs) =
    let c = (decode_rune (b ∷ bs)).0 in
    let size = (decode_rune (b ∷ bs)).1 in
    let rest = drop size (b ∷ bs) in
    let more = read_string-escaped_from n rest in
    let t = escaped_from n rest in
    elim (Bool-cases (ltb b 0x80)) [
      | inl ascii ↦
          let one : decode_rune (b ∷ bs) ≡ (b, 1) = decode_rune_ascii b bs (ground arith) in
          let valid : is_invalid (b, 1) ≡ false = unfold is_invalid in ground arith in
          let next = read_string-escaped_from n bs in
          let safe = read_string_safe b (escaped_from n bs) in
          let escape = read_string_escape b (escaped_from n bs) (ground arith) in
          let joined = prepend-some (b ∷ []) (to_valid n bs) in ground arith
      | inr other ↦ elim (Bool-cases (is_invalid (c, size))) [
        | inl broken ↦
            let a = read_string_broken t in
            let joined = prepend-some (encode_rune rune_error) (to_valid n rest) in ground arith
        | inr fine ↦ elim (Bool-cases ((c == 0x2028) || (c == 0x2029))) [
          | inl line ↦
              let bytes = decode_rune_separator b bs (ground arith) (ground arith) in
              let a = read_string_separator c t (ground arith) (ground arith) in
              let joined = prepend-some (encode_rune c) (to_valid n rest) in ground arith
          | inr whole ↦
              let high = decode_rune_high b bs (ground arith) fine in
              let a = read_string_high (take size (b ∷ bs)) t high in
              let joined = prepend-some (take size (b ∷ bs)) (to_valid n rest) in ground arith
        ]
      ]
    ]

to_valid_same : (n : ℕ) (s : Bytes) → length s ≤ n → is_valid_from n s ≡ true → to_valid n s ≡ s
unfolding to_valid is_valid_from
to_valid_same zero [] h v = refl
to_valid_same zero (b ∷ bs) h v = absurd (omega arith)
to_valid_same (suc n) [] h v = refl
to_valid_same (suc n) (b ∷ bs) h v =
    let size = (decode_rune (b ∷ bs)).1 in
    let (least, most) = decode_rune_size b bs in
    let left = length-drop size (b ∷ bs) in
    let rest = to_valid_same n (drop size (b ∷ bs)) (omega arith) (ground arith) in
    let whole = take-append-drop size (b ∷ bs) in ground arith

-- A byte that neither ends a script element of HTML nor is a control character.
abbrev pub IsHtmlSafe : ℕ → Type 0
IsHtmlSafe c = (0x20 ≤ c) × (c ≢ b'<') × (c ≢ b'>') × (c ≢ b'&')

hex_at-IsHtmlSafe : (i : ℕ) → i < 16 → IsHtmlSafe (hex_at i)
hex_at-IsHtmlSafe i h = let v = hex_value-hex_at i h in unfold hex_value in ground arith

escape_byte-IsHtmlSafe : (b : ℕ) → b < 0x80 → All IsHtmlSafe (escape_byte b)
unfolding escape_byte
escape_byte-IsHtmlSafe b h =
    let u = hex_at-IsHtmlSafe (b / 16) (omega arith) in
    let v = hex_at-IsHtmlSafe (b % 16) (omega arith) in ground arith

high-IsHtmlSafe : (xs : Bytes) → All (λ c. 0x80 ≤ c) xs → All IsHtmlSafe xs
high-IsHtmlSafe [] h = tt
high-IsHtmlSafe (c ∷ xs) (h, hs) = (ground arith, high-IsHtmlSafe xs hs)

escape_rune-IsHtmlSafe :
    (b : ℕ) (bs : Bytes) → 0x80 ≤ b → All IsHtmlSafe (escape_rune (decode_rune (b ∷ bs)) (b ∷ bs))
unfolding escape_rune
escape_rune-IsHtmlSafe b bs h =
    let c = (decode_rune (b ∷ bs)).0 in
    let size = (decode_rune (b ∷ bs)).1 in
    elim (Bool-cases (is_invalid (c, size))) [
      | inl broken ↦ ground arith
      | inr fine ↦
          let high = high-IsHtmlSafe (take size (b ∷ bs)) (decode_rune_high b bs h fine) in
          let digit = hex_at-IsHtmlSafe (c % 16) (omega arith) in ground arith
    ]

escaped_from-IsHtmlSafe : (n : ℕ) (s : Bytes) → All IsHtmlSafe (escaped_from n s)
unfolding escaped_from html_safe_set
escaped_from-IsHtmlSafe zero s = tt
escaped_from-IsHtmlSafe (suc n) [] = tt
escaped_from-IsHtmlSafe (suc n) (b ∷ bs) =
    let size = (decode_rune (b ∷ bs)).1 in
    let rest = escaped_from-IsHtmlSafe n (drop size (b ∷ bs)) in
    let next = escaped_from-IsHtmlSafe n bs in
    elim (Bool-cases (ltb b 0x80)) [
      | inl ascii ↦
          let one = escape_byte-IsHtmlSafe b (ground arith) in
          let all = All-append IsHtmlSafe (escape_byte b) (escaped_from n bs) one next in
          ground arith
      | inr other ↦
          let one = escape_rune-IsHtmlSafe b bs (ground arith) in
          let all =
            All-append IsHtmlSafe (escape_rune (decode_rune (b ∷ bs)) (b ∷ bs))
              (escaped_from n (drop size (b ∷ bs))) one rest in
          ground arith
    ]

pub escaped-IsHtmlSafe : (s : Bytes) → All IsHtmlSafe (escaped s)
unfolding escaped
escaped-IsHtmlSafe s = escaped_from-IsHtmlSafe (length s) s

pub read_string-escaped : (s : Bytes) → read_string plain (escaped s) ≡ some (to_valid_utf8 s)
unfolding escaped to_valid_utf8
read_string-escaped s = read_string-escaped_from (length s) s

pub to_valid_utf8_same : (s : Bytes) → is_valid_string s ≡ true → to_valid_utf8 s ≡ s
unfolding to_valid_utf8 is_valid_string
to_valid_utf8_same s valid = to_valid_same (length s) s (omega arith) valid

-- WriteEscapedString with HTML escaping, whatever the writer does, hands it pieces in order until
-- one fails; joined they hold no control character and no <, > or &, and a reader of JSON strings
-- finds in them the string with each byte that is not part of a UTF-8 encoding replaced by U+FFFD.
pub write_escaped_string_reads :
    {E W : Type 0} (write : Bytes → W → Option E × W) (s : Bytes) (out : ErrorWrapper E W)
    → (ps : List Bytes) × (view write (write_escaped_string write s true out)
        ≡ write_until write ps (view write out))
      × All IsHtmlSafe (concat ps)
      × (read_string plain (concat ps) ≡ some (to_valid_utf8 s))
write_escaped_string_reads write s out =
    let (ps, e, written) = write_escaped_string-Writes write s out in
    let safe = subst (All IsHtmlSafe) (sym e) (escaped-IsHtmlSafe s) in
    (ps, written, safe, ap (read_string plain) e ∙ read_string-escaped s)
