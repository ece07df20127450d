-- ===== src/Json/Emitting.antt =====
-- pkg/api/marshal.go: what the functions of a wrapper write, as pieces that go to the writer until it
-- fails, and the escaped string as one list of bytes.
use timescale_prometheus.Prelude.Bytes.{Bytes, codes}
use timescale_prometheus.Prelude.Utf8.{decode_rune, is_invalid}
use timescale_prometheus.Json.{ErrorWrapper, html_safe_set, hex_at, write_piece, write_strings}
use timescale_prometheus.Prelude.{
  ℕ, zero, suc, ◌≡◌, ◌/◌, ◌%◌, refl, ap, sym, ◌∙◌, ◌||◌, inl, inr, Option, none, some, List, [],
  ◌∷◌, ◌++◌, ltb, ◌==◌, if◌then◌else◌, length, take, drop, arith, append_assoc, append-nil,
  Option-cases,
}

unfoldable pub concat : List Bytes → Bytes
concat [] = []
concat (p ∷ ps) = p ++ concat ps

pub concat-append : (ps qs : List Bytes) → concat (ps ++ qs) ≡ concat ps ++ concat qs
unfolding concat
concat-append [] qs = refl
concat-append (p ∷ ps) qs = simp (concat-append ps qs, append_assoc)

-- The escape of a byte below 0x80 that is not safe.
unfoldable pub escape_byte : ℕ → Bytes
unfolding hex_at
escape_byte b =
    if b == b'\\'
    then codes "\\\\"
    else if b == b'"'
    then codes "\\\""
    else if b == b'\n'
    then codes "\\n"
    else if b == b'\r'
    then codes "\\r"
    else if b == b'\t'
    then codes "\\t"
    else codes "\\u00" ++ hex_at (b / 16) ∷ hex_at (b % 16) ∷ []

-- The rune that a string starts with, which is not ASCII, as it is written.
unfoldable pub escape_rune : ℕ × ℕ → Bytes → Bytes
escape_rune (c, size) s =
    if is_invalid (c, size)
    then codes "\\ufffd"
    else if (c == 0x2028) || (c == 0x2029)
    then codes "\\u202" ++ hex_at (c % 16) ∷ []
    else take size s

unfoldable pub escaped_from : ℕ → Bytes → Bytes
escaped_from zero s = []
escaped_from (suc n) [] = []
escaped_from (suc n) (b ∷ bs) =
    let (c, size) = decode_rune (b ∷ bs) in
    let ascii = (if html_safe_set b then b ∷ [] else escape_byte b) ++ escaped_from n bs in
    let other = escape_rune (c, size) (b ∷ bs) ++ escaped_from n (drop size (b ∷ bs)) in
    if ltb b 0x80 then ascii else other

-- A string as it is written, rune by rune.
unfoldable pub escaped : Bytes → Bytes
unfolding escaped_from
escaped s = escaped_from (length s) s

module _ {E W : Type 0} (write : Bytes → W → Option E × W) where
  -- The pieces go to the writer until one fails.
  unfoldable pub write_until : List Bytes → Option E × W → Option E × W
  write_until [] s = s
  write_until (p ∷ ps) (some e, w) = (some e, w)
  write_until (p ∷ ps) (none, w) = write_until ps (write p w)

  pub write_until-some :
      (ps : List Bytes) (e : E) (w : W) → write_until ps (some e, w) ≡ (some e, w)
  unfolding write_until
  write_until-some [] e w = refl
  write_until-some (p ∷ ps) e w = refl

  write_until-append :
      (ps qs : List Bytes) (s : Option E × W)
      → write_until (ps ++ qs) s ≡ write_until qs (write_until ps s)
  unfolding write_until
  write_until-append [] qs s = refl
  write_until-append (p ∷ ps) qs (some e, w) = sym (write_until-some qs e w)
  write_until-append (p ∷ ps) qs (none, w) = write_until-append ps qs (write p w)

  abbrev pub view : ErrorWrapper E W → Option E × W
  view out = (out.err, out.writer)

  -- From `out`, `out'` is reached by writing pieces of a text.
  abbrev pub Writes : ErrorWrapper E W → Bytes → ErrorWrapper E W → Type 0
  Writes out text out' =
      (ps : List Bytes) × (concat ps ≡ text) × (view out' ≡ write_until ps (view out))

  pub Writes-nil : (out : ErrorWrapper E W) → Writes out [] out
  unfolding concat write_until
  Writes-nil out = ([], refl, refl)

  pub Writes-append :
      {a b : Bytes} (out out' out'' : ErrorWrapper E W)
      → Writes out a out'
      → Writes out' b out''
      → Writes out (a ++ b) out''
  Writes-append out out' out'' (ps, e, f) (qs, g, h) =
      let both = concat-append ps qs in
      let run = write_until-append ps qs (view out) in
      (ps ++ qs, ground arith, h ∙ ap (write_until qs) f ∙ sym run)

  pub write_piece-Writes :
      (s : Bytes) (out : ErrorWrapper E W) → Writes out s (write_piece write s out)
  unfolding write_piece concat write_until
  write_piece-Writes s out = elim (Option-cases out.err) [
    | inl e ↦ (s ∷ [], append-nil s, ground arith)
    | inr (x, e) ↦ (s ∷ [], append-nil s, ground arith)
  ]

  pub write_strings-Writes :
      (ss : List Bytes) (out : ErrorWrapper E W)
      → Writes out (concat ss) (write_strings write ss out)
  unfolding write_strings concat
  write_strings-Writes [] out = Writes-nil out
  write_strings-Writes (s ∷ ss) out =
      Writes-append out (write_piece write s out) (write_strings write ss (write_piece write s out))
        (write_piece-Writes s out) (write_strings-Writes ss (write_piece write s out))
