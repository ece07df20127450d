-- ===== src/Json.antt =====
-- pkg/api/marshal.go: the JSON text of a vector or a matrix, written piece by piece through a wrapper
-- that keeps the first error of the writer. The writer, whose state is `W`, is a parameter, and so is the
-- formatting of floats by `strconv.AppendFloat`.
pub mod Values
pub mod Emitting
pub mod Escaping
pub mod Reading
pub mod RoundTrip
pub mod Documents
pub mod Scratch
pub mod Responses
pub mod Vectors
use timescale_prometheus.Labels.{Label}
use timescale_prometheus.Prelude.Int.{ℤ}
use timescale_prometheus.Prelude.Bytes.{Bytes, codes}
use timescale_prometheus.Prelude.Utf8.{rune_error, decode_rune}
use timescale_prometheus.Prelude.{
  ℕ, zero, suc, ◌+◌, ◌-◌, ◌/◌, ◌%◌, ◌≡◌, Bool, true, false, not, ◌&&◌, ◌||◌, Option, none, some,
  List, [], ◌∷◌, ◌++◌, ltb, leb, ◌==◌, if◌then◌else◌, length, take, drop, replicate, get_elem?,
}

-- `Point` of pkg/promql/value.go, with a timestamp in milliseconds.
pub record Point (F : Type 0) : Type 0 where
  pub timestamp : ℤ
  pub value : F

pub record Sample (F : Type 0) : Type 0 where
  pub point : Point F
  pub metric : List Label

pub record Series (F : Type 0) : Type 0 where
  pub metric : List Label
  pub points : List (Point F)

-- What the code asks of floats: a timestamp in seconds, `abs != 0`, `abs < 1e-6`, `abs >= 1e21`, and
-- `strconv.AppendFloat` with the format e or f.
pub record Floats (F : Type 0) : Type 0 where
  pub of_millis : ℤ → F
  pub is_zero : F → Bool
  pub is_tiny : F → Bool
  pub is_huge : F → Bool
  pub append_float : Bool → F → Bytes

-- `errorWrapper`; the slice of `jsonScratch` that the last float took is its start.
pub record ErrorWrapper (E W : Type 0) : Type 0 where
  pub err : Option E
  pub writer : W
  pub json_scratch : Bytes
  pub float_scratch : Bytes

abbrev pub new_wrapper : {E W : Type 0} → W → ErrorWrapper E W
new_wrapper w = record { err = none; writer = w; json_scratch = replicate 64 0; float_scratch = [] }

-- `htmlSafeSet`
unfoldable pub html_safe_set : ℕ → Bool
html_safe_set b =
    leb 0x20 b
    && (not (b == b'"')
        && (not (b == b'&') && (not (b == b'<') && (not (b == b'>') && not (b == b'\\')))))

-- `safeSet`
unfoldable pub safe_set : ℕ → Bool
safe_set b = leb 0x20 b && (not (b == b'"') && not (b == b'\\'))

abbrev pub hex : Bytes
hex = codes "0123456789abcdef"

-- `hex[i]`
unfoldable pub hex_at : ℕ → ℕ
hex_at i = elim (get_elem? hex i) [ some c ↦ c | none ↦ 0 ]

-- `b = b[:n-1]` after `b[n-2] = b[n-1]`, for e-09 that is to be e-9.
unfoldable pub clean_exponent : Bytes → Bytes
clean_exponent b =
    let n = length b in
    let at : ℕ → ℕ = λ i. elim (get_elem? b i) [ some c ↦ c | none ↦ 0 ] in
    if leb 4 n && ((at (n - 4) == b'e') && ((at (n - 3) == b'-') && (at (n - 2) == b'0')))
    then take (n - 2) b ++ at (n - 1) ∷ []
    else b

-- The bytes that `writeJsonFloat` writes.
unfoldable pub json_float : {F : Type 0} → Floats F → F → Bytes
unfolding clean_exponent
json_float floats f =
    let e = not (floats.is_zero f) && (floats.is_tiny f || floats.is_huge f) in
    let b = floats.append_float e f in if e then clean_exponent b else b

-- The text between elements, for the first one without its comma: `open` and `open[1:]`.
unfoldable pub opening : Bool → Bytes → Bytes
opening first text = if first then drop 1 text else text

module _ {E W : Type 0} (write : Bytes → W → Option E × W) where
  -- `WriteStrings` and `WriteBytes`, one piece at a time.
  unfoldable pub write_piece : Bytes → ErrorWrapper E W → ErrorWrapper E W
  write_piece s out = elim out.err [
    | some _ ↦ out
    | none ↦ let (err, w) = write s out.writer in record out { err = err; writer = w }
  ]

  unfoldable pub write_strings : List Bytes → ErrorWrapper E W → ErrorWrapper E W
  unfolding write_piece
  write_strings [] out = out
  write_strings (s ∷ ss) out = write_strings ss (write_piece s out)

  unfoldable pub write_bytes : Bytes → ErrorWrapper E W → ErrorWrapper E W
  unfolding write_piece
  write_bytes b out = write_piece b out

  -- `if start < i { self.WriteStrings(s[start:i]) }`, where `kept` is `s[start:i]`.
  unfoldable pub write_kept : Bytes → ErrorWrapper E W → ErrorWrapper E W
  unfolding write_strings
  write_kept [] out = out
  write_kept (c ∷ cs) out = write_strings ((c ∷ cs) ∷ []) out

  -- What stands for a byte below 0x80 that is not safe.
  unfoldable pub write_escape : ℕ → ErrorWrapper E W → ErrorWrapper E W
  unfolding write_strings write_bytes hex_at
  write_escape b out =
      if b == b'\\'
      then write_strings (codes "\\\\" ∷ []) out
      else if b == b'"'
      then write_strings (codes "\\\"" ∷ []) out
      else if b == b'\n'
      then write_strings (codes "\\n" ∷ []) out
      else if b == b'\r'
      then write_strings (codes "\\r" ∷ []) out
      else if b == b'\t'
      then write_strings (codes "\\t" ∷ []) out
      else write_bytes (hex_at (b / 16) ∷ hex_at (b % 16) ∷ [])
          (write_strings (codes "\\u00" ∷ []) out)

  -- The loop of `WriteEscapedString`: `kept` is `s[start:i]` and the string is `s[i:]`; each round takes
  -- at least a byte, so that the length of the string is enough fuel.
  unfoldable pub escape_loop : ℕ → Bool → Bytes → Bytes → ErrorWrapper E W → ErrorWrapper E W
  unfolding write_strings write_bytes
  escape_loop zero escape_html kept s out = write_kept kept out
  escape_loop (suc n) escape_html kept [] out = write_kept kept out
  escape_loop (suc n) escape_html kept (b ∷ bs) out =
      let (c, size) = decode_rune (b ∷ bs) in
      let next = escape_loop n escape_html in
      let safe = next (kept ++ b ∷ []) bs out in
      let escaped = next [] bs (write_escape b (write_kept kept out)) in
      let broken =
        next [] (drop size (b ∷ bs)) (write_strings (codes "\\ufffd" ∷ []) (write_kept kept out)) in
      let separator = next [] (drop size (b ∷ bs)) (
        write_bytes (hex_at (c % 16) ∷ [])
          (write_strings (codes "\\u202" ∷ []) (write_kept kept out))) in
      let whole = next (kept ++ take size (b ∷ bs)) (drop size (b ∷ bs)) out in
      if ltb b 0x80
      then (if html_safe_set b || (not escape_html && safe_set b) then safe else escaped)
      else if (c == rune_error) && (size == 1)
      then broken
      else if (c == 0x2028) || (c == 0x2029)
      then separator
      else whole

  unfoldable pub write_escaped_string : Bytes → Bool → ErrorWrapper E W → ErrorWrapper E W
  unfolding escape_loop
  write_escaped_string s escape_html out =
      let written = escape_loop (length s) escape_html [] s out in
      elim out.err [ some _ ↦ out | none ↦ written ]

  unfoldable pub marshal_common_header : ErrorWrapper E W → ErrorWrapper E W
  unfolding write_strings
  marshal_common_header = write_strings (codes "{\"status\":\"success\",\"data\":" ∷ [])

  unfoldable pub marshal_warnings : Bool → List Bytes → ErrorWrapper E W → ErrorWrapper E W
  unfolding write_strings write_escaped_string opening
  marshal_warnings first [] out = out
  marshal_warnings first (warning ∷ ws) out = marshal_warnings false ws (
      write_strings (codes "\"" ∷ [])
        (write_escaped_string warning true (write_strings (opening first (codes ",\"") ∷ []) out)))

  unfoldable pub marshal_common_footer : List Bytes → ErrorWrapper E W → ErrorWrapper E W
  unfolding write_strings marshal_warnings
  marshal_common_footer warnings out =
      let with_warnings =
        write_strings (codes "]" ∷ [])
          (marshal_warnings true warnings (write_strings (codes ",\"warnings\":[" ∷ []) out)) in
      write_strings (codes "}\n" ∷ []) (if length warnings == 0 then out else with_warnings)

  unfoldable pub marshal_labels : Bool → List Label → ErrorWrapper E W → ErrorWrapper E W
  unfolding write_strings write_escaped_string
  marshal_labels first [] out = out
  marshal_labels first (label ∷ ls) out = marshal_labels false ls (
      write_strings (codes "\"" ∷ []) (
        write_escaped_string label.value true (
          write_strings (codes "\":\"" ∷ []) (
            write_escaped_string label.name true
              (write_strings ((if first then codes "\"" else codes ",\"") ∷ []) out)))))
