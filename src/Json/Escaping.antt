-- ===== src/Json/Escaping.antt =====
-- pkg/api/marshal.go: `WriteEscapedString` writes the escaped string, whatever runs of bytes it gathers.
use timescale_prometheus.Prelude.Bytes.{Bytes, codes}
use timescale_prometheus.Prelude.Utf8.{rune_error, decode_rune, is_invalid}
use timescale_prometheus.Json.{
  ErrorWrapper, html_safe_set, hex_at, write_piece, write_strings, write_bytes, write_kept,
  write_escape, escape_loop, write_escaped_string,
}
use timescale_prometheus.Json.Emitting.{
  escape_byte, escape_rune, escaped_from, escaped, write_until-some, Writes, Writes-nil,
  Writes-append, write_piece-Writes,
}
use timescale_prometheus.Prelude.{
  ℕ, zero, suc, ◌/◌, ◌%◌, sym, true, ◌&&◌, ◌||◌, inl, inr, Option, [], ◌∷◌, ◌++◌, ltb, ◌==◌, length,
  take, drop, arith, append_assoc, append-nil, Option-cases, Bool-cases,
}
use mathlib.Core.Path.{subst}

module _ {E W : Type 0} (write : Bytes → W → Option E × W) where
  write_kept-Writes :
      (kept : Bytes) (out : ErrorWrapper E W) → Writes write out kept (write_kept write kept out)
  unfolding write_kept write_strings
  write_kept-Writes [] out = Writes-nil write out
  write_kept-Writes (c ∷ cs) out = write_piece-Writes write (c ∷ cs) out

  write_escape-Writes :
      (b : ℕ) (out : ErrorWrapper E W) → Writes write out (escape_byte b) (write_escape write b out)
  unfolding write_escape escape_byte write_strings write_bytes
  write_escape-Writes b out =
      let u = write_piece write (codes "\\u00") out in
      let h = hex_at (b / 16) ∷ hex_at (b % 16) ∷ [] in
      let p = write_piece-Writes write in
      elim (Bool-cases (b == b'\\')) [
        | inl e ↦ let (ps, x, y) = p (codes "\\\\") out in (ps, ground arith, ground arith)
        | inr e ↦ elim (Bool-cases (b == b'"')) [
          | inl f ↦ let (ps, x, y) = p (codes "\\\"") out in (ps, ground arith, ground arith)
          | inr f ↦ elim (Bool-cases (b == b'\n')) [
            | inl g ↦ let (ps, x, y) = p (codes "\\n") out in (ps, ground arith, ground arith)
            | inr g ↦ elim (Bool-cases (b == b'\r')) [
              | inl k ↦ let (ps, x, y) = p (codes "\\r") out in (ps, ground arith, ground arith)
              | inr k ↦ elim (Bool-cases (b == b'\t')) [
                | inl l ↦ let (ps, x, y) = p (codes "\\t") out in (ps, ground arith, ground arith)
                | inr l ↦
                    let (ps, x, y) =
                      Writes-append write out u (write_piece write h u) (p (codes "\\u00") out)
                        (p h u) in
                    (ps, ground arith, ground arith)
              ]
            ]
          ]
        ]
      ]

  -- The text that is kept back comes first.
  after_kept :
      {a : Bytes} (kept : Bytes) (out out' : ErrorWrapper E W)
      → Writes write (write_kept write kept out) a out'
      → Writes write out (kept ++ a) out'
  after_kept kept out out' w =
      Writes-append write out (write_kept write kept out) out' (write_kept-Writes kept out) w

  escape_loop-Writes :
      (n : ℕ) (kept s : Bytes) (out : ErrorWrapper E W)
      → Writes write out (kept ++ escaped_from n s) (escape_loop write n true kept s out)
  unfolding escape_loop escaped_from escape_rune is_invalid
  escape_loop-Writes zero kept s out =
      subst (λ t. Writes write out t (write_kept write kept out)) (sym (append-nil kept))
        (write_kept-Writes kept out)
  escape_loop-Writes (suc n) kept [] out =
      subst (λ t. Writes write out t (write_kept write kept out)) (sym (append-nil kept))
        (write_kept-Writes kept out)
  escape_loop-Writes (suc n) kept (b ∷ bs) out =
      let c = (decode_rune (b ∷ bs)).0 in
      let size = (decode_rune (b ∷ bs)).1 in
      let rest = drop size (b ∷ bs) in
      let o1 = write_kept write kept out in
      let o2 = write_escape write b o1 in
      let o3 = write_strings write (codes "\\ufffd" ∷ []) o1 in
      let o4 = write_strings write (codes "\\u202" ∷ []) o1 in
      let o5 = write_bytes write (hex_at (c % 16) ∷ []) o4 in
      let same = append_assoc kept in
      elim (Bool-cases (ltb b 0x80)) [
        | inl ascii ↦ elim (Bool-cases (html_safe_set b)) [
          | inl safe ↦
              let (ps, x, y) = escape_loop-Writes n (kept ++ b ∷ []) bs out in
              let e = same (b ∷ []) (escaped_from n bs) in (ps, ground arith, ground arith)
          | inr unsafe ↦
              let (ps, x, y) = after_kept kept out (escape_loop write n true [] bs o2) (
                Writes-append write o1 o2 (escape_loop write n true [] bs o2)
                  (write_escape-Writes b o1) (escape_loop-Writes n [] bs o2)) in
              (ps, ground arith, ground arith)
        ]
        | inr other ↦ elim (Bool-cases ((c == rune_error) && (size == 1))) [
          | inl broken ↦
              let (ps, x, y) = after_kept kept out (escape_loop write n true [] rest o3) (
                Writes-append write o1 o3 (escape_loop write n true [] rest o3)
                  (write_piece-Writes write (codes "\\ufffd") o1)
                  (escape_loop-Writes n [] rest o3)) in
              (ps, ground arith, ground arith)
          | inr fine ↦ elim (Bool-cases ((c == 0x2028) || (c == 0x2029))) [
            | inl line ↦
                let (ps, x, y) = after_kept kept out (escape_loop write n true [] rest o5) (
                  Writes-append write o1 o5 (escape_loop write n true [] rest o5)
                    (Writes-append write o1 o4 o5 (write_piece-Writes write (codes "\\u202") o1)
                      (write_piece-Writes write (hex_at (c % 16) ∷ []) o4))
                    (escape_loop-Writes n [] rest o5)) in
                (ps, ground arith, ground arith)
            | inr whole ↦
                let (ps, x, y) = escape_loop-Writes n (kept ++ take size (b ∷ bs)) rest out in
                let e = same (take size (b ∷ bs)) (escaped_from n rest) in
                (ps, ground arith, ground arith)
          ]
        ]
      ]

  -- `WriteEscapedString` writes the escaped string.
  pub write_escaped_string-Writes :
      (s : Bytes) (out : ErrorWrapper E W)
      → Writes write out (escaped s) (write_escaped_string write s true out)
  unfolding write_escaped_string escaped
  write_escaped_string-Writes s out =
      let (ps, x, y) = escape_loop-Writes (length s) [] s out in
      elim (Option-cases out.err) [
        | inl e ↦ (ps, x, ground arith)
        | inr (f, e) ↦ let quiet = write_until-some write ps f out.writer in (ps, x, ground arith)
      ]
