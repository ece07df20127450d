-- ===== src/Json/Scratch.antt =====
-- pkg/api/marshal.go: only `writeJsonFloat` changes `jsonScratch`.
use timescale_prometheus.Labels.{Label}
use timescale_prometheus.Prelude.Bytes.{Bytes, codes}
use timescale_prometheus.Prelude.Utf8.{rune_error, decode_rune}
use timescale_prometheus.Json.{
  ErrorWrapper, html_safe_set, safe_set, hex_at, write_piece, write_strings, write_bytes,
  write_kept, write_escape, escape_loop, write_escaped_string, marshal_labels,
}
use timescale_prometheus.Prelude.{
  ℕ, zero, suc, ◌≡◌, ◌/◌, ◌%◌, refl, ◌∙◌, Bool, true, false, not, ◌&&◌, ◌||◌, inl, inr, Option,
  List, [], ◌∷◌, ◌++◌, ltb, ◌==◌, if◌then◌else◌, length, take, drop, arith, Option-cases,
  Bool-cases,
}

module _ {E W : Type 0} (write : Bytes → W → Option E × W) where
  abbrev pub Keeps : ErrorWrapper E W → ErrorWrapper E W → Type 0
  Keeps out out' = out'.json_scratch ≡ out.json_scratch

  pub write_piece-Keeps : (s : Bytes) (out : ErrorWrapper E W) → Keeps out (write_piece write s out)
  unfolding write_piece
  write_piece-Keeps s out = elim (Option-cases out.err) [
    | inl e ↦ ground arith
    | inr (x, e) ↦ ground arith
  ]

  pub write_strings-Keeps :
      (ss : List Bytes) (out : ErrorWrapper E W) → Keeps out (write_strings write ss out)
  unfolding write_strings
  write_strings-Keeps [] out = refl
  write_strings-Keeps (s ∷ ss) out =
      write_strings-Keeps ss (write_piece write s out) ∙ write_piece-Keeps s out

  write_kept-Keeps : (kept : Bytes) (out : ErrorWrapper E W) → Keeps out (write_kept write kept out)
  unfolding write_kept
  write_kept-Keeps [] out = refl
  write_kept-Keeps (c ∷ cs) out = write_strings-Keeps ((c ∷ cs) ∷ []) out

  write_escape-Keeps : (b : ℕ) (out : ErrorWrapper E W) → Keeps out (write_escape write b out)
  unfolding write_escape write_bytes
  write_escape-Keeps b out =
      let s = λ (t : Bytes). write_strings-Keeps (t ∷ []) out in
      let s1 = s (codes "\\\\") in
      let s2 = s (codes "\\\"") in
      let s3 = s (codes "\\n") in
      let s4 = s (codes "\\r") in
      let s5 = s (codes "\\t") in
      let s6 =
        write_piece-Keeps (hex_at (b / 16) ∷ hex_at (b % 16) ∷ [])
          (write_strings write (codes "\\u00" ∷ []) out)
        ∙ s (codes "\\u00") in
      elim (Bool-cases (b == b'\\')) [
        | inl e ↦ ground arith
        | inr e ↦ elim (Bool-cases (b == b'"')) [ inl f ↦ ground arith | inr f ↦ ground arith ]
      ]

  escape_loop-Keeps :
      (n : ℕ) (html : Bool) (kept s : Bytes) (out : ErrorWrapper E W)
      → Keeps out (escape_loop write n html kept s out)
  unfolding escape_loop write_bytes
  escape_loop-Keeps zero html kept s out = write_kept-Keeps kept out
  escape_loop-Keeps (suc n) html kept [] out = write_kept-Keeps kept out
  escape_loop-Keeps (suc n) html kept (b ∷ bs) out =
      let c = (decode_rune (b ∷ bs)).0 in
      let size = (decode_rune (b ∷ bs)).1 in
      let rest = drop size (b ∷ bs) in
      let k = write_kept-Keeps kept out in
      let o1 = write_kept write kept out in
      let o2 = write_escape write b o1 in
      let o3 = write_strings write (codes "\\ufffd" ∷ []) o1 in
      let o4 = write_strings write (codes "\\u202" ∷ []) o1 in
      let o5 = write_piece write (hex_at (c % 16) ∷ []) o4 in
      let a1 = escape_loop-Keeps n html (kept ++ b ∷ []) bs out in
      let a2 = escape_loop-Keeps n html [] bs o2 ∙ write_escape-Keeps b o1 ∙ k in
      let a3 =
        escape_loop-Keeps n html [] rest o3 ∙ write_strings-Keeps (codes "\\ufffd" ∷ []) o1 ∙ k in
      let a4 =
        escape_loop-Keeps n html [] rest o5
        ∙ write_piece-Keeps (hex_at (c % 16) ∷ []) o4
        ∙ write_strings-Keeps (codes "\\u202" ∷ []) o1
        ∙ k in
      let a5 = escape_loop-Keeps n html (kept ++ take size (b ∷ bs)) rest out in
      elim (Bool-cases (ltb b 0x80)) [
        | inl ascii ↦ elim (Bool-cases (html_safe_set b || (not html && safe_set b))) [
          | inl safe ↦ ground arith
          | inr unsafe ↦ ground arith
        ]
        | inr other ↦ elim (Bool-cases ((c == rune_error) && (size == 1))) [
          | inl broken ↦ ground arith
          | inr fine ↦ elim (Bool-cases ((c == 0x2028) || (c == 0x2029))) [
            | inl line ↦ ground arith
            | inr whole ↦ ground arith
          ]
        ]
      ]

  write_escaped_string-Keeps :
      (s : Bytes) (html : Bool) (out : ErrorWrapper E W)
      → Keeps out (write_escaped_string write s html out)
  unfolding write_escaped_string
  write_escaped_string-Keeps s html out =
      let a = escape_loop-Keeps (length s) html [] s out in
      elim (Option-cases out.err) [ inl e ↦ ground arith | inr (x, e) ↦ ground arith ]

  pub marshal_labels-Keeps :
      (first : Bool) (ls : List Label) (out : ErrorWrapper E W)
      → Keeps out (marshal_labels write first ls out)
  unfolding marshal_labels
  marshal_labels-Keeps first [] out = refl
  marshal_labels-Keeps first (l ∷ ls) out =
      let o1 = write_strings write ((if first then codes "\"" else codes ",\"") ∷ []) out in
      let o2 = write_escaped_string write l.name true o1 in
      let o3 = write_strings write (codes "\":\"" ∷ []) o2 in
      let o4 = write_escaped_string write l.value true o3 in
      let o5 = write_strings write (codes "\"" ∷ []) o4 in
      marshal_labels-Keeps false ls o5
      ∙ write_strings-Keeps (codes "\"" ∷ []) o4
      ∙ write_escaped_string-Keeps l.value true o3
      ∙ write_strings-Keeps (codes "\":\"" ∷ []) o2
      ∙ write_escaped_string-Keeps l.name true o1
      ∙ write_strings-Keeps ((if first then codes "\"" else codes ",\"") ∷ []) out
