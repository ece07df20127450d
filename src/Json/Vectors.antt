-- ===== src/Json/Vectors.antt =====
-- pkg/api/marshal.go: the timestamp that a vector formats once stays in the scratch buffer.
use timescale_prometheus.Prelude.Int.{ℤ}
use timescale_prometheus.Prelude.Bytes.{Bytes, codes}
use timescale_prometheus.Json.{
  Sample, Floats, ErrorWrapper, new_wrapper, json_float, write_strings, opening,
  marshal_common_header, marshal_labels, write_bytes, write_piece,
}
use timescale_prometheus.Json.Values.{
  write_float, write_json_float, write_cached_json_float, write_time, marshal_samples,
  marshal_vector_data, marshal_vector_response,
}
use timescale_prometheus.Json.Emitting.{
  concat, write_until, Writes, Writes-nil, Writes-append, write_piece-Writes,
}
use timescale_prometheus.Json.Documents.{
  commas, items, array, object, quote, field, one-Writes, retext, items_cons, opening-Writes,
  marshal_labels-Writes,
}
use timescale_prometheus.Json.Responses.{
  point_text, sample_text, result_text, response_text, value-Writes, result-Writes, response-Writes,
}
use timescale_prometheus.Json.Scratch.{
  Keeps, write_piece-Keeps, write_strings-Keeps, marshal_labels-Keeps,
}
use timescale_prometheus.Prelude.{
  ℕ, ◌≡◌, ◌==◌, refl, ap, sym, ◌∙◌, Bool, true, false, ◌⊎◌, inl, inr, Option, none, List, [], ◌∷◌,
  ◌++◌, map, length, take, drop, All, arith, append_assoc, take-append_length, Bool-cases,
}
use mathlib.Core.Path.{subst}

module _ {F E W : Type 0} (floats : Floats F) (write : Bytes → W → Option E × W) (t : ℤ) where
  -- Either no timestamp was formatted, or its text starts the scratch buffer.
  abbrev Cached : ℕ → ErrorWrapper E W → Type 0
  Cached n out = (n ≡ 0) ⊎ (take n out.json_scratch ≡ json_float floats (floats.of_millis t))

  Cached-Keeps :
      (n : ℕ) (out out' : ErrorWrapper E W) → Keeps write out out' → Cached n out → Cached n out'
  Cached-Keeps n out out' k (inl e) = inl e
  Cached-Keeps n out out' k (inr e) = inr (ap (take n) k ∙ e)

  abbrev Timed : ErrorWrapper E W → ℕ × ErrorWrapper E W → Type 0
  Timed out r = Writes write out (json_float floats (floats.of_millis t)) r.1 × Cached r.0 r.1

  first_time :
      (n : ℕ) (s : Sample F) (out : ErrorWrapper E W)
      → s.point.timestamp ≡ t
      → n ≡ 0
      → Timed out (write_time floats write n s out)
  unfolding write_time write_json_float write_bytes
  first_time n s out e z =
      let b = json_float floats (floats.of_millis t) in
      let scratch = b ++ drop (length b) out.json_scratch in
      let o = record out { json_scratch = scratch } in
      let kept = write_piece-Keeps write b o in
      let start = take-append_length (length b) b (drop (length b) out.json_scratch) refl in
      let goal : (length b, write_piece write b o) ≡ write_time floats write n s out =
        ground arith in
      subst (Timed out) goal (write_piece-Writes write b o, inr (ap (take (length b)) kept ∙ start))

  write_time-Writes :
      (n : ℕ) (s : Sample F) (out : ErrorWrapper E W)
      → s.point.timestamp ≡ t
      → Cached n out
      → Timed out (write_time floats write n s out)
  unfolding write_time write_cached_json_float write_bytes
  write_time-Writes n s out e (inl z) = first_time n s out e z
  write_time-Writes n s out e (inr c) =
      let b = json_float floats (floats.of_millis t) in
      elim (Bool-cases (n == 0)) [
        | inl z ↦ first_time n s out e (ground arith)
        | inr z ↦
            let kept = write_piece-Keeps write b out in
            let goal : (n, write_piece write b out) ≡ write_time floats write n s out =
              ground arith in
            subst (Timed out) goal (write_piece-Writes write b out, inr (ap (take n) kept ∙ c))
      ]

  write_float-Keeps :
      (f : F) (out : ErrorWrapper E W) → Keeps write out (write_float floats write f out)
  unfolding write_float write_bytes
  write_float-Keeps f out =
      let b = floats.append_float false f in
      write_piece-Keeps write b (record out { float_scratch = b })

  marshal_samples-Writes :
      (first : Bool) (n : ℕ) (ss : List (Sample F)) (out : ErrorWrapper E W)
      → All (λ s. s.point.timestamp ≡ t) ss
      → Cached n out
      → Writes write out
          (items first (map (sample_text floats) ss))
          (marshal_samples floats write first n ss out)
  unfolding marshal_samples sample_text point_text array object field items commas quote
  marshal_samples-Writes first n [] out same c = Writes-nil write out
  marshal_samples-Writes first n (s ∷ ss) out (e, same) c =
      let opened = opening first (codes ",{\"metric\":{") in
      let o1 = write_strings write (opened ∷ []) out in
      let o2 = marshal_labels write true s.metric o1 in
      let o3 = write_strings write (codes "},\"value\":[" ∷ []) o2 in
      let o4 = (write_time floats write n s o3).1 in
      let n' = (write_time floats write n s o3).0 in
      let o5 = write_strings write (codes ",\"" ∷ []) o4 in
      let o6 = write_float floats write s.point.value o5 in
      let o7 = write_strings write (codes "\"" ∷ []) o6 in
      let o8 = write_strings write (codes "]}" ∷ []) o7 in
      let o9 = marshal_samples floats write false n' ss o8 in
      let before =
        write_strings-Keeps write (codes "},\"value\":[" ∷ []) o2
        ∙ marshal_labels-Keeps write true s.metric o1
        ∙ write_strings-Keeps write (opened ∷ []) out in
      let (timed, c') = write_time-Writes n s o3 e (Cached-Keeps n out o3 before c) in
      let after =
        write_strings-Keeps write (codes "]}" ∷ []) o7
        ∙ write_strings-Keeps write (codes "\"" ∷ []) o6
        ∙ write_float-Keeps s.point.value o5
        ∙ write_strings-Keeps write (codes ",\"" ∷ []) o4 in
      let text = json_float floats (floats.of_millis t) in
      let of_sample : text ≡ json_float floats (floats.of_millis s.point.timestamp) =
        ap (λ m. json_float floats (floats.of_millis m)) (sym e) in
      retext write out o9
        (items_cons write first (sample_text floats s) (map (sample_text floats) ss))
        (retext write out o9 (simp append_assoc) (
          Writes-append write out o1 o9 (opening-Writes write first (codes "{\"metric\":{") out) (
            Writes-append write o1 o2 o9 (marshal_labels-Writes write true s.metric o1) (
              Writes-append write o2 o3 o9 (one-Writes write (codes "},\"value\":[") o2) (
                Writes-append write o3 o4 o9 (retext write o3 o4 of_sample timed) (
                  Writes-append write o4 o7 o9
                    (value-Writes floats write s.point.value (codes "\"") o4)
                    (Writes-append write o7 o8 o9 (one-Writes write (codes "]}") o7) (
                      marshal_samples-Writes false n' ss o8 same
                        (Cached-Keeps n' o4 o8 after c')))))))))

  -- If all samples have one timestamp, a vector response goes to the writer as pieces of the JSON
  -- document of the vector and the warnings, in order, until the writer fails, although the
  -- timestamp is formatted once and then copied from the scratch buffer; the first error is
  -- returned.
  pub marshal_vector_response_lem :
      (ss : List (Sample F)) (ws : List Bytes) (w : W)
      → All (λ s. s.point.timestamp ≡ t) ss
      → (ps : List Bytes) × (concat ps
          ≡ response_text (result_text (codes "vector") (map (sample_text floats) ss)) ws)
        × (marshal_vector_response floats write ss ws w ≡ write_until write ps (none, w))
  unfolding marshal_vector_response marshal_vector_data
  marshal_vector_response_lem ss ws w same =
      let o0 = new_wrapper w in
      let o1 = marshal_common_header write o0 in
      let o2 =
        write_strings write
          (codes "{\"resultType\":\"" ∷ codes "vector" ∷ codes "\",\"result\":[" ∷ []) o1 in
      let o3 = marshal_samples floats write true 0 ss o2 in
      let xs = map (sample_text floats) ss in
      response-Writes floats write (result_text (codes "vector") xs) ws o0
        (write_strings write (codes "]}" ∷ []) o3)
        (result-Writes floats write (codes "vector") xs o1 o3
          (marshal_samples-Writes true 0 ss o2 same (inl refl)))
