-- ===== src/Json/Values.antt =====
-- pkg/api/marshal.go: how a vector and a matrix are written. Their floats go through two scratch buffers
-- of the wrapper; a vector formats the timestamp of its first sample and writes it again for the others.
use timescale_prometheus.Prelude.Bytes.{Bytes, codes}
use timescale_prometheus.Json.{
  Point, Sample, Series, Floats, ErrorWrapper, new_wrapper, json_float, write_strings, write_bytes,
  opening, marshal_common_header, marshal_common_footer, marshal_labels,
}
use timescale_prometheus.Prelude.{
  ℕ, ◌==◌, Bool, true, false, Option, List, [], ◌∷◌, ◌++◌, if◌then◌else◌, length, take, drop,
}

module _ {F E W : Type 0} (floats : Floats F) (write : Bytes → W → Option E × W) where
  unfoldable pub write_float : F → ErrorWrapper E W → ErrorWrapper E W
  unfolding write_bytes
  write_float f out =
      let text = floats.append_float false f in
      write_bytes write text (record out { float_scratch = text })

  -- The length and the wrapper. The text stands at the start of `jsonScratch`, whose 64 bytes hold every
  -- number that is formatted so.
  unfoldable pub write_json_float : F → ErrorWrapper E W → ℕ × ErrorWrapper E W
  unfolding json_float write_bytes
  write_json_float f out =
      let b = json_float floats f in
      let scratch = b ++ drop (length b) out.json_scratch in
      (length b, write_bytes write b (record out { json_scratch = scratch }))

  unfoldable pub write_cached_json_float : ℕ → ErrorWrapper E W → ErrorWrapper E W
  unfolding write_bytes
  write_cached_json_float n out = write_bytes write (take n out.json_scratch) out

  unfoldable pub marshal_points : Bool → List (Point F) → ErrorWrapper E W → ErrorWrapper E W
  unfolding write_strings write_json_float write_float opening
  marshal_points first [] out = out
  marshal_points first (point ∷ ps) out =
      let opened = write_strings write (opening first (codes ",[") ∷ []) out in
      let (_, timed) = write_json_float (floats.of_millis point.timestamp) opened in
      marshal_points false ps (
        write_strings write (codes "\"]" ∷ [])
          (write_float point.value (write_strings write (codes ",\"" ∷ []) timed)))

  unfoldable pub marshal_series : Bool → List (Series F) → ErrorWrapper E W → ErrorWrapper E W
  unfolding write_strings marshal_labels marshal_points opening
  marshal_series first [] out = out
  marshal_series first (series ∷ ss) out =
      let opened = write_strings write (opening first (codes ",{\"metric\":{") ∷ []) out in
      let labelled = marshal_labels write true series.metric opened in
      let points =
        marshal_points true series.points
          (write_strings write (codes "},\"values\":[" ∷ []) labelled) in
      marshal_series false ss (write_strings write (codes "]}" ∷ []) points)

  unfoldable pub marshal_matrix_data : List (Series F) → ErrorWrapper E W → ErrorWrapper E W
  unfolding write_strings marshal_series
  marshal_matrix_data series out = write_strings write (codes "]}" ∷ []) (
      marshal_series true series (
        write_strings write
          (codes "{\"resultType\":\"" ∷ codes "matrix" ∷ codes "\",\"result\":[" ∷ []) out))

  -- The timestamp of a sample: `floatLen` is 0 before the first one is formatted.
  unfoldable pub write_time : ℕ → Sample F → ErrorWrapper E W → ℕ × ErrorWrapper E W
  unfolding write_json_float write_cached_json_float
  write_time float_len sample out =
      if float_len == 0
      then write_json_float (floats.of_millis sample.point.timestamp) out
      else (float_len, write_cached_json_float float_len out)

  unfoldable pub marshal_samples : Bool → ℕ → List (Sample F) → ErrorWrapper E W → ErrorWrapper E W
  unfolding write_strings marshal_labels write_time write_float opening
  marshal_samples first float_len [] out = out
  marshal_samples first float_len (sample ∷ ss) out =
      let opened = write_strings write (opening first (codes ",{\"metric\":{") ∷ []) out in
      let labelled = marshal_labels write true sample.metric opened in
      let (float_len', timed) =
        write_time float_len sample (write_strings write (codes "},\"value\":[" ∷ []) labelled) in
      marshal_samples false float_len' ss (
        write_strings write (codes "]}" ∷ []) (
          write_strings write (codes "\"" ∷ [])
            (write_float sample.point.value (write_strings write (codes ",\"" ∷ []) timed))))

  unfoldable pub marshal_vector_data : List (Sample F) → ErrorWrapper E W → ErrorWrapper E W
  unfolding write_strings marshal_samples
  marshal_vector_data samples out = write_strings write (codes "]}" ∷ []) (
      marshal_samples true 0 samples (
        write_strings write
          (codes "{\"resultType\":\"" ∷ codes "vector" ∷ codes "\",\"result\":[" ∷ []) out))

  -- `marshalVectorResponse`, with the writer afterwards.
  unfoldable pub marshal_vector_response : List (Sample F) → List Bytes → W → Option E × W
  unfolding marshal_common_header marshal_vector_data marshal_common_footer
  marshal_vector_response samples warnings w =
      let out =
        marshal_common_footer write warnings
          (marshal_vector_data samples (marshal_common_header write (new_wrapper w))) in
      (out.err, out.writer)

  -- `marshalMatrixResponse`
  unfoldable pub marshal_matrix_response : List (Series F) → List Bytes → W → Option E × W
  unfolding marshal_common_header marshal_matrix_data marshal_common_footer
  marshal_matrix_response series warnings w =
      let out =
        marshal_common_footer write warnings
          (marshal_matrix_data series (marshal_common_header write (new_wrapper w))) in
      (out.err, out.writer)
