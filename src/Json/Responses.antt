-- ===== src/Json/Responses.antt =====
-- pkg/api/marshal.go: a vector and a matrix are written as the documents that stand for them.
use timescale_prometheus.Prelude.Bytes.{Bytes, codes}
use timescale_prometheus.Json.{
  Point, Sample, Series, Floats, ErrorWrapper, new_wrapper, json_float, write_strings, opening,
  marshal_common_header, marshal_common_footer, marshal_labels, write_bytes,
}
use timescale_prometheus.Json.Values.{
  write_float, write_json_float, marshal_points, marshal_series, marshal_matrix_data,
  marshal_matrix_response,
}
use timescale_prometheus.Json.Emitting.{
  concat, write_until, Writes, Writes-nil, Writes-append, write_piece-Writes, write_strings-Writes,
}
use timescale_prometheus.Json.Documents.{
  commas, items, array, object, quote, field, label_text, footer_text, one-Writes, retext,
  items_cons, opening-Writes, marshal_labels-Writes, marshal_common_footer-Writes,
}
use timescale_prometheus.Prelude.{
  ◌≡◌, Bool, true, false, Option, none, List, [], ◌∷◌, ◌++◌, map, length, drop, append_assoc,
  append-nil,
}

module _ {F : Type 0} (floats : Floats F) where
  unfoldable pub point_text : Point F → Bytes
  unfolding array quote items commas
  point_text p = array (
      json_float floats (floats.of_millis p.timestamp)
      ∷ quote (floats.append_float false p.value)
      ∷ [])

  unfoldable pub series_text : Series F → Bytes
  unfolding object array field label_text point_text items commas quote
  series_text s = object (
      field (codes "metric") (object (map label_text s.metric))
      ∷ field (codes "values") (array (map point_text s.points))
      ∷ [])

  unfoldable pub sample_text : Sample F → Bytes
  unfolding object field label_text point_text items commas quote
  sample_text s = object (
      field (codes "metric") (object (map label_text s.metric))
      ∷ field (codes "value") (point_text s.point)
      ∷ [])

-- The `data` of a response: the type of the result and its elements.
unfoldable pub result_text : Bytes → List Bytes → Bytes
unfolding object field array items commas quote
result_text kind xs =
    object (field (codes "resultType") (quote kind) ∷ field (codes "result") (array xs) ∷ [])

-- A whole response.
unfoldable pub response_text : Bytes → List Bytes → Bytes
unfolding footer_text
response_text result warnings =
    codes "{\"status\":\"success\",\"data\":" ++ result ++ footer_text warnings

module _ {F E W : Type 0} (floats : Floats F) (write : Bytes → W → Option E × W) where
  pub write_json_float-Writes :
      (f : F) (out : ErrorWrapper E W)
      → Writes write out (json_float floats f) (write_json_float floats write f out).1
  unfolding write_json_float write_bytes
  write_json_float-Writes f out =
      let b = json_float floats f in
      write_piece-Writes write b
        (record out { json_scratch = b ++ drop (length b) out.json_scratch })

  write_float-Writes :
      (f : F) (out : ErrorWrapper E W)
      → Writes write out (floats.append_float false f) (write_float floats write f out)
  unfolding write_float write_bytes
  write_float-Writes f out =
      let b = floats.append_float false f in
      write_piece-Writes write b (record out { float_scratch = b })

  -- The value of a point, after its timestamp.
  pub value-Writes :
      (v : F) (close : Bytes) (out : ErrorWrapper E W)
      → Writes write out (codes ",\"" ++ floats.append_float false v ++ close) (
          write_strings write
            (close ∷ [])
            (write_float floats write v (write_strings write (codes ",\"" ∷ []) out)))
  value-Writes v close out =
      let o1 = write_strings write (codes ",\"" ∷ []) out in
      let o2 = write_float floats write v o1 in
      let o3 = write_strings write (close ∷ []) o2 in
      Writes-append write out o1 o3 (one-Writes write (codes ",\"") out)
        (Writes-append write o1 o2 o3 (write_float-Writes v o1) (one-Writes write close o2))

  marshal_points-Writes :
      (first : Bool) (ps : List (Point F)) (out : ErrorWrapper E W)
      → Writes write out
          (items first (map (point_text floats) ps))
          (marshal_points floats write first ps out)
  unfolding marshal_points point_text array items commas quote
  marshal_points-Writes first [] out = Writes-nil write out
  marshal_points-Writes first (p ∷ ps) out =
      let o1 = write_strings write (opening first (codes ",[") ∷ []) out in
      let o2 = (write_json_float floats write (floats.of_millis p.timestamp) o1).1 in
      let o3 =
        write_strings write (codes "\"]" ∷ [])
          (write_float floats write p.value (write_strings write (codes ",\"" ∷ []) o2)) in
      let o4 = marshal_points floats write false ps o3 in
      retext write out o4
        (items_cons write first (point_text floats p) (map (point_text floats) ps))
        (retext write out o4 (simp append_assoc) (
          Writes-append write out o1 o4 (opening-Writes write first (codes "[") out) (
            Writes-append write o1 o2 o4 (write_json_float-Writes (floats.of_millis p.timestamp) o1)
              (Writes-append write o2 o3 o4 (value-Writes p.value (codes "\"]") o2)
                (marshal_points-Writes false ps o3)))))

  marshal_series-Writes :
      (first : Bool) (ss : List (Series F)) (out : ErrorWrapper E W)
      → Writes write out
          (items first (map (series_text floats) ss))
          (marshal_series floats write first ss out)
  unfolding marshal_series series_text array object field items commas quote
  marshal_series-Writes first [] out = Writes-nil write out
  marshal_series-Writes first (s ∷ ss) out =
      let o1 = write_strings write (opening first (codes ",{\"metric\":{") ∷ []) out in
      let o2 = marshal_labels write true s.metric o1 in
      let o3 = write_strings write (codes "},\"values\":[" ∷ []) o2 in
      let o4 = marshal_points floats write true s.points o3 in
      let o5 = write_strings write (codes "]}" ∷ []) o4 in
      let o6 = marshal_series floats write false ss o5 in
      retext write out o6
        (items_cons write first (series_text floats s) (map (series_text floats) ss))
        (retext write out o6 (simp append_assoc) (
          Writes-append write out o1 o6 (opening-Writes write first (codes "{\"metric\":{") out) (
            Writes-append write o1 o2 o6 (marshal_labels-Writes write true s.metric o1) (
              Writes-append write o2 o3 o6 (one-Writes write (codes "},\"values\":[") o2) (
                Writes-append write o3 o4 o6 (marshal_points-Writes true s.points o3) (
                  Writes-append write o4 o5 o6 (one-Writes write (codes "]}") o4)
                    (marshal_series-Writes false ss o5)))))))

  -- The frame of a result round its elements.
  pub result-Writes :
      (kind : Bytes) (xs : List Bytes) (out out' : ErrorWrapper E W)
      → let opened =
          write_strings write
            (codes "{\"resultType\":\"" ∷ kind ∷ codes "\",\"result\":[" ∷ [])
            out in
        Writes write opened (items true xs) out'
        → Writes write out (result_text kind xs) (write_strings write (codes "]}" ∷ []) out')
  unfolding result_text array object field items commas quote concat
  result-Writes kind xs out out' w =
      let frame = codes "{\"resultType\":\"" ∷ kind ∷ codes "\",\"result\":[" ∷ [] in
      let o1 = write_strings write frame out in
      let o3 = write_strings write (codes "]}" ∷ []) out' in
      retext write out o3 (simp (append_assoc, append-nil)) (
        Writes-append write out o1 o3 (write_strings-Writes write frame out)
          (Writes-append write o1 out' o3 w (one-Writes write (codes "]}") out')))

  -- A whole response, from the wrapper after its data.
  pub response-Writes :
      (result : Bytes) (ws : List Bytes) (out out' : ErrorWrapper E W)
      → Writes write (marshal_common_header write out) result out'
      → Writes write out (response_text result ws) (marshal_common_footer write ws out')
  unfolding response_text marshal_common_header
  response-Writes result ws out out' w =
      let o1 = marshal_common_header write out in
      let o3 = marshal_common_footer write ws out' in
      Writes-append write out o1 o3
        (one-Writes write (codes "{\"status\":\"success\",\"data\":") out)
        (Writes-append write o1 out' o3 w (marshal_common_footer-Writes write ws out'))

  -- A matrix response goes to the writer as pieces of the JSON document of the matrix and the
  -- warnings, in order, until the writer fails; the first error is returned, and nothing is written
  -- after it.
  pub marshal_matrix_response_lem :
      (ss : List (Series F)) (ws : List Bytes) (w : W)
      → (ps : List Bytes) × (concat ps
          ≡ response_text (result_text (codes "matrix") (map (series_text floats) ss)) ws)
        × (marshal_matrix_response floats write ss ws w ≡ write_until write ps (none, w))
  unfolding marshal_matrix_response marshal_matrix_data
  marshal_matrix_response_lem ss ws w =
      let o0 = new_wrapper w in
      let o1 = marshal_common_header write o0 in
      let o2 =
        write_strings write
          (codes "{\"resultType\":\"" ∷ codes "matrix" ∷ codes "\",\"result\":[" ∷ []) o1 in
      let o3 = marshal_series floats write true ss o2 in
      let xs = map (series_text floats) ss in
      response-Writes (result_text (codes "matrix") xs) ws o0
        (write_strings write (codes "]}" ∷ []) o3)
        (result-Writes (codes "matrix") xs o1 o3 (marshal_series-Writes true ss o2))
