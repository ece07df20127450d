-- ===== src/Tests/JsonTests.antt =====
-- Runs and instances for the JSON output of pkg/api/marshal.go.
use timescale_prometheus.Prelude.Int.{pos, pos_part}
use timescale_prometheus.Prelude.Bytes.{Bytes, codes}
use timescale_prometheus.Prelude.Utf8.{to_valid_utf8}
use timescale_prometheus.Prelude.{
  ℕ, ◌+◌, ◌/◌, ◌≡◌, refl, true, false, Option, some, none, List, [], ◌∷◌, ◌++◌, All, map, ltb,
  if◌then◌else◌, length,
}
use timescale_prometheus.Labels.{Label}
use timescale_prometheus.Json.{
  Point, Sample, Series, Floats, new_wrapper, write_escaped_string, json_float, clean_exponent,
}
use timescale_prometheus.Json.Values.{marshal_vector_response, marshal_matrix_response}
use timescale_prometheus.Json.Emitting.{concat, write_until, view}
use timescale_prometheus.Json.Reading.{read_string, plain}
use timescale_prometheus.Json.RoundTrip.{IsHtmlSafe, write_escaped_string_reads}
use timescale_prometheus.Json.Responses.{
  result_text, response_text, series_text, sample_text, marshal_matrix_response_lem,
}
use timescale_prometheus.Json.Vectors.{marshal_vector_response_lem}

-- A writer that takes 100 bytes.
abbrev to_page : Bytes → Bytes → Option ℕ × Bytes
to_page s w = if ltb (length w + length s) 100 then (none, w ++ s) else (some 28, w)

-- Numbers that are all printed alike.
abbrev ones : Floats ℕ
ones = record {
  of_millis = λ t. pos_part t / 1000;
  is_zero = λ _. false;
  is_tiny = λ _. false;
  is_huge = λ _. false;
  append_float = λ _ _. codes "1";
}

abbrev tiny : Floats ℕ
tiny = record ones { is_tiny = λ _. true; append_float = λ _ _. codes "1.5e-09" }

-- e-09 is cleaned up to e-9.
tiny_float : json_float tiny 0 ≡ codes "1.5e-9"
unfolding json_float clean_exponent
tiny_float = refl

abbrev point : Point ℕ
point = record { timestamp = pos 1000; value = 5 }

abbrev cpu : List Label
cpu = record { name = codes "__name__"; value = codes "cpu" } ∷ []

abbrev samples : List (Sample ℕ)
samples = record { point = point; metric = cpu } ∷ record { point = point; metric = [] } ∷ []

abbrev matrix : List (Series ℕ)
matrix = record { metric = cpu; points = point ∷ point ∷ [] } ∷ []

write_escaped_string_reads_example :
    (ps : List Bytes) × (view to_page
        (write_escaped_string to_page (codes "<a\n") true (new_wrapper []))
      ≡ write_until to_page ps (view to_page (new_wrapper [])))
    × All IsHtmlSafe (concat ps)
    × (read_string plain (concat ps) ≡ some (to_valid_utf8 (codes "<a\n")))
write_escaped_string_reads_example =
    write_escaped_string_reads to_page (codes "<a\n") (new_wrapper [])

marshal_matrix_response_lem_example :
    (ps : List Bytes) × (concat ps
      ≡ response_text (result_text (codes "matrix") (map (series_text ones) matrix)) [])
    × (marshal_matrix_response ones to_page matrix [] [] ≡ write_until to_page ps (none, []))
marshal_matrix_response_lem_example = marshal_matrix_response_lem ones to_page matrix [] []

marshal_vector_response_lem_example :
    (ps : List Bytes) × (concat ps
      ≡ response_text (result_text (codes "vector") (map (sample_text ones) samples)) [])
    × (marshal_vector_response ones to_page samples [] [] ≡ write_until to_page ps (none, []))
marshal_vector_response_lem_example =
    marshal_vector_response_lem ones to_page (pos 1000) samples [] [] (refl, (refl, tt))
