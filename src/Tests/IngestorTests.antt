-- ===== src/Tests/IngestorTests.antt =====
-- Runs and instances for the grouping of a write request.
use timescale_prometheus.Prelude.Int.{pos}
use timescale_prometheus.Prelude.Bytes.{Bytes, codes, Bytes-discrete, str_lt}
use timescale_prometheus.Prelude.{ℕ, ◌≡◌, refl, false, Option, some, List, [], ◌∷◌, ℕ_discrete}
use timescale_prometheus.Labels.{
  is_sorted, sort_labels, insert_label, expected_str_len, write_labels, write_string, get_str,
  new_labels, find_metric_name,
}
use timescale_prometheus.Labels.Interning.{empty-IsValid}
use timescale_prometheus.Ingestor.{
  TimeSeries, IngestError, not_inserted, Data, parsed, parse_data, series_of, total_rows, ingest,
  insert_data,
}
use timescale_prometheus.Ingestor.Grouping.{
  parse_data_groups, ingest_reports, fresh_turn, first_error, series_for, samples_in,
}

abbrev up : TimeSeries ℕ
up = record {
  labels = record { name = codes "__name__"; value = codes "up" } ∷ [];
  samples = record { timestamp = pos 1; value = 1 } ∷ record { timestamp = pos 2; value = 0 } ∷ [];
}

abbrev nameless : TimeSeries ℕ
nameless = record {
  labels = record { name = codes "job"; value = codes "up" } ∷ [];
  samples = record { timestamp = pos 1; value = 1 } ∷ [];
}

runs : List (TimeSeries ℕ) → Option (IngestError ℕ)
unfolding first_error fresh_turn new_labels find_metric_name get_str is_sorted sort_labels
    insert_label expected_str_len write_labels write_string str_lt Bytes-discrete ℕ_discrete
runs = first_error

parse_data_groups_example :
    (d : Data ℕ) × ((parse_data {F = ℕ} {E = ℕ} [] (up ∷ up ∷ [])).0 ≡ parsed d 4)
    × (total_rows d ≡ 4)
    × ((metric : Bytes) → series_of metric d ≡ series_for ℕ metric (up ∷ up ∷ []))
unfolding runs samples_in
parse_data_groups_example = parse_data_groups ℕ [] (up ∷ up ∷ []) empty-IsValid refl

ingest_reports_example :
    (ingest {E = ℕ} (insert_data false (some 9)) [] (up ∷ up ∷ [])).0 ≡ (4, some (not_inserted 9))
unfolding runs samples_in
ingest_reports_example = ingest_reports ℕ [] (up ∷ up ∷ []) false (some 9) empty-IsValid
