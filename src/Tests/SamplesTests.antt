-- ===== src/Tests/SamplesTests.antt =====
-- Runs and instances for the sample iterator and the series iterator.
use timescale_prometheus.Prelude.Int.{pos, negsuc}
use timescale_prometheus.Prelude.{ℕ, ◌≡◌, true, false, some, List, [], ◌∷◌, arith, length}
use timescale_prometheus.Labels.{Labels}
use timescale_prometheus.Samples.{
  SamplesInfo, SampleInfoIterator, new_sample_info_iterator, append_info, reset_position, collect,
  num_rows,
}
use timescale_prometheus.Samples.Rows.{all_rows, rows_of, min_time, collect_rows}
use timescale_prometheus.SeriesSet.{Stamp, Float8, finite, infinity}

abbrev no_labels : Labels
no_labels = record { names = []; values = []; metric_name = []; str = [] }

abbrev cpu : SamplesInfo ℕ
cpu = record {
  labels = no_labels;
  series_id = pos 7;
  samples =
      record { timestamp = pos 30; value = 1 } ∷ record { timestamp = pos 20; value = 2 } ∷ [];
}

abbrev disk : SamplesInfo ℕ
disk = record {
  labels = no_labels;
  series_id = pos 8;
  samples = record { timestamp = negsuc 0; value = 3 } ∷ [];
}

abbrev both : SampleInfoIterator ℕ
unfolding new_sample_info_iterator append_info reset_position
both = append_info (append_info new_sample_info_iterator cpu) disk

collect_rows_example :
    (u : SampleInfoIterator ℕ) × (collect 4 (reset_position both)
      ≡ some ((pos 30, 1, pos 7) ∷ (pos 20, 2, pos 7) ∷ (negsuc 0, 3, pos 8) ∷ [], u))
    × (length (all_rows (cpu ∷ disk ∷ [])) ≡ num_rows (cpu ∷ disk ∷ []))
    × (u.sample_infos ≡ cpu ∷ disk ∷ [])
    × (u.min_seen ≡ negsuc 0)
unfolding both all_rows rows_of min_time num_rows
collect_rows_example =
    collect_rows both 4 ((λ e. ground arith), ((λ e. ground arith), tt)) (omega arith)

abbrev times : List Stamp
times =
    record { present = true; infinity_modifier = finite; unix_nano = pos 5000000 }
    ∷ record { present = false; infinity_modifier = finite; unix_nano = pos 6000000 }
    ∷ record { present = true; infinity_modifier = infinity; unix_nano = pos 0 }
    ∷ []

abbrev floats : List (Float8 ℕ)
floats =
    record { present = true; float = 1 }
    ∷ record { present = true; float = 2 }
    ∷ record { present = true; float = 3 }
    ∷ []
