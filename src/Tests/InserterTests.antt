-- ===== src/Tests/InserterTests.antt =====
-- Runs and instances for the inserters of pkg/pgmodel/sql_ingest.go.
use timescale_prometheus.Prelude.Dict
use timescale_prometheus.Prelude.Bytes.{Bytes, codes}
use timescale_prometheus.Prelude.Int.{ℤ, pos, negsuc}
use timescale_prometheus.Prelude.{
  ℕ, ◌+◌, ◌≡◌, refl, Bool, true, false, inl, inr, Option, none, some, List, [], ◌∷◌, arith, length,
  get_elem?, if◌then◌else◌, ◌++◌,
}
use timescale_prometheus.Labels.{Labels}
use timescale_prometheus.Samples.{Row, SamplesInfo, reset_position}
use timescale_prometheus.Samples.Rows.{all_rows, rows_of, min_time}
use timescale_prometheus.Inserter.{
  CopyDb, Pending, Request, new_pending, copy, contains, has_prefix, decompress_chunks,
}
use timescale_prometheus.Inserter.Copying.{copy_writes, write_rows, insert_error, is_compressed}
use timescale_prometheus.SeriesIds.{SeriesCache, Sent, sent, Reply, got, refused, set_series_ids}
use timescale_prometheus.SeriesIds.Assigning.{IsServed, IsCurrent, assign}
use timescale_prometheus.SeriesIds.Replies.{set_series_ids_assigns}
use timescale_prometheus.Handler.{Handler, request, nothing, closed, run, new_handler}
use timescale_prometheus.Handler.Responses.{
  run-count, count_told, count_waiting, count, count_queued, count_requests,
}
use timescale_prometheus.Handler.Closing.{run-closed, closed_times}

abbrev labels_of : Bytes → Labels
labels_of s = record { names = []; values = []; metric_name = []; str = s }

abbrev series : ℤ → Bytes → SamplesInfo ℕ
series id s = record {
  labels = labels_of s;
  series_id = id;
  samples = record { timestamp = pos 1000; value = 5 } ∷ [];
}

-- A table that stays compressed until it is decompressed; its state is whether it is, and its rows.
abbrev Table : Type 0
Table = Bool × List (Row ℕ)

abbrev compressed_error : Bytes
compressed_error = codes "insert/update/delete not permitted on chunk"

abbrev chunks : CopyDb ℕ Bytes Table
chunks = record {
  insert = λ _ rows w.
      if w.0 then (inl compressed_error, w) else (inr (length rows), (false, w.1 ++ rows));
  delay_compression_job = λ _ _ w. (none, w);
  decompress_chunks_after = λ _ _ w. (none, (false, w.1));
  since = λ _ w. pos 0;
  message = λ e. some e;
}

abbrev buffer : Pending ℕ
buffer = record {
  needs_response = 1 ∷ 2 ∷ [];
  batch = record {
    sample_infos = series (pos 7) [] ∷ [];
    sample_info_index = 0;
    sample_index = negsuc 0;
    min_seen = pos 9223372036854775807;
  };
}

copy_writes_example :
    copy chunks [] buffer (true, [])
    ≡ some ((1, none) ∷ (2, none) ∷ [], new_pending, (false, (pos 1000, 5, pos 7) ∷ []))
unfolding reset_position all_rows rows_of min_time write_rows insert_error is_compressed contains
    has_prefix decompress_chunks
copy_writes_example =
    copy_writes chunks [] buffer buffer.batch (true, []) refl ((λ e. ground arith), tt)

-- A database where the id of a series is the length of its string.
abbrev answer : Option Labels → Reply ℕ
answer none = refused 0
answer (some l) = got (pos (length l.str)) none

abbrev by_length : List Labels → Sent ℕ
by_length ls = sent (λ i. answer (get_elem? ls i))

set_series_ids_assigns_example :
    (cache' : SeriesCache) × (set_series_ids by_length []
        (series (negsuc 0) (1 ∷ []) ∷ series (pos 4) (2 ∷ []) ∷ series (negsuc 0) (1 ∷ []) ∷ [])
      ≡ (
        none,
        cache',
        series (pos 1) (1 ∷ []) ∷ series (pos 4) (2 ∷ []) ∷ series (pos 1) (1 ∷ []) ∷ [],
      ))
    × IsCurrent length cache'
unfolding IsServed IsCurrent assign Dict.lookup
set_series_ids_assigns_example =
    set_series_ids_assigns length by_length []
      (series (negsuc 0) (1 ∷ []) ∷ series (pos 4) (2 ∷ []) ∷ series (negsuc 0) (1 ∷ []) ∷ [])
      (λ ls. ((λ i. answer (get_elem? ls i)), refl, λ i l e. ground arith)) (λ k id e. ground arith)

abbrev two_series : Request ℕ
two_series = record { infos = series (negsuc 0) (1 ∷ []) ∷ series (pos 4) (2 ∷ []) ∷ []; task = 3 }

run-count_example :
    (let (told, h') = run by_length new_handler (request two_series ∷ nothing ∷ closed ∷ []) in
      count_told 3 told + count_waiting 3 h')
    ≡ 1
unfolding count_waiting count_requests new_handler new_pending count count_queued
run-count_example =
    run-count by_length 3 new_handler (request two_series ∷ nothing ∷ closed ∷ []) (omega arith)

abbrev busy : Handler ℕ
busy = record { pending = buffer; series_cache = []; to_copiers = []; returned = false }

run-closed_example :
    (let (told, h') = run by_length busy (closed_times 5) in
      (told ≡ [])
      × (h'.to_copiers ≡ [])
      × (h'.returned ≡ false)
      × (h'.pending.batch ≡ buffer.batch)
      × (length h'.pending.needs_response ≡ 7))
run-closed_example = run-closed by_length 5 busy (omega arith) (omega arith)
