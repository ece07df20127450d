-- ===== src/Ingestor/Grouping.antt =====
-- How `parseData` (pkg/pgmodel/ingestor.go) groups series by metric, whatever has been interned.
use timescale_prometheus.Prelude.Dict
use timescale_prometheus.Prelude.Dict.{Distinct}
use timescale_prometheus.Ingestor.Counting.{
  series_of-add_series, add_series-Distinct, total_rows-add_series,
}
use timescale_prometheus.Prelude.Int.{negsuc}
use timescale_prometheus.Prelude.Bytes.{Bytes, Bytes-discrete}
use timescale_prometheus.Labels.{Interner}
use timescale_prometheus.Labels.Interning.{IsValid, label_protos_to_labels-fresh, fresh_answer}
use timescale_prometheus.Samples.{SamplesInfo}
use timescale_prometheus.Ingestor.{
  TimeSeries, IngestError, series_too_long, no_metric_name, Data, parsed, failed, series_of,
  add_series, total_rows, Turn, skip, bad, good, is_empty, parse_turn, parse_loop, parse_data,
  ingest, insert_data, not_inserted,
}
use mathlib.Core.Option
use timescale_prometheus.Prelude.{
  ℕ, ◌+◌, ◌≡◌, refl, sym, ap, ◌∙◌, ◌⊎◌, inl, inr, ite, Bool, Option, none, some, List, [], ◌∷◌,
  ◌++◌, arith, if◌then◌else◌, length, Option-cases, append_assoc, append-nil,
}

module _ {F E : Type 0} where
  -- The turn for a series, from its labels and samples alone.
  unfoldable pub fresh_turn : TimeSeries F → Turn F E
  fresh_turn t = if is_empty t.samples then skip else elim (fresh_answer t.labels) [
    | none ↦ bad series_too_long
    | some (labels, metric) ↦
        if is_empty metric
        then bad no_metric_name
        else good metric (record { labels = labels; series_id = negsuc 0; samples = t.samples })
  ]

  parse_turn-fresh :
      (interner : Interner) (t : TimeSeries F)
      → IsValid interner
      → ((parse_turn {F = F} {E = E} interner t).0 ≡ fresh_turn t)
        × IsValid (parse_turn {F = F} {E = E} interner t).1
  unfolding parse_turn fresh_turn
  parse_turn-fresh interner t v =
      let (same, valid) = label_protos_to_labels-fresh interner t.labels v in
      (ground arith, ground arith)

  Turn-cases :
      (x : Turn F E)
      → (x ≡ skip)
        ⊎ (((b : IngestError E) × (x ≡ bad b))
            ⊎ ((metric : Bytes) × (info : SamplesInfo F) × (x ≡ good metric info)))
  Turn-cases skip = inl refl
  Turn-cases (bad b) = inr (inl (b, refl))
  Turn-cases (good metric info) = inr (inr (metric, info, refl))

  good_samples :
      (t : TimeSeries F) (metric : Bytes) (info : SamplesInfo F)
      → fresh_turn t ≡ good metric info
      → info.samples ≡ t.samples
  unfolding fresh_turn
  good_samples t metric info h = ground arith

  skip_samples : (t : TimeSeries F) → fresh_turn t ≡ skip → length t.samples ≡ 0
  unfolding fresh_turn
  skip_samples t h = ground arith

  -- The error of the first series that has one.
  unfoldable pub first_error : List (TimeSeries F) → Option (IngestError E)
  first_error [] = none
  first_error (t ∷ tts) =
      let rest = first_error tts in
      let turn : Turn F E = fresh_turn t in
      elim turn [ skip ↦ rest | bad e ↦ some e | good metric info ↦ rest ]

-- The number of samples in a request.
unfoldable pub samples_in : {F : Type 0} → List (TimeSeries F) → ℕ
samples_in [] = 0
samples_in (t ∷ tts) = length t.samples + samples_in tts

module _ {F : Type 0} (E : Type 0) where
  -- The series of one metric among those of a request.
  unfoldable pub series_for : Bytes → List (TimeSeries F) → List (SamplesInfo F)
  series_for metric [] = []
  series_for metric (t ∷ tts) =
      let rest = series_for metric tts in
      let turn : Turn F E = fresh_turn t in
      elim turn [
        | skip ↦ rest
        | bad e ↦ rest
        | good name info ↦ ite (Bytes-discrete name metric) (info ∷ rest) rest
      ]

  -- What `parseData` makes of series with no error among them, from the map and the count so far.
  record Grouped (d : Data F) (rows : ℕ) (tts : List (TimeSeries F)) (d' : Data F) (rows' : ℕ)
      : Type 0 where
    grouped : (metric : Bytes) → series_of metric d' ≡ series_of metric d ++ series_for metric tts
    counted : rows' + total_rows d ≡ rows + total_rows d'
    distinct : Distinct Bytes-discrete d'
    sampled : rows' ≡ rows + samples_in tts

  skip-Grouped :
      (t : TimeSeries F) (d : Data F) (rows : ℕ) (tts : List (TimeSeries F)) (d' : Data F)
      (rows' : ℕ)
      → fresh_turn {F = F} {E = E} t ≡ skip
      → Grouped d rows tts d' rows'
      → Grouped d rows (t ∷ tts) d' rows'
  unfolding series_for samples_in
  skip-Grouped t d rows tts d' rows' f g = record {
    grouped = λ metric. ground (arith, g.grouped metric);
    counted = g.counted;
    distinct = g.distinct;
    sampled = omega (arith, g.sampled, skip_samples t f);
  }

  good-Grouped :
      (t : TimeSeries F) (metric : Bytes) (info : SamplesInfo F) (d : Data F) (rows : ℕ)
      (tts : List (TimeSeries F)) (d' : Data F) (rows' : ℕ)
      → fresh_turn {F = F} {E = E} t ≡ good metric info
      → Distinct Bytes-discrete d
      → Grouped (add_series metric info d) (rows + length t.samples) tts d' rows'
      → Grouped d rows (t ∷ tts) d' rows'
  unfolding series_for samples_in
  good-Grouped t metric info d rows tts d' rows' f h g = record {
    grouped = λ other. ground (
      arith,
      g.grouped other,
      series_of-add_series metric other info d,
      append_assoc (series_of metric d) (info ∷ []) (series_for other tts),
    );
    counted = omega (
      arith,
      g.counted,
      total_rows-add_series metric info d h,
      ap length (good_samples t metric info f),
    );
    distinct = g.distinct;
    sampled = omega (arith, g.sampled);
  }

  parse_loop-Grouped :
      (interner : Interner) (d : Data F) (rows : ℕ) (tts : List (TimeSeries F))
      → IsValid interner
      → Distinct Bytes-discrete d
      → first_error {F = F} {E = E} tts ≡ none
      → (d' : Data F) × (rows' : ℕ) × ((parse_loop {F = F} {E = E} interner d rows tts).0
          ≡ parsed d' rows')
        × Grouped d rows tts d' rows'
  unfolding parse_loop first_error series_for samples_in
  parse_loop-Grouped interner d rows [] v h e = (
    d,
    rows,
    refl,
    record {
      grouped = λ metric. sym (append-nil (series_of metric d));
      counted = refl;
      distinct = h;
      sampled = omega arith;
    },
  )
  parse_loop-Grouped interner d rows (t ∷ tts) v h e =
      let (same, v') = parse_turn-fresh {F = F} {E = E} interner t v in
      let i' = (parse_turn {F = F} {E = E} interner t).1 in
      elim (Turn-cases (fresh_turn {F = F} {E = E} t)) [
        | inl f ↦
            let (d', rows', runs, g) = parse_loop-Grouped i' d rows tts v' h (ground arith) in
            (d', rows', ground arith, skip-Grouped t d rows tts d' rows' f g)
        | inr (inl (b, f)) ↦ absurd (ground arith)
        | inr (inr (metric, info, f)) ↦
            let (d', rows', runs, g) =
              parse_loop-Grouped i' (add_series metric info d) (rows + length t.samples) tts v'
                (add_series-Distinct metric info d h) (ground arith) in
            (d', rows', ground arith, good-Grouped t metric info d rows tts d' rows' f h g)
      ]

  parse_loop_failed :
      (interner : Interner) (d : Data F) (rows : ℕ) (tts : List (TimeSeries F)) (b : IngestError E)
      → IsValid interner
      → first_error tts ≡ some b
      → (rows' : ℕ) × ((parse_loop interner d rows tts).0 ≡ failed b rows')
  unfolding parse_loop first_error
  parse_loop_failed interner d rows [] b v e = absurd (ground arith)
  parse_loop_failed interner d rows (t ∷ tts) b v e =
      let (same, v') = parse_turn-fresh {F = F} {E = E} interner t v in
      let i' = (parse_turn {F = F} {E = E} interner t).1 in
      elim (Turn-cases (fresh_turn {F = F} {E = E} t)) [
        | inl f ↦
            let (rows', runs) = parse_loop_failed i' d rows tts b v' (ground arith) in
            (rows', ground arith)
        | inr (inl (b', f)) ↦ (rows, ground arith)
        | inr (inr (metric, info, f)) ↦
            let (rows', runs) =
              parse_loop_failed i' (add_series metric info d) (rows + length t.samples) tts b v'
                (ground arith) in
            (rows', ground arith)
      ]

  -- With a valid interner and no series in error, parseData gives each metric its series in the
  -- order of the request, and its count is the number of samples, both in the request and in the
  -- map.
  pub parse_data_groups :
      (interner : Interner) (tts : List (TimeSeries F))
      → IsValid interner
      → first_error {F = F} {E = E} tts ≡ none
      → (d : Data F) × ((parse_data {F = F} {E = E} interner tts).0 ≡ parsed d (samples_in tts))
        × (total_rows d ≡ samples_in tts)
        × ((metric : Bytes) → series_of metric d ≡ series_for metric tts)
  unfolding parse_data
  parse_data_groups interner tts v e =
      let (d, rows, runs, g) = parse_loop-Grouped interner [] 0 tts v tt e in
      let all : rows ≡ samples_in tts = omega (arith, g.sampled) in
      (
        d,
        runs ∙ ap (parsed d) all,
        unfold total_rows in (omega (arith, g.counted)),
        λ metric. unfold series_of Dict.lookup in (g.grouped metric),
      )

  parse_data_failed :
      (interner : Interner) (tts : List (TimeSeries F)) (b : IngestError E)
      → IsValid interner
      → first_error tts ≡ some b
      → (rows : ℕ) × ((parse_data {F = F} {E = E} interner tts).0 ≡ failed b rows)
  unfolding parse_data
  parse_data_failed interner tts b v e = parse_loop_failed interner [] 0 tts b v e

  -- With a valid interner, Ingest reports the first error of a series and no rows; with no such
  -- error it reports as many rows as the request has samples, and the error that the inserters
  -- report if it waits for them. The check of the row count never fails.
  pub ingest_reports :
      (interner : Interner) (tts : List (TimeSeries F)) (async_acks : Bool) (reported : Option E)
      → IsValid interner
      → (ingest (insert_data async_acks reported) interner tts).0
        ≡ elim (first_error {F = F} {E = E} tts) [
          | some b ↦ (0, some b)
          | none ↦ (samples_in tts, if async_acks then none else Option.map not_inserted reported)
        ]
  unfolding ingest insert_data
  ingest_reports interner tts async_acks reported v =
      elim (Option-cases (first_error {F = F} {E = E} tts)) [
        | inr (b, e) ↦ let (rows, runs) = parse_data_failed interner tts b v e in ground arith
        | inl e ↦ let (d, runs, total, _) = parse_data_groups interner tts v e in ground arith
      ]
