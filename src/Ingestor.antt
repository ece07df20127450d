-- ===== src/Ingestor.antt =====
-- pkg/pgmodel/ingestor.go and `InsertData` of pkg/pgmodel/sql_ingest.go: a write request is sorted into
-- the series of each metric and handed to the inserters, and the rows are counted.
pub mod Grouping
pub mod Counting
use timescale_prometheus.Prelude.Dict
use timescale_prometheus.Prelude.Int.{ℤ, negsuc}
use timescale_prometheus.Prelude.Bytes.{Bytes, Bytes-discrete}
use timescale_prometheus.Labels.{Label, Interner, label_protos_to_labels}
use timescale_prometheus.Samples.{Sample, SamplesInfo, num_rows}
use timescale_prometheus.Prelude.{
  ℕ, zero, suc, ◌+◌, ◌-◌, ◌*◌, ◌/◌, ◌%◌, ◌≤◌, ◌<◌, ◌≡◌, refl, sym, ap, ap₂, ◌∙◌, ◌≢◌, ◌↔◌, ◌⊎◌, inl,
  inr, ite, if_pos, if_neg, Bool, true, false, not, ◌&&◌, ◌||◌, Option, none, some, List, [], ◌∷◌,
  ◌++◌, arith, ltb, leb, ◌==◌, if◌then◌else◌, length, get_elem?, set, take, drop, map, All,
  Option-cases, Bool-cases, length-append, append_assoc, append-nil,
}

-- `prompb.TimeSeries`
pub record TimeSeries (F : Type 0) : Type 0 where
  pub labels : List Label
  pub samples : List (Sample F)

-- The errors of `Ingest`; `E` are those of the database.
pub data IngestError (E : Type 0) : Type 0 where
  series_too_long : IngestError E
  no_metric_name : IngestError E
  not_inserted : E → IngestError E
  wrong_count : ℕ → ℕ → IngestError E

-- `map[string][]samplesInfo`
abbrev pub Data : Type 0 → Type 0
Data F = List (Bytes × List (SamplesInfo F))

pub data Parsed (F E : Type 0) : Type 0 where
  parsed : Data F → ℕ → Parsed F E
  failed : IngestError E → ℕ → Parsed F E

module _ {F : Type 0} where
  -- `dataSamples[metricName]`, nil for a metric that is not there.
  unfoldable pub series_of : Bytes → Data F → List (SamplesInfo F)
  series_of metric d = elim (Dict.lookup Bytes-discrete metric d) [ none ↦ [] | some infos ↦ infos ]

  -- `dataSamples[metricName] = append(dataSamples[metricName], sample)`
  unfoldable pub add_series : Bytes → SamplesInfo F → Data F → Data F
  add_series metric info d = Dict.insert Bytes-discrete metric (series_of metric d ++ info ∷ []) d

  unfoldable pub total_rows : Data F → ℕ
  total_rows [] = 0
  total_rows ((metric, infos) ∷ d) = num_rows infos + total_rows d

-- What one turn of the loop of `parseData` does with a series.
pub data Turn (F E : Type 0) : Type 0 where
  skip : Turn F E
  bad : IngestError E → Turn F E
  good : Bytes → SamplesInfo F → Turn F E

abbrev pub is_empty {ℓ} : {A : Type ℓ} → List A → Bool
is_empty [] = true
is_empty (x ∷ xs) = false

module _ {F E : Type 0} where
  unfoldable pub parse_turn : Interner → TimeSeries F → Turn F E × Interner
  parse_turn interner t =
      let (found, interner') = label_protos_to_labels interner t.labels in
      if is_empty t.samples then (skip, interner) else elim found [
        | none ↦ (bad series_too_long, interner')
        | some (labels, metric) ↦ if is_empty metric then (bad no_metric_name, interner') else (
          good metric (record { labels = labels; series_id = negsuc 0; samples = t.samples }),
          interner',
        )
      ]

  -- The loop of `parseData`.
  unfoldable pub parse_loop : Interner → Data F → ℕ → List (TimeSeries F) → Parsed F E × Interner
  parse_loop interner d rows [] = (parsed d rows, interner)
  parse_loop interner d rows (t ∷ tts) =
      let (turn, interner') = parse_turn interner t in
      elim turn [
        | skip ↦ parse_loop interner' d rows tts
        | bad e ↦ (failed e rows, interner')
        | good metric info ↦
            parse_loop interner' (add_series metric info d) (rows + length t.samples) tts
      ]

  -- `parseData`
  unfoldable pub parse_data : Interner → List (TimeSeries F) → Parsed F E × Interner
  parse_data interner tts = parse_loop interner [] 0 tts

  -- `InsertData` of the inserter: the samples handed over are counted; the error, if the caller waits
  -- for the inserters, is the one that they report.
  unfoldable pub insert_data : Bool → Option E → Data F → ℕ × Option E
  insert_data async_acks reported rows = (total_rows rows, if async_acks then none else reported)

  -- `Ingest`; the inserter is `insert_new_data`.
  unfoldable pub ingest :
      (Data F → ℕ × Option E)
      → Interner
      → List (TimeSeries F)
      → (ℕ × Option (IngestError E)) × Interner
  ingest insert_new_data interner tts =
      let (result, interner') = parse_data interner tts in
      elim result [
        | failed e rows ↦ ((0, some e), interner')
        | parsed d total ↦
            let (inserted, err) = insert_new_data d in
            elim err [
              | some e ↦ ((inserted, some (not_inserted e)), interner')
              | none ↦
                  if inserted == total
                  then ((inserted, none), interner')
                  else ((inserted, some (wrong_count total inserted)), interner')
            ]
      ]
