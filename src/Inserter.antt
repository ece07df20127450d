-- ===== src/Inserter.antt =====
-- pkg/pgmodel/sql_ingest.go: the buffers of an inserter and the copiers that write them to the
-- database. The database is a parameter, a record of the statements that are sent to it; `E` are its errors,
-- `W` is the state of the world. Logging and metrics are left out.
pub mod Copying
use timescale_prometheus.Prelude.Int.{ℤ, pos, ltb_ℤ, ◌+ℤ◌, div_ℤ}
use timescale_prometheus.Prelude.Bytes.{Bytes, codes}
use timescale_prometheus.Samples.{
  Row, Sample, SamplesInfo, SampleInfoIterator, new_sample_info_iterator, reset_position, collect,
  num_rows,
}
use timescale_prometheus.Prelude.{
  ℕ, zero, suc, ◌+◌, ◌-◌, ◌*◌, ◌≤◌, ◌<◌, ◌≡◌, Bool, true, false, not, ◌&&◌, ◌||◌, ◌⊎◌, inl, inr,
  Option, none, some, List, [], ◌∷◌, ◌++◌, ltb, leb, ◌==◌, if◌then◌else◌, length, map,
}

-- The statements of a copier: the INSERT with the rows affected or an error, the two calls of
-- `decompressChunks`, `time.Since` of a time in milliseconds, and the message of a `pgconn.PgError`.
pub record CopyDb (F E W : Type 0) : Type 0 where
  pub insert : Bytes → List (Row F) → W → (E ⊎ ℕ) × W
  pub delay_compression_job : Bytes → ℤ → W → Option E × W
  pub decompress_chunks_after : Bytes → ℤ → W → Option E × W
  pub since : ℤ → W → ℤ
  pub message : E → Option Bytes

-- `pendingBuffer`; a task that needs a response is the number of the call it belongs to.
pub record Pending (F : Type 0) : Type 0 where
  pub needs_response : List ℕ
  pub batch : SampleInfoIterator F

-- `insertDataRequest`
pub record Request (F : Type 0) : Type 0 where
  pub infos : List (SamplesInfo F)
  pub task : ℕ

abbrev pub flush_size : ℕ
flush_size = 2000

module _ {F : Type 0} where
  unfoldable pub new_pending : Pending F
  unfolding new_sample_info_iterator
  new_pending = record { needs_response = []; batch = new_sample_info_iterator }

  unfoldable pub has_pending_reqs : Pending F → Bool
  has_pending_reqs p = ltb 0 (length p.batch.sample_infos)

  -- `addReq`
  unfoldable pub add_req : Pending F → Request F → Bool × Pending F
  add_req p req =
      let p' = record p {
        needs_response = p.needs_response ++ req.task ∷ [];
        batch = record p.batch { sample_infos = p.batch.sample_infos ++ req.infos };
      } in
      (ltb flush_size (length p'.batch.sample_infos), p')

  -- `reportResults`: what each task is told, and the buffer afterwards.
  unfoldable pub report_results :
      {E : Type 0} → Option E → Pending F → List (ℕ × Option E) × Pending F
  unfolding reset_position
  report_results err p = (
    map (λ task. (task, err)) p.needs_response,
    record {
      needs_response = [];
      batch = reset_position (record {
        sample_infos = [];
        sample_info_index = 0;
        sample_index = pos 0;
        min_seen = pos 0;
      });
    },
  )

-- `strings.HasPrefix` and `strings.Contains`.
unfoldable pub has_prefix : Bytes → Bytes → Bool
has_prefix s [] = true
has_prefix [] (p ∷ ps) = false
has_prefix (c ∷ cs) (p ∷ ps) = (c == p) && has_prefix cs ps

unfoldable pub contains : Bytes → Bytes → Bool
unfolding has_prefix
contains [] text = has_prefix [] text
contains (c ∷ cs) text = has_prefix (c ∷ cs) text || contains cs text

abbrev pub not_permitted : Bytes
not_permitted = codes "insert/update/delete not permitted"

abbrev pub minute : ℕ
minute = 60000000000

-- The delay of the next compression job in nanoseconds, for data that is that old.
unfoldable pub delay_by : ℤ → ℤ
delay_by age =
    let delay = div_ℤ age 2 +ℤ pos (60 * minute) in
    let max_delay_by = pos (24 * 60 * minute) in
    if ltb_ℤ max_delay_by delay then max_delay_by else delay

module _ {F E W : Type 0} (db : CopyDb F E W) where
  -- `doInsert`: the error, if any, the iterator and the state. None is a panic.
  unfoldable pub do_insert :
      Bytes → SampleInfoIterator F → W → Option (Option E × SampleInfoIterator F × W)
  do_insert table batch w =
      let rows = num_rows batch.sample_infos in
      elim (collect (suc rows) batch) [
        | none ↦ none
        | some (collected, batch') ↦
            let (result, w') = db.insert table collected w in
            if length collected == rows
            then (elim result [
              | inl e ↦ some (some e, batch', w')
              | inr n ↦ some (none, batch', w')
            ])
            else none
      ]

  -- `decompressChunks`
  unfoldable pub decompress_chunks : Bytes → ℤ → W → Option E × W
  unfolding delay_by
  decompress_chunks table min_seen w =
      let (reschedule_err, w') =
        db.delay_compression_job table (delay_by (db.since min_seen w)) w in
      elim reschedule_err [
        | some e ↦ (some e, w')
        | none ↦ db.decompress_chunks_after table min_seen w'
      ]

  -- `tryRecovery`: the error that stays, the iterator and the state.
  unfoldable pub try_recovery :
      Bytes → E → SampleInfoIterator F → W → Option E × SampleInfoIterator F × W
  unfolding contains decompress_chunks reset_position
  try_recovery table err batch w = elim (db.message err) [
    | none ↦ (some err, batch, w)
    | some message ↦
        let (decompress_err, w') = decompress_chunks table batch.min_seen w in
        if contains message not_permitted
        then (elim decompress_err [
          | some _ ↦ (some err, batch, w')
          | none ↦ (none, reset_position batch, w')
        ])
        else (some err, batch, w)
  ]

  -- `insertErrorFallback`
  unfoldable pub insert_error_fallback :
      Bytes → E → SampleInfoIterator F → W → Option (Option E × SampleInfoIterator F × W)
  unfolding try_recovery do_insert
  insert_error_fallback table err batch w =
      let (err', batch', w') = try_recovery table err batch w in
      elim err' [ some e ↦ some (some e, batch', w') | none ↦ do_insert table batch' w' ]

  -- `doInsert` with `insertErrorFallback` when it fails, as `runInserter` calls them.
  unfoldable pub insert_or_recover :
      Bytes → SampleInfoIterator F → W → Option (Option E × SampleInfoIterator F × W)
  unfolding do_insert insert_error_fallback
  insert_or_recover table batch w = elim (do_insert table batch w) [
    | none ↦ none
    | some (err, batch', w') ↦ elim err [
      | none ↦ some (none, batch', w')
      | some e ↦ insert_error_fallback table e batch' w'
    ]
  ]

  -- A turn of `runInserter`: what the tasks are told, the buffer that goes back to the pool, the state.
  unfoldable pub copy : Bytes → Pending F → W → Option (List (ℕ × Option E) × Pending F × W)
  unfolding insert_or_recover report_results
  copy table p w = elim (insert_or_recover table p.batch w) [
    | none ↦ none
    | some (err, batch, w') ↦
        let (told, p') = report_results err (record p { batch = batch }) in some (told, p', w')
  ]
