-- ===== src/Inserter/Copying.antt =====
-- pkg/pgmodel/sql_ingest.go: what a copier does to the table and tells the tasks.
use timescale_prometheus.Prelude.Int.{pos, ◌+ℤ◌, ◌≤ℤ◌, max_int64}
use timescale_prometheus.Prelude.Bytes.{Bytes}
use timescale_prometheus.Samples.{
  Row, SampleInfoIterator, new_sample_info_iterator, reset_position, num_rows,
}
use timescale_prometheus.Samples.Rows.{all_rows, min_time, HasSamples, collect_rows}
use timescale_prometheus.Inserter.{
  CopyDb, Pending, new_pending, report_results, contains, not_permitted, minute, delay_by,
  do_insert, decompress_chunks, try_recovery, insert_error_fallback, insert_or_recover, copy,
}
use timescale_prometheus.Prelude.{
  ℕ, suc, ◌*◌, ◌≡◌, refl, sym, ap, ◌∙◌, Bool, true, false, inl, inr, Option, none, some, List, All,
  arith, ◌==◌, if◌then◌else◌, length, map, Option-cases, Sum-cases, Bool-cases,
}
use mathlib.Core.Path.{subst}

module _ {F E W : Type 0} (db : CopyDb F E W) where
  -- The error of an INSERT of the rows, and the state after it.
  unfoldable pub insert_error : Bytes → List (Row F) → W → Option E × W
  insert_error table rows w =
      let (result, w') = db.insert table rows w in
      elim result [ inl e ↦ (some e, w') | inr n ↦ (none, w') ]

  unfoldable pub is_compressed : E → Bool
  unfolding contains
  is_compressed e = elim (db.message e) [
    | none ↦ false
    | some message ↦ contains message not_permitted
  ]

  -- The rows are inserted; if the table is compressed, it is decompressed from the least timestamp on,
  -- and the rows are inserted once more.
  unfoldable pub write_rows : Bytes → List (Row F) → W → Option E × W
  unfolding insert_error is_compressed decompress_chunks min_time
  write_rows table rows w =
      let (err, w') = insert_error table rows w in
      elim err [
        | none ↦ (none, w')
        | some e ↦
            let (failed, w'') = decompress_chunks db table (min_time max_int64 rows) w' in
            let again = insert_error table rows w'' in
            if is_compressed e
            then (elim failed [ some _ ↦ (some e, w'') | none ↦ again ])
            else (some e, w')
      ]

  -- A batch whose every series has samples.
  abbrev IsFull : SampleInfoIterator F → Type 0
  IsFull t = All HasSamples t.sample_infos

  do_insert_rows :
      (table : Bytes) (t : SampleInfoIterator F) (w : W)
      → IsFull t
      → (u : SampleInfoIterator F) × (do_insert db table (reset_position t) w
          ≡ some (
            (insert_error table (all_rows t.sample_infos) w).0,
            u,
            (insert_error table (all_rows t.sample_infos) w).1,
          ))
        × (u.sample_infos ≡ t.sample_infos)
        × (u.min_seen ≡ min_time max_int64 (all_rows t.sample_infos))
  unfolding do_insert insert_error
  do_insert_rows table t w full =
      let (u, yields, size, same, least) =
        collect_rows t (suc (num_rows t.sample_infos)) full (omega arith) in
      let at : (reset_position t).sample_infos ≡ t.sample_infos = unfold reset_position in refl in
      let size' : (length (all_rows t.sample_infos) == num_rows t.sample_infos) ≡ true =
        ground arith in
      elim (Sum-cases (db.insert table (all_rows t.sample_infos) w).0) [
        | inl (e, f) ↦ (u, ground arith, same, least)
        | inr (n, f) ↦ (u, ground arith, same, least)
      ]

  insert_or_recover_rows :
      (table : Bytes) (t : SampleInfoIterator F) (w : W)
      → IsFull t
      → (u : SampleInfoIterator F) × (insert_or_recover db table (reset_position t) w
          ≡ some (
            (write_rows table (all_rows t.sample_infos) w).0,
            u,
            (write_rows table (all_rows t.sample_infos) w).1,
          ))
  unfolding insert_or_recover insert_error_fallback try_recovery write_rows is_compressed
  insert_or_recover_rows table t w full =
      let rows = all_rows t.sample_infos in
      let (u, inserts, same, least) = do_insert_rows table t w full in
      let w' = (insert_error table rows w).1 in
      let w'' = (decompress_chunks db table u.min_seen w').1 in
      let seen = ap (λ m. decompress_chunks db table m w') least in
      elim (Option-cases (insert_error table rows w).0) [
        | inl e ↦ (u, ground arith)
        | inr (e, f) ↦ elim (Option-cases (db.message e)) [
          | inl g ↦ (u, ground arith)
          | inr (message, g) ↦ elim (Bool-cases (contains message not_permitted)) [
            | inr h ↦ (u, ground arith)
            | inl h ↦ elim (Option-cases (decompress_chunks db table u.min_seen w').0) [
              | inr (e', k) ↦ (u, ground arith)
              | inl k ↦
                  let (v, again, _, _) =
                    do_insert_rows table u w'' (subst (All HasSamples) (sym same) full) in
                  let rows' = ap all_rows same in (v, ground arith)
            ]
          ]
        ]
      ]

  -- A copier that takes a buffer whose iterator is at the start and whose every series has samples
  -- does not panic: it inserts all rows of the buffer; if the error says that the table is
  -- compressed, it delays the compression, decompresses from the least timestamp on, and inserts
  -- all rows once more; it tells every waiting task the error that is left, if any, and the buffer
  -- is as new.
  pub copy_writes :
      (table : Bytes) (p : Pending F) (t : SampleInfoIterator F) (w : W)
      → p.batch ≡ reset_position t
      → IsFull t
      → let (err, w') = write_rows table (all_rows t.sample_infos) w in
        copy db table p w ≡ some (map (λ task. (task, err)) p.needs_response, new_pending, w')
  unfolding copy report_results new_pending new_sample_info_iterator
  copy_writes table p t w fresh full =
      let (u, e) = insert_or_recover_rows table t w full in
      let all = ap (λ batch. insert_or_recover db table batch w) fresh ∙ e in ground arith

-- For data that is not from the future the next compression job is delayed by an hour at least and
-- a day at most.
pub delay_by-bounds :
    (age : ℕ)
    → (pos (60 * minute) ≤ℤ delay_by (pos age)) × (delay_by (pos age) ≤ℤ pos (24 * 60 * minute))
unfolding delay_by ◌+ℤ◌
delay_by-bounds age = ground arith
