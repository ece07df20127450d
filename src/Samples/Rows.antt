-- ===== src/Samples/Rows.antt =====
-- The rows that the iterator of pkg/pgmodel/sql_utils.go yields.
use timescale_prometheus.Prelude.Int.{incr, max_int64, ℤ, pos, ltb_ℤ}
use timescale_prometheus.Prelude.{drop_cons, drop_nil}
use timescale_prometheus.Prelude.{
  ℕ, zero, suc, ◌+◌, ◌<◌, ◌≡◌, refl, sym, ap, ◌∙◌, ◌≢◌, true, false, some, List, [], ◌∷◌, ◌++◌,
  arith, ltb, if◌then◌else◌, length, get_elem?, drop, All, length-append,
}
use timescale_prometheus.Samples.{
  Row, Sample, SamplesInfo, SampleInfoIterator, reset_position, is_spent, next, values, collect,
  num_rows,
}
use mathlib.Core.Path.{subst}

nonempty : {A : Type 0} (xs : List A) → xs ≢ [] → (x : A) × (r : List A) × (xs ≡ x ∷ r)
nonempty [] h = absurd (h refl)
nonempty (x ∷ xs) h = (x, xs, refl)

module _ {F : Type 0} where
  -- The rows of one series, and of all of them, in order.
  unfoldable pub rows_of : ℤ → List (Sample F) → List (Row F)
  rows_of id [] = []
  rows_of id (s ∷ ss) = (s.timestamp, s.value, id) ∷ rows_of id ss

  unfoldable pub all_rows : List (SamplesInfo F) → List (Row F)
  all_rows [] = []
  all_rows (info ∷ infos) = rows_of info.series_id info.samples ++ all_rows infos

  -- The least timestamp, `seen` included.
  unfoldable pub min_time : ℤ → List (Row F) → ℤ
  min_time seen [] = seen
  min_time seen (r ∷ rs) = min_time (if ltb_ℤ r.0 seen then r.0 else seen) rs

  abbrev pub HasSamples : SamplesInfo F → Type 0
  HasSamples info = info.samples ≢ []

  -- The rows still to come at the sample `j` of the series at the cursor.
  record At (t : SampleInfoIterator F) (info : SamplesInfo F) (post : List (SamplesInfo F)) (j : ℕ)
      (ss : List (Sample F)) : Type 0 where
    sample : incr t.sample_index ≡ pos j
    series : drop t.sample_info_index t.sample_infos ≡ info ∷ post
    left : drop j info.samples ≡ ss

  step_same :
      (t : SampleInfoIterator F) (info : SamplesInfo F) (post : List (SamplesInfo F)) (j : ℕ)
      (s : Sample F) (ss : List (Sample F))
      → At t info post j (s ∷ ss)
      → next t ≡ (true, record t { sample_index = pos j })
  unfolding next is_spent
  step_same t info post j s ss h =
      let (at_a, _, inside) = drop_cons t.sample_infos t.sample_info_index info post h.series in
      let (_, _, more) = drop_cons info.samples j s ss h.left in ground (arith, h.sample)

  step_over :
      (t : SampleInfoIterator F) (info : SamplesInfo F) (post : List (SamplesInfo F)) (j : ℕ)
      → At t info post j []
      → next t ≡ (
        ltb (t.sample_info_index + 1) (length t.sample_infos),
        record t { sample_info_index = t.sample_info_index + 1; sample_index = pos 0 },
      )
  unfolding next is_spent
  step_over t info post j h =
      let (at_a, _, inside) = drop_cons t.sample_infos t.sample_info_index info post h.series in
      ground (arith, h.sample, drop_nil info.samples j h.left)

  step_values :
      (t : SampleInfoIterator F) (info : SamplesInfo F) (s : Sample F) (j : ℕ)
      → get_elem? t.sample_infos t.sample_info_index ≡ some info
      → t.sample_index ≡ pos j
      → get_elem? info.samples j ≡ some s
      → values t
        ≡ some (
          (s.timestamp, s.value, info.series_id),
          record t { min_seen = if ltb_ℤ s.timestamp t.min_seen then s.timestamp else t.min_seen },
        )
  unfolding values
  step_values t info s j at_a at_j here = ground arith

  -- What the loop returns: the given rows, and the least timestamp among them.
  abbrev Yields : ℕ → SampleInfoIterator F → List (Row F) → Type 0
  Yields fuel t rows =
      (u : SampleInfoIterator F) × (collect fuel t ≡ some (rows, u))
      × (u.sample_infos ≡ t.sample_infos)
      × (u.min_seen ≡ min_time t.min_seen rows)

  collect_row :
      (fuel : ℕ) (t t' t'' : SampleInfoIterator F) (row : Row F) (rows : List (Row F))
      → next t ≡ (true, t')
      → values t' ≡ some (row, t'')
      → (t''.sample_infos ≡ t.sample_infos)
        × (t''.min_seen ≡ (if ltb_ℤ row.0 t.min_seen then row.0 else t.min_seen))
      → Yields fuel t'' rows
      → Yields (suc fuel) t (row ∷ rows)
  unfolding collect min_time
  collect_row fuel t t' t'' row rows e f (same, least) (u, yields, infos, seen) =
      (u, ground arith, infos ∙ same, seen ∙ ap (λ m. min_time m rows) least)

  collect_end :
      (fuel : ℕ) (t t' : SampleInfoIterator F)
      → next t ≡ (false, t')
      → (t'.sample_infos ≡ t.sample_infos) × (t'.min_seen ≡ t.min_seen)
      → Yields (suc fuel) t []
  unfolding collect min_time
  collect_end fuel t t' e (same, least) = (t', ground arith, same, least)

  collect_from :
      (fuel : ℕ) (t : SampleInfoIterator F) (info : SamplesInfo F) (post : List (SamplesInfo F))
      (j : ℕ) (ss : List (Sample F))
      → At t info post j ss
      → All HasSamples post
      → length ss + num_rows post < fuel
      → Yields fuel t (rows_of info.series_id ss ++ all_rows post)
  unfolding rows_of all_rows num_rows
  collect_from zero t info post j ss h full enough = absurd (omega arith)
  collect_from (suc fuel) t info post j (s ∷ ss) h full enough =
      let (at_a, _, inside) = drop_cons t.sample_infos t.sample_info_index info post h.series in
      let (at_j, left, more) = drop_cons info.samples j s ss h.left in
      let t' = record t { sample_index = pos j } in
      let t'' = record t' {
        min_seen = if ltb_ℤ s.timestamp t.min_seen then s.timestamp else t.min_seen;
      } in
      collect_row fuel t t' t'' (s.timestamp, s.value, info.series_id)
        (rows_of info.series_id ss ++ all_rows post) (step_same t info post j s ss h)
        (step_values t' info s j at_a refl at_j) (refl, refl)
        (collect_from fuel t'' info post (suc j) ss
          (record { sample = refl; series = h.series; left = left }) full (omega arith))
  collect_from (suc fuel) t info [] j [] h full enough =
      let (_, none_left, _) = drop_cons t.sample_infos t.sample_info_index info [] h.series in
      let t' = record t { sample_info_index = t.sample_info_index + 1; sample_index = pos 0 } in
      let ended = drop_nil t.sample_infos (suc t.sample_info_index) none_left in
      collect_end fuel t t' (step_over t info [] j h ∙ ground arith) (refl, refl)
  collect_from (suc fuel) t info (info' ∷ post) j [] h full enough =
      let (s, ss, e) = nonempty info'.samples full.0 in
      let (_, series, _) =
        drop_cons t.sample_infos t.sample_info_index info (info' ∷ post) h.series in
      let a : t.sample_info_index + 1 ≡ suc t.sample_info_index = omega arith in
      let series' : drop (t.sample_info_index + 1) t.sample_infos ≡ info' ∷ post = rw a series in
      let (at_a, _, inside) =
        drop_cons t.sample_infos (t.sample_info_index + 1) info' post series' in
      let t' = record t { sample_info_index = t.sample_info_index + 1; sample_index = pos 0 } in
      let t'' = record t' {
        min_seen = if ltb_ℤ s.timestamp t.min_seen then s.timestamp else t.min_seen;
      } in
      let moved : next t ≡ (true, t') = step_over t info (info' ∷ post) j h ∙ ground arith in
      let at_0 : get_elem? info'.samples 0 ≡ some s = rw e refl in
      let rest =
        collect_from fuel t'' info' post 1 ss
          (record { sample = refl; series = series'; left = rw e refl }) full.1
          (omega (arith, ap length e)) in
      subst (λ l. Yields (suc fuel) t (rows_of info'.series_id l ++ all_rows post)) (sym e)
        (collect_row fuel t t' t'' (s.timestamp, s.value, info'.series_id)
          (rows_of info'.series_id ss ++ all_rows post) moved
          (step_values t' info' s 0 at_a refl at_0) (refl, refl) rest)

  length-rows_of : (id : ℤ) (ss : List (Sample F)) → length (rows_of id ss) ≡ length ss
  unfolding rows_of
  length-rows_of id [] = refl
  length-rows_of id (s ∷ ss) = ap suc (length-rows_of id ss)

  pub length-all_rows : (infos : List (SamplesInfo F)) → length (all_rows infos) ≡ num_rows infos
  unfolding all_rows num_rows
  length-all_rows [] = refl
  length-all_rows (info ∷ infos) = omega (
    arith,
    length-append (rows_of info.series_id info.samples) (all_rows infos),
    length-rows_of info.series_id info.samples,
    length-all_rows infos,
  )

  collect_reset :
      (t : SampleInfoIterator F) (infos : List (SamplesInfo F)) (fuel : ℕ)
      → t.sample_infos ≡ infos
      → All HasSamples infos
      → num_rows infos < fuel
      → Yields fuel (reset_position t) (all_rows infos)
  unfolding reset_position all_rows num_rows
  collect_reset t infos zero e full enough = absurd (omega arith)
  collect_reset t [] (suc fuel) e full enough =
      let t' = record (reset_position t) { sample_index = pos 0 } in
      collect_end fuel (reset_position t) t' (unfold next is_spent in (rw e refl)) (refl, refl)
  collect_reset t (info ∷ post) (suc fuel) e full enough =
      collect_from (suc fuel) (reset_position t) info post 0 info.samples
        (record { sample = refl; series = e; left = refl }) full.1 enough

  -- After a reset, the loop of doInsert over the iterator collects, when no series is without
  -- samples and the fuel exceeds the number of samples, every sample of every series in order, as
  -- many as doInsert counts; no index is out of range, and MinSeen is the least timestamp.
  pub collect_rows :
      (t : SampleInfoIterator F) (fuel : ℕ)
      → All HasSamples t.sample_infos
      → num_rows t.sample_infos < fuel
      → (u : SampleInfoIterator F) × (collect fuel (reset_position t)
          ≡ some (all_rows t.sample_infos, u))
        × (length (all_rows t.sample_infos) ≡ num_rows t.sample_infos)
        × (u.sample_infos ≡ t.sample_infos)
        × (u.min_seen ≡ min_time max_int64 (all_rows t.sample_infos))
  unfolding reset_position
  collect_rows t fuel full enough =
      let (u, yields, same, least) = collect_reset t t.sample_infos fuel refl full enough in
      (u, yields, length-all_rows t.sample_infos, same, least)
