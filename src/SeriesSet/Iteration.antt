-- ===== src/SeriesSet/Iteration.antt =====
-- What `Next`, `At` and `Seek` of the series iterator visit (pkg/pgmodel/series_set.go).
use timescale_prometheus.Prelude.Int.{ℤ, pos, negsuc, incr}
use timescale_prometheus.Prelude.{
  ℕ, zero, suc, ◌+◌, ◌<◌, ◌≡◌, refl, ap, ◌∙◌, inl, inr, true, false, Option, none, some, List, [],
  ◌∷◌, arith, ltb, length, drop, Bool-cases, drop_cons, drop_nil, drop_add, length-drop,
}
use timescale_prometheus.SeriesSet.{
  Stamp, Float8, SeriesIterator, new_iterator, get_ts, get_val, is_present, next_loop, next,
  seek_loop, seek, at,
}
use timescale_prometheus.SeriesSet.Skipping.{
  ts_of, skip, present_samples, skip_until, skip-found, skip-end,
}

module _ {F : Type 0} where
  -- The iterator stands before position `j` of arrays of one length.
  record Before (p : SeriesIterator F) (j : ℕ) (ts : List Stamp) (vs : List (Float8 F))
      : Type 0 where
    position : incr p.cur ≡ pos j
    stamps : drop j p.times ≡ ts
    floats : drop j p.values ≡ vs
    same : length ts ≡ length vs
    total : p.total_samples ≡ length p.times

  next_loop-skip :
      (fuel : ℕ) (p : SeriesIterator F) (j : ℕ) (ts : List Stamp) (vs : List (Float8 F))
      → Before p j ts vs
      → length ts < fuel
      → next_loop fuel p
        ≡ some (ltb (skip ts vs) (length ts), record p { cur = pos (j + skip ts vs) })
  unfolding next_loop is_present skip
  next_loop-skip zero p j ts vs b enough = absurd (omega arith)
  next_loop-skip (suc fuel) p j [] vs b enough =
      let done = drop_nil p.times j b.stamps in ground (arith, b.position, b.total)
  next_loop-skip (suc fuel) p j (t ∷ ts) [] b enough = absurd (omega (arith, b.same))
  next_loop-skip (suc fuel) p j (t ∷ ts) (v ∷ vs) b enough =
      let (at_t, ts_left, inside) = drop_cons p.times j t ts b.stamps in
      let (at_v, vs_left, _) = drop_cons p.values j v vs b.floats in
      let p' = record p { cur = pos j } in
      let rest =
        next_loop-skip fuel p' (suc j) ts vs
          (record {
            position = refl;
            stamps = ts_left;
            floats = vs_left;
            same = omega (arith, b.same);
            total = b.total;
          })
          (omega arith) in
      ground (arith, b.position, b.total)

  -- A reader's loop: `Next`, and `At` for each sample, on fuel.
  unfoldable pub read_all : ℕ → F → SeriesIterator F → Option (List (ℤ × F))
  read_all zero zero_float p = none
  read_all (suc fuel) zero_float p = elim (next p) [
    | none ↦ none
    | some (more, p') ↦ elim more [
      | false ↦ some []
      | true ↦ elim (at zero_float p') [
        | none ↦ none
        | some s ↦ elim (read_all fuel zero_float p') [ none ↦ none | some rest ↦ some (s ∷ rest) ]
      ]
    ]
  ]

  next-skip :
      (p : SeriesIterator F) (j : ℕ) (ts : List Stamp) (vs : List (Float8 F))
      → Before p j ts vs
      → next p ≡ some (ltb (skip ts vs) (length ts), record p { cur = pos (j + skip ts vs) })
  unfolding next
  next-skip p j ts vs b =
      next_loop-skip (suc (suc p.total_samples)) p j ts vs b
        (omega (arith, ap length b.stamps, length-drop j p.times, b.total))

  -- The iterator after `Next` has found a sample.
  next_found :
      (p : SeriesIterator F) (j : ℕ) (ts : List Stamp) (vs : List (Float8 F)) (t : Stamp)
      (v : Float8 F) (ts' : List Stamp) (vs' : List (Float8 F))
      → Before p j ts vs
      → drop (skip ts vs) ts ≡ t ∷ ts'
      → drop (skip ts vs) vs ≡ v ∷ vs'
      → length ts' ≡ length vs'
      → let p' = record p { cur = pos (j + skip ts vs) } in
        Before p' (suc (j + skip ts vs)) ts' vs'
        × (get_ts p' ≡ some (ts_of t))
        × ((z : F) → at z p' ≡ some (ts_of t, v.float))
  unfolding get_ts get_val at
  next_found p j ts vs t v ts' vs' b dt dv same =
      let k = j + skip ts vs in
      let at_k : drop k p.times ≡ t ∷ ts' =
        drop_add j (skip ts vs) p.times ∙ ap (drop (skip ts vs)) b.stamps ∙ dt in
      let at_k' : drop k p.values ≡ v ∷ vs' =
        drop_add j (skip ts vs) p.values ∙ ap (drop (skip ts vs)) b.floats ∙ dv in
      let (here, left, inside) = drop_cons p.times k t ts' at_k in
      let (here', left', _) = drop_cons p.values k v vs' at_k' in
      (
        record { position = refl; stamps = left; floats = left'; same = same; total = b.total },
        ground arith,
        λ z. ground (arith, b.total),
      )

  read_all-present :
      (fuel : ℕ) (z : F) (p : SeriesIterator F) (j : ℕ) (ts : List Stamp) (vs : List (Float8 F))
      → Before p j ts vs
      → length ts < fuel
      → read_all fuel z p ≡ some (present_samples ts vs)
  unfolding read_all
  read_all-present zero z p j ts vs b enough = absurd (omega arith)
  read_all-present (suc fuel) z p j ts vs b enough =
      elim (Bool-cases (ltb (skip ts vs) (length ts))) [
        | inr ended ↦
            let (none_left, _, _) = skip-end ts vs b.same (ground arith) in
            ground (arith, next-skip p j ts vs b)
        | inl more ↦
            let (t, v, ts', vs', dt, dv, same, size, samples, _) =
              skip-found ts vs b.same (ground arith) in
            let p' = record p { cur = pos (j + skip ts vs) } in
            let (b', _, reads) = next_found p j ts vs t v ts' vs' b dt dv same in
            let rest = read_all-present fuel z p' (suc (j + skip ts vs)) ts' vs' b' (omega arith) in
            ground (arith, next-skip p j ts vs b, reads z)
      ]

  -- A reader that calls Next and At on a new iterator over timestamp and value arrays of one length
  -- gets exactly the samples whose timestamp and value are both present, in order, and then the
  -- end.
  pub read_all_lem :
      (z : F) (times : List Stamp) (values : List (Float8 F))
      → length times ≡ length values
      → read_all (suc (length times)) z (new_iterator times values)
        ≡ some (present_samples times values)
  unfolding new_iterator
  read_all_lem z times values same =
      read_all-present (suc (length times)) z (new_iterator times values) 0 times values
        (record { position = refl; stamps = refl; floats = refl; same = same; total = refl })
        (omega arith)

  seek_loop-until :
      (fuel : ℕ) (q : ℤ) (p : SeriesIterator F) (j : ℕ) (ts : List Stamp) (vs : List (Float8 F))
      → Before p j ts vs
      → length ts < fuel
      → seek_loop fuel q p
        ≡ some
            (ltb (skip_until q ts vs) (length ts), record p { cur = pos (j + skip_until q ts vs) })
  unfolding seek_loop
  seek_loop-until zero q p j ts vs b enough = absurd (omega arith)
  seek_loop-until (suc fuel) q p j ts vs b enough =
      elim (Bool-cases (ltb (skip ts vs) (length ts))) [
        | inr ended ↦
            let (_, all, until) = skip-end ts vs b.same (ground arith) in
            ground (arith, next-skip p j ts vs b, until q)
        | inl more ↦
            let (t, v, ts', vs', dt, dv, same, size, _, until) =
              skip-found ts vs b.same (ground arith) in
            let p' = record p { cur = pos (j + skip ts vs) } in
            let (b', stamp, _) = next_found p j ts vs t v ts' vs' b dt dv same in
            let rest = seek_loop-until fuel q p' (suc (j + skip ts vs)) ts' vs' b' (omega arith) in
            ground (arith, next-skip p j ts vs b, until q)
      ]

  -- On timestamp and value arrays of one length Seek goes, from the start, to the first sample that
  -- is present and not earlier than the time sought, and says whether there is one.
  pub seek-until :
      (q : ℤ) (p : SeriesIterator F)
      → p.total_samples ≡ length p.times
      → length p.times ≡ length p.values
      → seek q p
        ≡ some (
          ltb (skip_until q p.times p.values) (length p.times),
          record p { cur = pos (skip_until q p.times p.values) },
        )
  unfolding seek
  seek-until q p total same =
      let p' = record p { cur = negsuc 0 } in
      let size = length p.times in
      seek_loop-until (suc (suc p.total_samples)) q p' 0 p.times p.values
        (record { position = refl; stamps = refl; floats = refl; same = same; total = total })
        (omega arith)
      ∙ ap (λ (c : ℕ). some (ltb (skip_until q p.times p.values) size, record p { cur = pos c }))
          (omega arith)
