-- ===== src/Handler/Buffers.antt =====
-- pkg/pgmodel/sql_ingest.go: what a turn does to the buffer of a routine and to the requests for the copiers.
use timescale_prometheus.Labels.{Labels}
use timescale_prometheus.Samples.{SamplesInfo, new_sample_info_iterator, reset_position}
use timescale_prometheus.SeriesIds.{SeriesCache, Sent, fill_known_series_ids, set_series_ids}
use timescale_prometheus.Inserter.{
  Pending, Request, flush_size, new_pending, has_pending_reqs, add_req, report_results,
}
use timescale_prometheus.Handler.{
  Handler, Told, request, nothing, flush_pending, flush, handle_req, after_receive, turn,
}
use timescale_prometheus.Handler.Closing.{pending_size, flush_empties}
use timescale_prometheus.Prelude.{
  ℕ, suc, ◌+◌, ◌≤◌, ◌<◌, ◌≡◌, refl, inl, inr, List, [], ◌∷◌, leb, ◌==◌, if◌then◌else◌, length,
  arith, length-append, Option-cases, Bool-cases,
}

fill_known_series_ids-length :
    {F : Type 0} (cache : SeriesCache) (infos : List (SamplesInfo F))
    → length (fill_known_series_ids cache infos).0 ≡ length infos
unfolding fill_known_series_ids
fill_known_series_ids-length cache [] = refl
fill_known_series_ids-length cache (s ∷ ss) =
    let more = fill_known_series_ids-length cache ss in ground arith

-- No task waits in a buffer without series.
abbrev pub NoneWaits : {F : Type 0} → Handler F → Type 0
NoneWaits h = pending_size h ≡ 0 → h.pending.needs_response ≡ []

-- Whether the buffer holds series, as two steps of work.
unfoldable pub buffered : {F : Type 0} → Handler F → ℕ
buffered h = if length h.pending.batch.sample_infos == 0 then 0 else 2

module _ {F E : Type 0} (send : List Labels → Sent E) where
  flush_pending-NoneWaits : (h : Handler F) → (flush_pending send h).1.pending.needs_response ≡ []
  unfolding flush_pending report_results new_pending
  flush_pending-NoneWaits h = ground arith

  flush-NoneWaits : (h : Handler F) → NoneWaits h → NoneWaits (flush send h).1
  unfolding flush has_pending_reqs
  flush-NoneWaits h w size = let a = flush_pending-NoneWaits h in ground arith

  handle_req-NoneWaits :
      (h : Handler F) (req : Request F) → 0 < length req.infos → NoneWaits (handle_req send h req).1
  unfolding handle_req add_req
  handle_req-NoneWaits h req holds size =
      let infos = (fill_known_series_ids h.series_cache req.infos).0 in
      let h' = record h { pending = (add_req h.pending (record req { infos = infos })).1 } in
      let a = flush_pending-NoneWaits h' in
      let b = fill_known_series_ids-length h.series_cache req.infos in
      let d = length-append h.pending.batch.sample_infos infos in ground arith

  after_receive-NoneWaits :
      (told : Told E) (h : Handler F) → NoneWaits h → NoneWaits (after_receive send (told, h)).1
  unfolding after_receive
  after_receive-NoneWaits told h w size =
      let a : NoneWaits (flush send h).1 = flush-NoneWaits h w in
      let b = flush_empties send h in
      elim (Bool-cases (leb flush_size (length h.pending.batch.sample_infos))) [
        | inl e ↦ let d = a b in ground arith
        | inr e ↦ let d = w (ground arith) in ground arith
      ]

  pub turn-NoneWaits :
      (h : Handler F) (req : Request F)
      → 0 < length req.infos
      → NoneWaits (turn send h (request req)).1
  unfolding turn
  turn-NoneWaits h req holds size =
      let a = handle_req-NoneWaits h req holds in
      let b = after_receive-NoneWaits (handle_req send h req).0 (handle_req send h req).1 a in
      elim (Bool-cases (has_pending_reqs h.pending)) [
        | inl e ↦ let d = b (ground arith) in ground arith
        | inr e ↦ let d = a (ground arith) in ground arith
      ]

  pub turn_nothing-NoneWaits : (h : Handler F) → NoneWaits h → NoneWaits (turn send h nothing).1
  unfolding turn
  turn_nothing-NoneWaits h w = flush-NoneWaits h w

  flush_pending-work :
      (h : Handler F)
      → (length (flush_pending send h).1.to_copiers ≤ suc (length h.to_copiers))
        × (buffered (flush_pending send h).1 ≡ 0)
  unfolding flush_pending buffered report_results new_pending new_sample_info_iterator
      reset_position
  flush_pending-work h =
      let (err, cache, infos) = set_series_ids send h.series_cache h.pending.batch.sample_infos in
      let p : Pending F = record h.pending {
        batch = record h.pending.batch { sample_infos = infos };
      } in
      let a = length-append h.to_copiers (p ∷ []) in
      elim (Option-cases (set_series_ids send h.series_cache h.pending.batch.sample_infos).0) [
        | inl e ↦ (ground arith, ground arith)
        | inr (x, e) ↦ (ground arith, ground arith)
      ]

  flush-work :
      (h : Handler F)
      → (length (flush send h).1.to_copiers + buffered (flush send h).1
          ≤ length h.to_copiers + buffered h)
        × (0 < pending_size h
            → length (flush send h).1.to_copiers + buffered (flush send h).1
              < length h.to_copiers + buffered h)
  unfolding flush has_pending_reqs buffered
  flush-work h = let (a, b) = flush_pending-work h in (ground arith, λ some_series. ground arith)

  handle_req-work :
      (h : Handler F) (req : Request F)
      → (length (handle_req send h req).1.to_copiers ≤ suc (length h.to_copiers))
        × (length (handle_req send h req).1.to_copiers + buffered (handle_req send h req).1
            ≤ length h.to_copiers + 2)
  unfolding handle_req buffered add_req
  handle_req-work h req =
      let infos = (fill_known_series_ids h.series_cache req.infos).0 in
      let h' = record h { pending = (add_req h.pending (record req { infos = infos })).1 } in
      let (a, b) = flush_pending-work h' in (ground arith, ground arith)

  after_receive-work :
      (told : Told E) (h : Handler F)
      → (length (after_receive send (told, h)).1.to_copiers
            + buffered (after_receive send (told, h)).1
          ≤ length h.to_copiers + buffered h)
        × ((n : ℕ)
            → length h.to_copiers ≤ suc n
            → length h.to_copiers + buffered h ≤ n + 2
            → length (after_receive send (told, h)).1.to_copiers ≤ suc n)
  unfolding after_receive
  after_receive-work told h =
      let (a, b) = flush-work h in
      let e = flush_empties send h in
      let d : buffered (flush send h).1 ≡ 0 = unfold buffered in ground arith in
      elim (Bool-cases (leb flush_size (length h.pending.batch.sample_infos))) [
        | inl full ↦
            let k : buffered h ≡ 2 = unfold buffered in ground arith in
            let l = b (ground arith) in (ground arith, λ n x y. ground arith)
        | inr small ↦ (ground arith, λ n x y. ground arith)
      ]

  -- A turn that takes a request sends the copiers one buffer at most, and leaves in the buffer and
  -- for the copiers no more work than three steps.
  pub turn_work :
      (h : Handler F) (req : Request F)
      → (length (turn send h (request req)).1.to_copiers ≤ suc (length h.to_copiers))
        × (length (turn send h (request req)).1.to_copiers + buffered (turn send h (request req)).1
            ≤ length h.to_copiers + 2)
  unfolding turn
  turn_work h req =
      let (a, b) = handle_req-work h req in
      let (d, e) = after_receive-work (handle_req send h req).0 (handle_req send h req).1 in
      let f = e (length h.to_copiers) a b in
      elim (Bool-cases (has_pending_reqs h.pending)) [
        | inl p ↦ (ground arith, ground arith)
        | inr p ↦ (ground arith, ground arith)
      ]

  -- A turn that finds nothing while the buffer holds series does some of the work.
  pub turn_nothing_work :
      (h : Handler F)
      → 0 < pending_size h
      → (length (turn send h nothing).1.to_copiers ≤ suc (length h.to_copiers))
        × (length (turn send h nothing).1.to_copiers + buffered (turn send h nothing).1
            < length h.to_copiers + buffered h)
  unfolding turn
  turn_nothing_work h holds =
      let (a, b) = flush-work h in
      let d : buffered h ≤ 2 = unfold buffered in ground arith in
      let e = b holds in (omega arith, e)
