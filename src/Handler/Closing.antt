-- ===== src/Handler/Closing.antt =====
-- pkg/pgmodel/sql_ingest.go: the buffer of a routine is bounded, an idle routine keeps nothing back, and a
-- routine whose channel is closed while its buffer holds series goes round for ever.
use timescale_prometheus.Labels.{Labels}
use timescale_prometheus.Samples.{SamplesInfo}
use timescale_prometheus.SeriesIds.{Sent, fill_known_series_ids}
use timescale_prometheus.Inserter.{
  Request, flush_size, new_pending, has_pending_reqs, add_req, report_results,
}
use timescale_prometheus.Samples.{new_sample_info_iterator, reset_position}
use timescale_prometheus.Handler.{
  Handler, Told, Input, request, nothing, closed, zero_request, flush_pending, flush, handle_req,
  after_receive, turn, run,
}
use timescale_prometheus.Prelude.{
  ℕ, zero, suc, ◌+◌, ◌≤◌, ◌<◌, ◌≡◌, refl, ap, List, [], ◌∷◌, ◌++◌, length, arith, length-append,
  append-nil,
}

abbrev pub pending_size : {F : Type 0} → Handler F → ℕ
pending_size h = length h.pending.batch.sample_infos

unfoldable pub closed_times : {F : Type 0} → ℕ → List (Input F)
closed_times zero = []
closed_times (suc n) = closed ∷ closed_times n

module _ {F E : Type 0} (send : List Labels → Sent E) where
  pub flush_pending_empties : (h : Handler F) → pending_size (flush_pending send h).1 ≡ 0
  unfolding flush_pending report_results new_pending new_sample_info_iterator reset_position
  flush_pending_empties h = ground arith

  pub flush_empties : (h : Handler F) → pending_size (flush send h).1 ≡ 0
  unfolding flush has_pending_reqs
  flush_empties h = let a = flush_pending_empties h in ground arith

  handle_req_bound :
      (h : Handler F) (req : Request F) → pending_size (handle_req send h req).1 ≤ flush_size
  unfolding handle_req add_req
  handle_req_bound h req =
      let infos = (fill_known_series_ids h.series_cache req.infos).0 in
      let h' = record h { pending = (add_req h.pending (record req { infos = infos })).1 } in
      let a = flush_pending_empties h' in ground arith

  after_receive_bound :
      (told : Told E) (h : Handler F) → pending_size (after_receive send (told, h)).1 < flush_size
  unfolding after_receive
  after_receive_bound told h = let a = flush_empties h in ground arith

  -- After a turn that takes a request the buffer holds no more series than the flush size, and
  -- fewer if it held some before; after a turn that finds nothing it is empty.
  pub turn_bound :
      (h : Handler F) (req : Request F)
      → (pending_size (turn send h (request req)).1 ≤ flush_size)
        × (0 < pending_size h → pending_size (turn send h (request req)).1 < flush_size)
        × (pending_size (turn send h nothing).1 ≡ 0)
  unfolding turn has_pending_reqs
  turn_bound h req =
      let a = handle_req_bound h req in
      let b = after_receive_bound (handle_req send h req).0 (handle_req send h req).1 in
      (ground arith, λ some_pending. ground arith, flush_empties h)

  -- A turn on a closed channel while the buffer holds series, fewer than the flush size.
  closed_turn :
      (h : Handler F)
      → 0 < pending_size h
      → pending_size h < flush_size
      → let (told, h') = turn send h closed in
        (told ≡ [])
        × (h' ≡ record h {
          pending = record h.pending { needs_response = h.pending.needs_response ++ 0 ∷ [] };
        })
  unfolding turn has_pending_reqs handle_req after_receive add_req zero_request
      fill_known_series_ids
  closed_turn h holds small =
      let e = append-nil h.pending.batch.sample_infos in
      let with_infos : List (SamplesInfo F) → Handler F = λ infos. record h {
        pending = record {
          needs_response = h.pending.needs_response ++ 0 ∷ [];
          batch = record h.pending.batch { sample_infos = infos };
        };
      } in
      let h' = with_infos (h.pending.batch.sample_infos ++ []) in
      let same = ap with_infos e in
      let size = ap length e in
      let handled : handle_req send h zero_request ≡ ([], h') = ground arith in
      let received : after_receive send ([], h') ≡ ([], h') = ground arith in ground arith

  -- A routine whose channel is closed while its buffer holds series, fewer than the flush size,
  -- tells no task anything, sends nothing to the copiers, keeps its series and does not return,
  -- however long it runs, and gains a task with each turn.
  pub run-closed :
      (n : ℕ) (h : Handler F)
      → 0 < pending_size h
      → pending_size h < flush_size
      → let (told, h') = run send h (closed_times n) in
        (told ≡ [])
        × (h'.to_copiers ≡ h.to_copiers)
        × (h'.returned ≡ h.returned)
        × (h'.pending.batch ≡ h.pending.batch)
        × (length h'.pending.needs_response ≡ length h.pending.needs_response + n)
  unfolding run closed_times
  run-closed zero h holds small = (refl, refl, refl, refl, omega arith)
  run-closed (suc n) h holds small =
      let (quiet, same) = closed_turn h holds small in
      let h1 = record h {
        pending = record h.pending { needs_response = h.pending.needs_response ++ 0 ∷ [] };
      } in
      let (quiet', queue, returned, kept, more) = run-closed n h1 holds small in
      let e = ap (λ k. run send k (closed_times n)) same in
      let size = length-append h.pending.needs_response (0 ∷ []) in
      (ground arith, ground arith, ground arith, ground arith, ground arith)
