-- ===== src/Handler.antt =====
-- pkg/pgmodel/sql_ingest.go: the routine that serves one metric. A turn takes what its channel holds
-- when it looks: a request, nothing, or that the channel is closed.
pub mod Responses
pub mod Closing
pub mod Buffers
pub mod Weights
use timescale_prometheus.Labels.{Labels}
use timescale_prometheus.Samples.{SamplesInfo}
use timescale_prometheus.SeriesIds.{SeriesCache, Sent, fill_known_series_ids, set_series_ids}
use timescale_prometheus.Inserter.{
  Pending, Request, flush_size, new_pending, has_pending_reqs, add_req, report_results,
}
use timescale_prometheus.Prelude.{
  ℕ, Bool, true, false, Option, none, some, List, [], ◌∷◌, ◌++◌, leb, if◌then◌else◌, length, map,
}

-- `insertHandler`, with the buffers that were sent to the copiers and not taken yet, and whether the
-- routine has returned.
pub record Handler (F : Type 0) : Type 0 where
  pub pending : Pending F
  pub series_cache : SeriesCache
  pub to_copiers : List (Pending F)
  pub returned : Bool

-- What tasks are told.
abbrev pub Told : Type 0 → Type 0
Told E = List (ℕ × Option E)

pub data Input (F : Type 0) : Type 0 where
  request : Request F → Input F
  nothing : Input F
  closed : Input F

-- The request that a closed channel yields. Its task, 0, belongs to no call.
unfoldable pub zero_request : {F : Type 0} → Request F
zero_request = record { infos = []; task = 0 }

module _ {F : Type 0} where
  unfoldable pub new_handler : Handler F
  unfolding new_pending
  new_handler = record {
    pending = new_pending;
    series_cache = [];
    to_copiers = [];
    returned = false;
  }

module _ {F E : Type 0} (send : List Labels → Sent E) where
  unfoldable pub flush_pending : Handler F → Told E × Handler F
  unfolding set_series_ids report_results new_pending
  flush_pending h =
      let (err, cache, infos) = set_series_ids send h.series_cache h.pending.batch.sample_infos in
      let p = record h.pending { batch = record h.pending.batch { sample_infos = infos } } in
      elim err [
        | some e ↦
            let (told, p') = report_results (some e) p in
            (told, record h { pending = p'; series_cache = cache })
        | none ↦ (
          [],
          record h {
            pending = new_pending;
            series_cache = cache;
            to_copiers = h.to_copiers ++ p ∷ [];
          },
        )
      ]

  unfoldable pub flush : Handler F → Told E × Handler F
  unfolding flush_pending has_pending_reqs
  flush h = if has_pending_reqs h.pending then flush_pending h else ([], h)

  unfoldable pub handle_req : Handler F → Request F → Told E × Handler F
  unfolding fill_known_series_ids flush_pending add_req
  handle_req h req =
      let (infos, _) = fill_known_series_ids h.series_cache req.infos in
      let (needs_flush, p) = add_req h.pending (record req { infos = infos }) in
      let h' = record h { pending = p } in if needs_flush then flush_pending h' else ([], h')

  -- The rest of the loop of `runInserterRoutine` after `nonblockingHandleReq` took a request: at the
  -- flush size it flushes, else it looks again.
  unfoldable pub after_receive : Told E × Handler F → Told E × Handler F
  unfolding flush
  after_receive (told, h) =
      let (told', h') = flush h in
      if leb flush_size (length h.pending.batch.sample_infos)
      then (told ++ told', h')
      else (told, h)

  unfoldable pub turn : Handler F → Input F → Told E × Handler F
  unfolding handle_req after_receive flush has_pending_reqs zero_request
  turn h (request req) =
      if has_pending_reqs h.pending then after_receive (handle_req h req) else handle_req h req
  turn h nothing = flush h
  turn h closed =
      if has_pending_reqs h.pending
      then after_receive (handle_req h zero_request)
      else ([], record h { returned = true })

  unfoldable pub run : Handler F → List (Input F) → Told E × Handler F
  unfolding turn
  run h [] = ([], h)
  run h (i ∷ is) = let (told, h') = turn h i in let (told', h'') = run h' is in (told ++ told', h'')
