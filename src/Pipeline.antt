-- ===== src/Pipeline.antt =====
-- pkg/pgmodel/sql_ingest.go and sql_utils.go: how the calls of `InsertData`, the routines of the metrics and
-- the copiers work together. A state holds what each channel holds; a step is taken by a call that hands over
-- a request, a routine, a copier or the worker that completes metrics, in any order. What the database
-- answers is chosen by the step. The pipeline is one that is not closed.
pub mod Steps
pub mod Counting
pub mod Telling
pub mod Accounts
pub mod Shape
pub mod Progress
pub mod Work
pub mod Weights
pub mod Kept
pub mod Keeping
pub mod Absence
pub mod Delivery
use timescale_prometheus.Labels.{Labels}
use timescale_prometheus.Prelude.Bytes.{Bytes, Bytes-discrete}
use timescale_prometheus.Samples.{SamplesInfo}
use timescale_prometheus.SeriesIds.{Sent}
use timescale_prometheus.Inserter.{Pending, Request, has_pending_reqs, report_results}
use timescale_prometheus.Handler.{Handler, Told, Input, request, nothing, new_handler, turn}
use timescale_prometheus.Prelude.{
  ℕ, zero, suc, ◌+◌, ◌-◌, ◌*◌, ◌≤◌, ◌<◌, ◌≡◌, Bool, true, false, ◌⊎◌, inl, inr, Option, none, some,
  List, [], ◌∷◌, ◌++◌, All, ltb, ◌==◌, ite, if◌then◌else◌, length, map,
}

-- What `MetricCache.Get` answers.
pub data Lookup (E : Type 0) : Type 0 where
  found : Bytes → Lookup E
  entry_not_found : Lookup E
  lookup_failed : E → Lookup E

-- What the database answers to `getCreateMetricsTableWithNewSQL`.
pub data NameReply (E : Type 0) : Type 0 where
  query_failed : E → NameReply E
  no_row : NameReply E
  scan_failed : E → NameReply E
  row : Bytes → Bool → NameReply E

-- `getMetricTableName`: the table, whether the metric may be new, or an error.
unfoldable pub get_metric_table_name : {E : Type 0} → E → NameReply E → E ⊎ (Bytes × Bool)
get_metric_table_name missing_table_name (query_failed e) = inl e
get_metric_table_name missing_table_name no_row = inl missing_table_name
get_metric_table_name missing_table_name (scan_failed e) = inl e
get_metric_table_name missing_table_name (row table possibly_new) = inr (table, possibly_new)

-- A routine that looks for its table, with the call that started it; one that has failed; and one that
-- serves its metric.
pub data Phase (F E : Type 0) : Type 0 where
  starting : ℕ → Phase F E
  failed : E → Phase F E
  serving : Bytes → Handler F → Phase F E

-- An entry of `inserters`, and its routine.
pub record Routine (F E : Type 0) : Type 0 where
  pub metric : Bytes
  pub channel : List (Request F)
  pub phase : Phase F E

-- `copyRequest`
pub record CopyRequest (F : Type 0) : Type 0 where
  pub buffer : Pending F
  pub table : Bytes

-- A call of `InsertData`, with the rows that it has not handed over, in the order of its loop.
pub record Call (F : Type 0) : Type 0 where
  pub number : ℕ
  pub rows : List (Bytes × List (SamplesInfo F))

-- `outstanding` are the counters of the wait groups, `err_chan` what the error channels hold, `to_copiers`
-- and `complete_metric_creation` what those channels hold.
pub record Pipeline (F E : Type 0) : Type 0 where
  pub calls : List (Call F)
  pub outstanding : ℕ → ℕ
  pub err_chan : ℕ → Option E
  pub routines : List (Routine F E)
  pub to_copiers : List (CopyRequest F)
  pub complete_metric_creation : Bool

-- The capacity of a channel of a metric.
abbrev pub channel_size : ℕ
channel_size = 1000

abbrev pub connections_per_proc : ℕ
connections_per_proc = 5

-- `numCopiers`, from the two answers of the runtime.
unfoldable pub num_copiers : ℕ → ℕ → ℕ
num_copiers gomaxprocs num_cpu =
    let procs = if gomaxprocs == 0 then num_cpu else gomaxprocs in
    let max_procs = if procs == 0 then 1 else procs in max_procs * connections_per_proc - max_procs

-- `select { case errChan <- err: default: }` on a channel of capacity 1, if there is an error.
unfoldable pub send_error : {E : Type 0} → ℕ → Option E → (ℕ → Option E) → ℕ → Option E
send_error call none err_chan c = err_chan c
send_error call (some e) err_chan c =
    if c == call
    then (elim (err_chan c) [ some first ↦ some first | none ↦ some e ])
    else err_chan c

-- `finished.Done()`
unfoldable pub done : ℕ → (ℕ → ℕ) → ℕ → ℕ
done call outstanding c = if c == call then outstanding c - 1 else outstanding c

module _ {F E : Type 0} where
  abbrev pub empty : Pipeline F E
  empty = record {
    calls = [];
    outstanding = λ _. 0;
    err_chan = λ _. none;
    routines = [];
    to_copiers = [];
    complete_metric_creation = false;
  }

  -- What tasks are told, one after another: the error, if any, and then `Done`.
  unfoldable pub tell : Told E → Pipeline F E → Pipeline F E
  unfolding send_error done
  tell [] p = p
  tell ((call, err) ∷ told) p = tell told (record p {
    err_chan = send_error call err p.err_chan;
    outstanding = done call p.outstanding;
  })

  -- The start of `InsertData`, whose wait group and error channel are new.
  unfoldable pub begin_call : ℕ → List (Bytes × List (SamplesInfo F)) → Pipeline F E → Pipeline F E
  begin_call call rows p = record p {
    calls = record { number = call; rows = rows } ∷ p.calls;
    outstanding = λ c. if c == call then length rows else p.outstanding c;
    err_chan = λ c. if c == call then none else p.err_chan c;
  }

  -- What the channel of a metric holds.
  unfoldable pub channel_of : Bytes → List (Routine F E) → List (Request F)
  channel_of metric [] = []
  channel_of metric (r ∷ rs) =
      let rest = channel_of metric rs in ite (Bytes-discrete r.metric metric) r.channel rest

  -- `insertMetricData` with `getMetricInserter`, which starts a routine for a metric that has none.
  unfoldable pub insert_metric_data : Bytes → Request F → List (Routine F E) → List (Routine F E)
  insert_metric_data metric req [] =
      record { metric = metric; channel = req ∷ []; phase = starting req.task } ∷ []
  insert_metric_data metric req (r ∷ rs) =
      let rest = r ∷ insert_metric_data metric req rs in
      let here = record r { channel = r.channel ++ req ∷ [] } ∷ rs in
      ite (Bytes-discrete r.metric metric) here rest

  -- The first part of `runInserterRoutine`: the phase, the error that goes to the call, and whether
  -- there is a signal to complete metrics.
  unfoldable pub start_routine : E → Lookup E → NameReply E → Phase F E × Option E × Bool
  unfolding new_handler get_metric_table_name
  start_routine missing (found table) reply = (serving table new_handler, none, false)
  start_routine missing (lookup_failed e) reply = (failed e, some e, false)
  start_routine missing entry_not_found reply = elim (get_metric_table_name missing reply) [
    | inl e ↦ (failed e, some e, false)
    | inr (table, possibly_new) ↦ (serving table new_handler, none, possibly_new)
  ]

-- What a routine that serves takes next from its channel, and the rest; none is a receive that waits.
unfoldable pub next_input :
    {F : Type 0} → List (Request F) → Handler F → Option (Input F × List (Request F))
unfolding has_pending_reqs
next_input (req ∷ reqs) h = some (request req, reqs)
next_input [] h = if has_pending_reqs h.pending then some (nothing, []) else none
