-- ===== src/Pipeline/Steps.antt =====
-- pkg/pgmodel/sql_ingest.go: the steps of the pipeline and the states that they reach.
use timescale_prometheus.Labels.{Labels}
use timescale_prometheus.Prelude.Bytes.{Bytes}
use timescale_prometheus.Samples.{SamplesInfo}
use timescale_prometheus.SeriesIds.{Sent}
use timescale_prometheus.Inserter.{Request, report_results}
use timescale_prometheus.Handler.{Handler, Told, Input, turn}
use timescale_prometheus.Pipeline.{
  Lookup, NameReply, starting, failed, serving, Routine, CopyRequest, Call, Pipeline, channel_size,
  empty, send_error, tell, begin_call, channel_of, insert_metric_data, start_routine, next_input,
}
use timescale_prometheus.Prelude.{
  ℕ, ◌+◌, ◌≤◌, ◌<◌, ◌≡◌, true, false, ◌||◌, Option, some, List, [], ◌∷◌, ◌++◌, All, length, map,
}

-- What a call hands over for a metric holds a series.
abbrev pub HasSeries : {F : Type 0} → Bytes × List (SamplesInfo F) → Type 0
HasSeries row = 0 < length row.1

module _ {F E : Type 0} (missing_table_name : E) (previously : E → E) where
  -- A call hands over its next request, if the channel of the metric has room.
  unfoldable pub hand_over :
      List (Call F)
      → ℕ
      → Bytes
      → List (SamplesInfo F)
      → List (Bytes × List (SamplesInfo F))
      → List (Call F)
      → Pipeline F E
      → Pipeline F E
  hand_over before call metric infos rows after p = record p {
    calls = before ++ record { number = call; rows = rows } ∷ after;
    routines = insert_metric_data metric (record { infos = infos; task = call }) p.routines;
  }

  -- A routine gets its table, or fails and tells the call that started it why.
  unfoldable pub begin_routine :
      List (Routine F E)
      → Routine F E
      → List (Routine F E)
      → ℕ
      → Lookup E
      → NameReply E
      → Pipeline F E
      → Pipeline F E
  unfolding start_routine send_error
  begin_routine before r after call lookup reply p =
      let (phase, err, possibly_new) = start_routine missing_table_name lookup reply in
      record p {
        routines = before ++ record r { phase = phase } ∷ after;
        err_chan = send_error call err p.err_chan;
        complete_metric_creation = p.complete_metric_creation || possibly_new;
      }

  -- A round of `runInserterRoutineFailure`.
  unfoldable pub refuse :
      List (Routine F E)
      → Routine F E
      → List (Routine F E)
      → E
      → Request F
      → List (Request F)
      → Pipeline F E
      → Pipeline F E
  unfolding tell
  refuse before r after e req reqs p =
      tell ((req.task, some (previously e)) ∷ [])
        (record p { routines = before ++ record r { channel = reqs } ∷ after })

  -- A turn of a routine that serves its metric; what it sends goes to the copiers.
  unfoldable pub serve :
      List (Routine F E)
      → Routine F E
      → List (Routine F E)
      → Bytes
      → Told E × Handler F
      → List (Request F)
      → Pipeline F E
      → Pipeline F E
  unfolding tell
  serve before r after table (told, h) reqs p =
      let phase = serving table (record h { to_copiers = [] }) in
      tell told (record p {
        routines = before ++ record r { channel = reqs; phase = phase } ∷ after;
        to_copiers = p.to_copiers ++ map (λ b. record { buffer = b; table = table }) h.to_copiers;
      })

  -- A copier takes a request, and reports what came of it, in one step.
  unfoldable pub copy_next :
      CopyRequest F → List (CopyRequest F) → Option E → Pipeline F E → Pipeline F E
  unfolding tell report_results
  copy_next req reqs err p = tell (report_results err req.buffer).0 (record p { to_copiers = reqs })

  -- A step of a pipeline whose channel to the copiers holds so many requests.
  pub data Step (copiers : ℕ) (p : Pipeline F E) : Pipeline F E → Type 0 where
    by_call :
        (before : List (Call F)) (call : ℕ) (metric : Bytes) (infos : List (SamplesInfo F))
        (rows : List (Bytes × List (SamplesInfo F))) (after : List (Call F))
        → p.calls ≡ before ++ record { number = call; rows = (metric, infos) ∷ rows } ∷ after
        → length (channel_of metric p.routines) < channel_size
        → Step copiers p (hand_over before call metric infos rows after p)
    by_start :
        (before : List (Routine F E)) (r : Routine F E) (after : List (Routine F E)) (call : ℕ)
        (lookup : Lookup E) (reply : NameReply E)
        → p.routines ≡ before ++ r ∷ after
        → r.phase ≡ starting call
        → Step copiers p (begin_routine before r after call lookup reply p)
    by_failure :
        (before : List (Routine F E)) (r : Routine F E) (after : List (Routine F E)) (e : E)
        (req : Request F) (reqs : List (Request F))
        → p.routines ≡ before ++ r ∷ after
        → r.phase ≡ failed e
        → r.channel ≡ req ∷ reqs
        → Step copiers p (refuse before r after e req reqs p)
    by_routine :
        (before : List (Routine F E)) (r : Routine F E) (after : List (Routine F E)) (table : Bytes)
        (h : Handler F) (i : Input F) (reqs : List (Request F)) (send : List Labels → Sent E)
        → p.routines ≡ before ++ r ∷ after
        → r.phase ≡ serving table h
        → next_input r.channel h ≡ some (i, reqs)
        → length p.to_copiers + length (turn send h i).1.to_copiers ≤ copiers
        → Step copiers p (serve before r after table (turn send h i) reqs p)
    by_copier :
        (req : CopyRequest F) (reqs : List (CopyRequest F)) (err : Option E)
        → p.to_copiers ≡ req ∷ reqs
        → Step copiers p (copy_next req reqs err p)
    by_worker :
        p.complete_metric_creation ≡ true
        → Step copiers p (record p { complete_metric_creation = false })

  -- The states that calls and steps reach. A call has a number that is not 0 and that no call has.
  pub data Reach (copiers : ℕ) : Pipeline F E → Type 0 where
    at_start : Reach copiers empty
    insert_data :
        (call : ℕ) (rows : List (Bytes × List (SamplesInfo F))) {p : Pipeline F E}
        → Reach copiers p
        → 0 < call
        → p.outstanding call ≡ 0
        → All HasSeries rows
        → Reach copiers (begin_call call rows p)
    step : {p q : Pipeline F E} → Reach copiers p → Step copiers p q → Reach copiers q
