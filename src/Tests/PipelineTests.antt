-- ===== src/Tests/PipelineTests.antt =====
-- Runs and instances for the pipeline of pkg/pgmodel/sql_ingest.go.
use timescale_prometheus.Prelude.Bytes.{Bytes, codes}
use timescale_prometheus.Prelude.Int.{pos, negsuc}
use timescale_prometheus.Prelude.{ℕ, ◌+◌, ◌≤◌, ◌≡◌, refl, some, List, [], ◌∷◌, arith}
use timescale_prometheus.Samples.{SamplesInfo}
use timescale_prometheus.Inserter.{Request}
use timescale_prometheus.Pipeline.{
  lookup_failed, no_row, Pipeline, Routine, Phase, starting, failed, empty, begin_call, channel_of,
  insert_metric_data, num_copiers, start_routine, tell, send_error,
}
use timescale_prometheus.Pipeline.Steps.{
  Step, by_call, by_start, by_failure, hand_over, begin_routine, refuse, Reach, at_start,
  insert_data, step,
}
use timescale_prometheus.Pipeline.Counting.{in_pipeline}
use timescale_prometheus.Pipeline.Progress.{Reach-IsCounted, Reach-Moves, Moves}
use timescale_prometheus.Pipeline.Work.{work, rests, moves, Run-work}

abbrev metric : Bytes
metric = codes "cpu"

abbrev infos : List (SamplesInfo ℕ)
infos =
    record {
      labels = record { names = []; values = []; metric_name = []; str = [] };
      series_id = negsuc 0;
      samples = record { timestamp = pos 1000; value = 5 } ∷ [];
    }
    ∷ []

abbrev rows : List (Bytes × List (SamplesInfo ℕ))
rows = (metric, infos) ∷ []

abbrev previously : ℕ → ℕ
previously e = e + 100

-- A call, its request in the channel of a new routine, and the routine without a table.
abbrev called : Pipeline ℕ ℕ
called = begin_call 1 rows empty

abbrev handed : Pipeline ℕ ℕ
handed = hand_over 404 previously [] 1 metric infos [] [] called

abbrev request_1 : Request ℕ
request_1 = record { infos = infos; task = 1 }

abbrev routine : Phase ℕ ℕ → Routine ℕ ℕ
routine phase = record { metric = metric; channel = request_1 ∷ []; phase = phase }

abbrev without_table : Pipeline ℕ ℕ
without_table =
    begin_routine 404 previously [] (routine (starting 1)) [] 1 (lookup_failed 7) no_row handed

abbrev called-Reach : Reach 404 previously 4 called
unfolding begin_call
called-Reach = insert_data 1 rows at_start (omega arith) refl (omega arith, tt)

abbrev hands_over : Step 404 previously 4 called handed
unfolding begin_call
hands_over = by_call [] 1 metric infos [] [] refl (unfold channel_of in omega arith)

abbrev starts : Step 404 previously 4 handed without_table
unfolding begin_call hand_over insert_metric_data
starts = by_start [] (routine (starting 1)) [] 1 (lookup_failed 7) no_row refl refl

abbrev refuses :
    Step 404 previously 4 without_table
      (refuse 404 previously [] (routine (failed 7)) [] 7 request_1 [] without_table)
unfolding begin_routine start_routine
refuses = by_failure [] (routine (failed 7)) [] 7 request_1 [] refl refl refl

abbrev without_table-Reach : Reach 404 previously 4 without_table
without_table-Reach = step (step called-Reach hands_over) starts

-- The call is told the first error, and its wait group is at 0.
refused :
    let p = refuse 404 previously [] (routine (failed 7)) [] 7 request_1 [] without_table in
    (p.outstanding 1 ≡ 0) × (p.err_chan 1 ≡ some 7)
unfolding refuse tell begin_routine start_routine send_error begin_call hand_over insert_metric_data
refused = (refl, refl)

copiers_of_4 : num_copiers 4 8 ≡ 16
unfolding num_copiers
copiers_of_4 = refl

Reach-IsCounted_example : without_table.outstanding 1 ≡ in_pipeline 1 without_table
Reach-IsCounted_example = Reach-IsCounted 404 previously without_table-Reach 1 (omega arith)

Reach-Moves_example : Moves 404 previously 4 without_table
Reach-Moves_example =
    Reach-Moves 404 previously 4 without_table 1 (omega arith) without_table-Reach (omega arith)
      (unfold begin_routine start_routine hand_over begin_call in omega arith)

Run-work_example : 2 + work without_table ≤ work called
Run-work_example = Run-work 404 previously 4 (moves hands_over (moves starts rests))
