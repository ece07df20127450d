-- ===== src/Tests/DeliveryTests.antt =====
-- A run of the pipeline of pkg/pgmodel/sql_ingest.go in which the series of a call are written.
use timescale_prometheus.Prelude.Bytes.{Bytes, codes}
use timescale_prometheus.Prelude.Int.{pos}
use timescale_prometheus.Prelude.{ℕ, ◌+◌, ◌≡◌, refl, none, List, [], ◌∷◌, arith, length}
use timescale_prometheus.Labels.{Labels}
use timescale_prometheus.Samples.{SamplesInfo, Sample, new_sample_info_iterator, reset_position}
use timescale_prometheus.SeriesIds.{
  Sent, sent, got, fill_known_series_ids, set_series_ids, series_to_insert,
}
use timescale_prometheus.SeriesIds.Weights.{weigh}
use timescale_prometheus.Inserter.{
  Pending, Request, add_req, has_pending_reqs, new_pending, report_results,
}
use timescale_prometheus.Handler.{
  Handler, request, nothing, new_handler, turn, handle_req, after_receive, flush, flush_pending,
}
use timescale_prometheus.Pipeline.{
  found, no_row, Pipeline, Routine, starting, serving, CopyRequest, Call, empty, begin_call,
  channel_of, insert_metric_data, start_routine, tell, send_error, done, next_input,
}
use timescale_prometheus.Pipeline.Steps.{
  Step, by_call, by_start, by_routine, by_copier, hand_over, begin_routine, serve, copy_next,
}
use timescale_prometheus.Pipeline.Weights.{weigh_calls}
use timescale_prometheus.Pipeline.Telling.{written_by}
use timescale_prometheus.Pipeline.Delivery.{Run, starts, calls, moves, Run-delivers}

abbrev metric : Bytes
metric = codes "cpu"

abbrev infos : List (SamplesInfo ℕ)
infos =
    record {
      labels = record { names = []; values = []; metric_name = []; str = [] };
      series_id = pos 3;
      samples = record { timestamp = pos 1000; value = 5 } ∷ [];
    }
    ∷ []

abbrev request_1 : Request ℕ
request_1 = record { infos = infos; task = 1 }

abbrev previously : ℕ → ℕ
previously e = e + 100

abbrev no_answer : List Labels → Sent ℕ
no_answer labels = sent (λ i. got (pos 0) none)

abbrev called : Pipeline ℕ ℕ
called = begin_call 1 ((metric, infos) ∷ []) empty

abbrev handed : Pipeline ℕ ℕ
handed = hand_over 404 previously [] 1 metric infos [] [] called

abbrev waiting : Routine ℕ ℕ
waiting = record { metric = metric; channel = request_1 ∷ []; phase = starting 1 }

abbrev with_table : Pipeline ℕ ℕ
with_table = begin_routine 404 previously [] waiting [] 1 (found metric) no_row handed

abbrev serving_one : Routine ℕ ℕ
serving_one = record {
  metric = metric;
  channel = request_1 ∷ [];
  phase = serving metric new_handler;
}

abbrev buffering : Pipeline ℕ ℕ
buffering =
    serve 404 previously [] serving_one [] metric (turn no_answer new_handler (request request_1))
      [] with_table

abbrev filled : Handler ℕ
filled = (turn no_answer new_handler (request request_1)).1

abbrev serving_none : Routine ℕ ℕ
serving_none = record { metric = metric; channel = []; phase = serving metric filled }

abbrev sending : Pipeline ℕ ℕ
sending =
    serve 404 previously [] serving_none [] metric (turn no_answer filled nothing) [] buffering

abbrev hands_over : Step 404 previously 4 called handed
unfolding begin_call hand_over insert_metric_data begin_routine start_routine serve copy_next tell
    send_error done channel_of next_input turn handle_req after_receive flush flush_pending
    report_results fill_known_series_ids series_to_insert set_series_ids add_req has_pending_reqs
    new_handler new_pending new_sample_info_iterator reset_position
hands_over = by_call [] 1 metric infos [] [] refl (omega arith)

abbrev begins : Step 404 previously 4 handed with_table
unfolding begin_call hand_over insert_metric_data begin_routine start_routine serve copy_next tell
    send_error done channel_of next_input turn handle_req after_receive flush flush_pending
    report_results fill_known_series_ids series_to_insert set_series_ids add_req has_pending_reqs
    new_handler new_pending new_sample_info_iterator reset_position
begins = by_start [] waiting [] 1 (found metric) no_row refl refl

abbrev buffers : Step 404 previously 4 with_table buffering
unfolding begin_call hand_over insert_metric_data begin_routine start_routine serve copy_next tell
    send_error done channel_of next_input turn handle_req after_receive flush flush_pending
    report_results fill_known_series_ids series_to_insert set_series_ids add_req has_pending_reqs
    new_handler new_pending new_sample_info_iterator reset_position
buffers =
    by_routine [] serving_one [] metric new_handler (request request_1) [] no_answer refl refl refl
      (omega arith)

abbrev flushes : Step 404 previously 4 buffering sending
unfolding begin_call hand_over insert_metric_data begin_routine start_routine serve copy_next tell
    send_error done channel_of next_input turn handle_req after_receive flush flush_pending
    report_results fill_known_series_ids series_to_insert set_series_ids add_req has_pending_reqs
    new_handler new_pending new_sample_info_iterator reset_position
flushes =
    by_routine [] serving_none [] metric filled nothing [] no_answer refl refl refl (omega arith)

abbrev buffer : Pending ℕ
buffer = record {
  needs_response = 1 ∷ [];
  batch = record new_sample_info_iterator { sample_infos = infos };
}

abbrev copy : CopyRequest ℕ
copy = record { buffer = buffer; table = metric }

abbrev copied : Pipeline ℕ ℕ
copied = copy_next 404 previously copy [] none sending

abbrev copies : Step 404 previously 4 sending copied
unfolding begin_call hand_over insert_metric_data begin_routine start_routine serve copy_next tell
    send_error done channel_of next_input turn handle_req after_receive flush flush_pending
    report_results fill_known_series_ids series_to_insert set_series_ids add_req has_pending_reqs
    new_handler new_pending new_sample_info_iterator reset_position
copies = by_copier copy [] none refl

abbrev one_call : List (Call ℕ)
one_call = record { number = 1; rows = (metric, infos) ∷ [] } ∷ []

a_run : Run 404 previously 4 one_call infos copied
unfolding written_by hands_over
a_run =
    moves
      (moves
        (moves
          (moves
            (moves (calls 1 ((metric, infos) ∷ []) starts (omega arith) refl (omega arith, tt) tt)
              hands_over)
            begins)
          buffers)
        flushes)
      copies

abbrev samples_of : List (Sample ℕ) → ℕ
samples_of samples = length samples

over : copied.outstanding 1 ≡ 0
unfolding begin_call hand_over insert_metric_data begin_routine start_routine serve copy_next tell
    send_error done channel_of next_input turn handle_req after_receive flush flush_pending
    report_results fill_known_series_ids series_to_insert set_series_ids add_req has_pending_reqs
    new_handler new_pending new_sample_info_iterator reset_position
over = refl

fine : copied.err_chan 1 ≡ none
unfolding begin_call hand_over insert_metric_data begin_routine start_routine serve copy_next tell
    send_error done channel_of next_input turn handle_req after_receive flush flush_pending
    report_results fill_known_series_ids series_to_insert set_series_ids add_req has_pending_reqs
    new_handler new_pending new_sample_info_iterator reset_position
fine = refl

Run-delivers_example : weigh samples_of infos ≡ weigh_calls samples_of one_call
Run-delivers_example =
    Run-delivers 404 previously samples_of 1 a_run ((λ other. absurd (other refl)), tt)
      (omega arith) over fine
