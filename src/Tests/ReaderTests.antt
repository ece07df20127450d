-- ===== src/Tests/ReaderTests.antt =====
-- Runs and instances for the reader's caches and for the write handler.
use mathlib.Core.List.{Perm}
use mathlib.Core.List.Perm
use timescale_prometheus.Prelude.Dict
use timescale_prometheus.Prelude.Bytes.{Bytes, codes, Bytes-discrete}
use timescale_prometheus.Prelude.Int.{ℤ, pos}
use timescale_prometheus.Prelude.{
  ℕ, suc, ◌≡◌, ◌↔◌, refl, Bool, true, false, ◌⊎◌, inr, Option, none, some, List, [], ◌∷◌, ◌++◌,
  arith, map, length,
}
use timescale_prometheus.QueryBuilder.{MatchType, Matcher, match_equal}
use timescale_prometheus.QueryBuilder.TimeSeries.{metric_row, SeriesRow, read}
use timescale_prometheus.Ingestor.{TimeSeries}
use timescale_prometheus.Reader.Queries.{Query, query}
use timescale_prometheus.Reader.Queries.Answers.{IsFound, IsAnswer, query_lem}
use timescale_prometheus.Reader.Results.{ReaderCalls, get_result_rows}
use timescale_prometheus.Reader.Results.Caching.{
  IsNameCache, look_up, IsSame, get_result_rows_cached,
}
use timescale_prometheus.Labels.{Label}
use timescale_prometheus.ClockCache.{with_max}
use timescale_prometheus.ClockCache.Batches.{with_max-IsValid}
use timescale_prometheus.Reader.{
  NameCache, TableReply, table, get_metric_table_name, LabelCache, InfoRow,
}
use timescale_prometheus.ClockCache.Coherence.{Holds}
use timescale_prometheus.Reader.Tables.{IsAnswered}
use timescale_prometheus.Election.{rest_election}
use timescale_prometheus.WriteApi.{Calls, Server, WriteRequest, write_all}
use timescale_prometheus.WriteApi.Followers.{IsUntouched, write_all_follower}

abbrev no_names : NameCache
no_names = with_max 2

abbrev same_name : Bytes → TableReply
same_name metric = table metric

no_names-Holds : Holds Bytes-discrete (IsAnswered same_name) no_names
unfolding Holds IsAnswered with_max Dict.lookup
no_names-Holds q w e = absurd (ground arith)

abbrev no_labels : LabelCache
no_labels = with_max 2

abbrev label_of : ℤ → Label
label_of id = record { name = codes "id"; value = [] }

abbrev row_of : List ℤ → InfoRow
row_of ids = record { ids = ids; keys = map (λ id. codes "id") ids; vals = map (λ id. []) ids }

-- Bodies are numbers, and ingesting counts them.
abbrev counts : Calls ℕ ℕ ℕ ℕ
counts = record { decode = λ b. some b; unmarshal = λ b. some b; ingest = λ t i. (none, suc i) }

abbrev follower : Server Bool ℕ
follower = record { election = some false; inserter = 0; last_request = pos 3 }

abbrev arrives : WriteRequest ℕ
arrives = record { body = some 7; time = pos 8 }

write_all_follower_example :
    IsUntouched follower
      (write_all (rest_election {E = ℕ}) counts follower (arrives ∷ arrives ∷ []))
unfolding rest_election
write_all_follower_example =
    write_all_follower (rest_election {E = ℕ}) counts (λ e. e ≡ false)
      (record { refused = λ e h. h; stays = λ e h. h }) follower false (arrives ∷ arrives ∷ []) refl
      refl

abbrev leader : Server Bool ℕ
leader = record { election = some true; inserter = 0; last_request = pos 3 }

abbrev reader_calls : ReaderCalls Bytes ℕ
reader_calls = record {
  table_of = same_name;
  name_failed = codes "name";
  build_failed = codes "build";
  query_rows = λ query params. inr (length query);
  query_metrics = λ query params. inr (metric_row (codes "up") (1 ∷ []) ∷ []);
  sanitize = λ schema name. schema ++ codes "." ++ name;
  extension_is_installed = false;
  matches = λ m text. true;
}

no_names-IsNameCache : IsNameCache reader_calls no_names
no_names-IsNameCache = record {
  valid = (with_max-IsValid Bytes-discrete 2).0;
  room = unfold with_max in (omega arith);
  current = no_names-Holds;
}

abbrev one_name : NameCache
one_name = (get_metric_table_name same_name no_names (codes "up")).2

abbrev any_job : Matcher
any_job = record { type = match_equal; name = codes "job"; value = codes "a" }

get_result_rows_cached_example :
    IsSame reader_calls
      (get_result_rows reader_calls (codes "0") (codes "1") none [] (any_job ∷ []))
      one_name
      no_names
get_result_rows_cached_example =
    get_result_rows_cached reader_calls (codes "0") (codes "1") none [] (any_job ∷ []) one_name
      no_names (look_up reader_calls no_names (codes "up") no_names-IsNameCache).1
      no_names-IsNameCache

abbrev a_row : SeriesRow ℕ Bytes
a_row = read (pos 1 ∷ []) (pos 2000000 ∷ []) (7 ∷ [])

-- Each query for samples finds one row.
abbrev row_calls : ReaderCalls Bytes (List (SeriesRow ℕ Bytes) × Option Bytes)
row_calls = record {
  table_of = same_name;
  name_failed = codes "name";
  build_failed = codes "build";
  query_rows = λ text params. inr (a_row ∷ [], none);
  query_metrics = λ text params. inr (metric_row (codes "up") (1 ∷ []) ∷ []);
  sanitize = λ schema name. schema ++ codes "." ++ name;
  extension_is_installed = false;
  matches = λ m text. true;
}

abbrev as_given : MatchType → Bytes → Bytes → Bytes ⊎ Matcher
as_given type name value = inr (record { type = type; name = name; value = value })

abbrev ask_jobs : Query
ask_jobs = record {
  start_timestamp_ms = pos 0;
  end_timestamp_ms = pos 5;
  matchers = record { type = 0; name = codes "job"; value = codes "a" } ∷ [];
}

abbrev no_label : List ℤ → Bytes ⊎ List Label
no_label ids = inr []

abbrev a_series : TimeSeries ℕ
a_series = record { labels = []; samples = record { timestamp = pos 2; value = 7 } ∷ [] }

query_lem_example :
    ((query (λ t. []) row_calls no_label [] [] as_given (some ask_jobs) no_names).0
      ≡ inr (a_series ∷ []))
    ↔ ((sets : List (List (SeriesRow ℕ Bytes) × Option Bytes)) × IsFound
          (λ t. [])
          row_calls
          no_label
          []
          []
          as_given
          ask_jobs
          no_names
          sets
        × IsAnswer no_label [] sets (a_series ∷ []))
query_lem_example =
    query_lem (λ t. []) row_calls no_label [] [] as_given ask_jobs no_names (a_series ∷ [])
