-- ===== src/Lib.antt =====
-- Verification of the timescale-prometheus connector.
--
-- The connector takes Prometheus' remote-write requests, keeps their samples in TimescaleDB, and
-- answers queries from there. A write request goes through these parts: the ingestor groups its series
-- by metric (pkg/pgmodel/ingestor.go) with the help of the interned label sets
-- (pkg/pgmodel/labels.go); the routine of each metric buffers them and looks up their series ids, and
-- copiers write the buffers to the tables (pkg/pgmodel/sql_ingest.go, pkg/pgmodel/sql_utils.go). Of
-- several connectors only the leader writes (pkg/util/election.go, pkg/util/lock.go). A query comes in
-- through the handlers of pkg/api and becomes SQL (pkg/pgmodel/query_builder.go,
-- pkg/pgmodel/sql_reader.go); the rows that come back are read as series (pkg/pgmodel/series_set.go) or
-- turned into time series, and the answer of the query engine is written as JSON (pkg/api/marshal.go).
-- Caches on the way are clock caches (pkg/clockcache/cache.go). At the start the schema is migrated
-- (pkg/pgmodel/migrate.go).
--
-- Files, and the code that each models:
--   Prelude        the shared names: Boolean tests and the conditional (Tests), lists (Lists), bytes
--                  and their order (Bytes), Go maps as association lists (Dict), int64 values and
--                  loop indices as integers (Int), the decoding of UTF-8 (Utf8)
--   ClockCache     pkg/clockcache/cache.go: Cache and its operations, one at a time under its locks. A pointer
--                  to an element is an index into the storage.
--   Labels         pkg/pgmodel/labels.go: Labels, getStr, the interner, labelProtosToLabels
--   Samples        pkg/pgmodel/sql_utils.go: SampleInfoIterator, and the loop of doInsert that drains it
--   Ingestor       pkg/pgmodel/ingestor.go: Ingest and parseData; InsertData of sql_ingest.go
--   Inserter       pkg/pgmodel/sql_ingest.go: pendingBuffer, doInsert, insertErrorFallback, tryRecovery,
--                  decompressChunks, runInserter
--   SeriesIds      pkg/pgmodel/sql_ingest.go: fillKnowSeriesIds, setSeriesIds
--   Handler        pkg/pgmodel/sql_ingest.go: insertHandler and the loop of runInserterRoutine. What the
--                  routine finds in its channel is a sequence of inputs, so every interleaving of
--                  senders and of Close is a list.
--   Pipeline       pkg/pgmodel/sql_ingest.go: InsertData, getMetricInserter, the start of the routines, the
--                  copiers and the worker that completes metrics, as steps that interleave. Channels are
--                  queues of bounded or no length, the wait group of a call is a counter, and its error
--                  channel a place for one error. The answers of the database are chosen by the step that asks.
--                  A weight of samples stands for the series whose way is followed.
--   SeriesSet      pkg/pgmodel/series_set.go: pgxSeriesIterator; pgxSeriesSet (ResultSets), each result
--                  set being its rows and the error that it ends with
--   QueryBuilder   pkg/pgmodel/query_builder.go: buildSubQueries, clauseBuilder, fillInParameters, anchorValue;
--                  the texts of the queries and getQueryFinalizer (Finalizer); buildTimeSeries,
--                  getSeriesPerMetric and the times (TimeSeries)
--   Reader         pkg/pgmodel/sql_reader.go: getLabelsForIds, fetchMissingLabels, getMetricTableName;
--                  getResultRows, querySingleMetric, LabelNames and LabelValues (Results); Select, Query
--                  and FromLabelMatchers of pkg/pgmodel/labels.go (Queries);
--                  pkg/pgmodel/cache.go: MetricNameCache
--   WriteApi       pkg/api/write.go: Write, isWriter
--   Api            pkg/api/common.go, query.go, query_range.go, series.go, labels.go, label_values.go and
--                  read.go: the handlers, from the values of the form to what is written to the client
--   Json           pkg/api/marshal.go: errorWrapper, WriteEscapedString, writeJsonFloat and the marshalling
--                  of vectors and matrices, piece by piece through a writer that may fail
--   Migrate        pkg/pgmodel/migrate.go: Migrator; the function Migrate around it (Startup)
--   Election       pkg/util/election.go: Elector, ScheduledElector, RestElection
--   AdvisoryLock   pkg/util/lock.go: PgAdvisoryLock. Its mutex is a flag, since one path leaves it locked.
--   Connector      cmd/timescale-prometheus/main.go: initElector, migrate, and the liveness check beside the
--                  write handler, as events in any order
--   Tests          runs on concrete inputs, and an instance of each result below that has hypotheses
--
-- A module below one of these that is not named here holds proofs, or the handlers of Api (Ranges,
-- Queries, Reads) and the count of the steps of a range query in the engine (Steps), and is named for
-- them.
--
-- State is passed explicitly: an operation takes the state and returns the new one. A panic is none,
-- and so is a call that waits for ever on the mutex of the advisory lock. A Go error is a value
-- where the code tells errors apart, else none. PostgreSQL, the semantic versions, the embedded
-- files and the Prometheus matchers are parameters: records of the calls that the code makes. What
-- the code relies on is a record or a predicate of laws (Exclusive, IsServed, Matching, Anchoring,
-- Versioned, Ordered, IsFollower), each with a concrete instance in Tests. Log lines and metrics are left out. A float64
-- is a value of an abstract type. A string is the list of its bytes.
--
-- Fuel: the loops of the sample iterator and of the series iterator run on fuel. collect is given
-- one more than the number of samples, next and seek two more than the number of elements, and the
-- results show that this is enough. The loop of WriteEscapedString is given the length of the text,
-- and that of pgxSeriesSet.Next the number of result sets, which each turn makes less. decimal and
-- replace_all are given the number and the length, which bound their calls. getConn counts its
-- retries down from 10. The sweeps of the clock cache recurse on the storage.
--
-- Numbers: timestamps, series ids and cursors are integers, whose range is that of int64 in the code;
-- the sums of lengths stay far below the limits of a word and are natural numbers. The two bytes of
-- a label's length are computed modulo 256 as in the code, and UnixNano wraps around in toMilis; the sums of
-- milliseconds in getQueryFinalizer are taken not to.
--
-- Not modelled: the PromQL engine and its functions but for that count (a copy of Prometheus' library,
-- whose calls are parameters), protocol buffers and the files of migrations (generated code, a parameter of the
-- migrator), flags, routes, pools and wiring of the main program, the end of the insert pipeline by
-- Close outside Handler, gets that mark elements of a clock cache while an eviction sweeps (which is how an insert starves),
-- the order in which copiers that work side by side finish (a copy is one step, in the order of the
-- queue), a commit whose outcome is unknown, logging,
-- metrics, compression and cross-origin headers, and the extension, which is another program.
pub mod Prelude
pub mod ClockCache
pub mod Labels
pub mod Samples
pub mod Ingestor
pub mod SeriesSet
pub mod Election
pub mod AdvisoryLock
pub mod Inserter
pub mod Json
pub mod SeriesIds
pub mod Handler
pub mod Pipeline
pub mod QueryBuilder
pub mod Migrate
pub mod Reader
pub mod WriteApi
pub mod Connector
pub mod Api
mod Tests
