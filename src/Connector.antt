-- ===== src/Connector.antt =====
-- cmd/timescale-prometheus/main.go: the choice of the election at the start, the migration by the instance that
-- writes, and the liveness check beside the write handler. Flags, logging, metrics and the routes are left out.
pub mod Liveness
use timescale_prometheus.Prelude.Int.{ℤ, pos, negsuc, ℤ_discrete, ◌-ℤ◌}
use timescale_prometheus.Prelude.Bytes.{Bytes}
use timescale_prometheus.Election.{Election, Elector, scheduled_election, prometheus_liveness_check}
use timescale_prometheus.WriteApi.{Calls, Server, WriteRequest, is_writer, write}
use timescale_prometheus.Migrate.{Versions, Database, Files}
use timescale_prometheus.Migrate.Startup.{Pool, Startup, migrate_app}
use timescale_prometheus.Prelude.{
  Bool, true, false, not, ◌&&◌, Option, none, some, List, [], ◌∷◌, ite, if◌then◌else◌, is_some,
}

-- The fields of `config` that choose the election; durations in nanoseconds.
pub record Config : Type 0 where
  pub rest_election : Bool
  pub ha_group_lock_id : ℤ
  pub prometheus_timeout : ℤ

-- What `initElector` comes to: an error, no election, the one over REST, or the scheduled one over the lock, with
-- whether the liveness check is started.
pub data Elected : Type 0 where
  two_elections no_timeout no_lock : Elected
  no_election : Elected
  over_rest : Elected
  over_lock : Bool → Elected

-- `initElector`, for whether the lock can be made.
unfoldable pub init_elector : Config → Bool → Elected
init_elector cfg lock_made =
    let with_lock : Elected = ite (ℤ_discrete cfg.prometheus_timeout (negsuc 0)) no_timeout (
      if lock_made
      then over_lock (ite (ℤ_discrete cfg.prometheus_timeout (pos 0)) false true)
      else no_lock) in
    let without_rest = ite (ℤ_discrete cfg.ha_group_lock_id (pos 0)) no_election with_lock in
    let with_rest = ite (ℤ_discrete cfg.ha_group_lock_id (pos 0)) over_rest two_elections in
    if cfg.rest_election then with_rest else without_rest

-- What the connector holds: the server with the metrics of its handlers, whether the scheduled election is paused,
-- and the variable `lastRequestUnixNano` of the package.
pub record Connector (S I : Type 0) : Type 0 where
  pub server : Server S I
  pub paused : Bool
  pub last_request_unix_nano : ℤ

-- What happens: a write request, a tick of the scheduled election, or one of the liveness check at a time.
pub data Event (B : Type 0) : Type 0 where
  request : WriteRequest B → Event B
  tick : Event B
  check : ℤ → Event B

module _ {S I E B T : Type 0} (api : Election S E) (calls : Calls B T I E) where
  -- The start at a time: the metrics get a copy of the variable.
  unfoldable pub start : ℤ → S → I → Connector S I
  start now election inserter = record {
    server = record { election = some election; inserter = inserter; last_request = now };
    paused = false;
    last_request_unix_nano = now;
  }

  -- The elector, which the server and the goroutines share, changed by an operation.
  unfoldable pub on_elector : (Elector S → Elector S) → Connector S I → Connector S I
  on_elector change c = elim c.server.election [
    | none ↦ c
    | some s ↦
        let se = change (record { election = s; paused = c.paused }) in
        record c { server = record c.server { election = some se.election }; paused = se.paused }
  ]

  unfoldable pub react : ℤ → Event B → Connector S I → Connector S I
  unfolding on_elector write scheduled_election prometheus_liveness_check
  react timeout (request r) c = record c { server = (write api calls c.server r).1 }
  react timeout tick c = on_elector (scheduled_election api) c
  react timeout (check now) c =
      on_elector (prometheus_liveness_check api (now -ℤ c.last_request_unix_nano) timeout) c

  unfoldable pub react_all : ℤ → List (Event B) → Connector S I → Connector S I
  unfolding react
  react_all timeout [] c = c
  react_all timeout (e ∷ es) c = react_all timeout es (react timeout e c)

module _ {S I E B T D V : Type 0} (api : Election S E) (calls : Calls B T I E)
    (versions : Versions V) (db : Database D V) (files : Files) (pool : Pool D) where
  -- `migrate`, for whether the database can be connected to: whether it has no error, the server and the
  -- database; none waits for the mutex of the migrations.
  unfoldable pub migrate_database :
      Bytes → Bytes → Bool → Server S I → Startup D → Option (Bool × Server S I × Startup D)
  unfolding is_writer migrate_app
  migrate_database version commit_hash connects s a =
      let (should_write, err, s') = is_writer api calls s in
      let migrated : Option (Bool × Server S I × Startup D) =
        elim (migrate_app versions db files pool version commit_hash a) [
          | none ↦ none
          | some (ok, a') ↦ some (ok, s', a')
        ] in
      if is_some err
      then some (false, s', a)
      else if not should_write
      then some (true, s', a)
      else if connects
      then migrated
      else some (false, s', a)
