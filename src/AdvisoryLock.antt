-- ===== src/AdvisoryLock.antt =====
-- pkg/util/lock.go: leader election by an advisory lock of PostgreSQL. The database is a parameter, a
-- record of the calls that the lock makes of it, each of which takes and returns the state of the
-- world. The mutex is a flag, and an operation that waits for it is none.
pub mod Holding
pub mod Mutex
use timescale_prometheus.Prelude.{
  ℕ, zero, suc, Bool, true, false, Option, none, some, is_some, if◌then◌else◌, ◌||◌, not,
}

-- What `SELECT pg_try_advisory_lock` leads to: `Query` fails, reading the rows fails, there is no
-- row, scanning it fails, or it holds an answer.
pub data Reply : Type 0 where
  query_failed : Reply
  rows_failed : Reply
  no_row : Reply
  scan_failed : Reply
  answered : Bool → Reply

-- `C` are connections, `W` is the state of the world. `connect` is `pgx.Connect`, `is_alive` is the `SELECT 1`
-- of `checkConnection`, `unlock_all` tells whether `SELECT pg_advisory_unlock_all` could be sent.
pub record Database (C W : Type 0) : Type 0 where
  pub connect : W → Option C × W
  pub is_alive : C → W → Bool × W
  pub try_lock : ℕ → C → W → Reply × W
  pub unlock_all : C → W → Bool × W
  pub disconnect : C → W → W

pub data LockError : Type 0 where
  max_attempts : LockError
  connection_failed : LockError
  request_failed : LockError
  not_holding : LockError

-- `PgAdvisoryLock`
pub record Lock (C : Type 0) : Type 0 where
  pub conn : Option C
  pub group_lock_id : ℕ
  pub locked : Bool
  pub obtained : Bool

-- The query and its outcome: the answer, the error, and whether `err` is set when the function
-- returns, so that the connection is cleaned up. The `err` of `Scan` is another variable.
unfoldable pub read_reply : Reply → Bool × Option LockError × Bool
read_reply query_failed = (false, some request_failed, true)
read_reply rows_failed = (false, some request_failed, true)
read_reply no_row = (false, some request_failed, false)
read_reply scan_failed = (false, some request_failed, false)
read_reply (answered b) = (b, none, false)

module _ {C W : Type 0} (db : Database C W) where
  -- `getConn`, where the first number is how many retries are left.
  unfoldable pub get_conn : ℕ → W → Option LockError × Option C × W
  get_conn zero w = (some max_attempts, none, w)
  get_conn (suc retries) w =
      let (conn, w') = db.connect w in
      elim conn [
        | none ↦ (some connection_failed, none, w')
        | some c ↦
            let (alive, w'') = db.is_alive c w' in
            let again = get_conn retries w'' in if alive then (none, some c, w'') else again
      ]

  unfoldable pub conn_clean_up : Lock C → W → Lock C × W
  conn_clean_up l w =
      (record l { conn = none }, elim l.conn [ none ↦ w | some c ↦ db.disconnect c w ])

  unfoldable pub query_lock : C → Lock C → W → Bool × Option LockError × Lock C × W
  unfolding read_reply conn_clean_up
  query_lock c l w =
      let (reply, w') = db.try_lock l.group_lock_id c w in
      let (result, err, cleans) = read_reply reply in
      let (cleaned, w'') = conn_clean_up l w' in
      if cleans then (result, err, cleaned, w'') else (result, err, l, w')

  unfoldable pub get_advisory_lock : Lock C → W → Bool × Option LockError × Lock C × W
  unfolding query_lock get_conn
  get_advisory_lock l w = elim l.conn [
    | some c ↦ query_lock c l w
    | none ↦
        let (err, conn, w') = get_conn 10 w in
        elim conn [
          | none ↦ (false, err, record l { conn = none }, w')
          | some c ↦ query_lock c (record l { conn = some c }) w'
        ]
  ]

  -- `TryLock`; none while another call holds the mutex.
  unfoldable pub try_lock : Lock C → W → Option (Bool × Option LockError × Lock C × W)
  unfolding get_advisory_lock
  try_lock l w =
      if l.locked
      then none
      else (let (got, err, l', w') = get_advisory_lock l w in
          if not got || is_some err
          then some (false, err, record l' { obtained = false }, w')
          else some (true, none, record l' { obtained = true }, w'))

  -- `Release`: after `l.mutex.Lock()`, the unlock is deferred only once the lock is seen to be held.
  -- Without a connection `l.conn.Query` panics, which is none, too.
  unfoldable pub release : Lock C → W → Option (Option LockError × Lock C × W)
  release l w =
      if l.locked
      then none
      else if not l.obtained
      then some (some not_holding, record l { locked = true }, w)
      else elim l.conn [
        | none ↦ none
        | some c ↦
            let (sent, w') = db.unlock_all c w in
            if sent
            then some (none, record l { obtained = false }, w')
            else some (some request_failed, l, w')
      ]

  -- `Close` and `Locked`, which only wait for a writer of the mutex.
  unfoldable pub close : Lock C → W → Option (Lock C × W)
  unfolding conn_clean_up
  close l w = if l.locked then none else some (conn_clean_up l w)

  unfoldable pub is_locked : Lock C → Option Bool
  is_locked l = if l.locked then none else some l.obtained

  -- `NewPgAdvisoryLock`: none when `TryLock` fails.
  unfoldable pub new_lock : ℕ → W → Option (Lock C × W)
  unfolding try_lock
  new_lock id w =
      elim (try_lock (record { conn = none; group_lock_id = id; locked = false; obtained = false })
        w) [ none ↦ none | some (_, err, l, w') ↦ elim err [ none ↦ some (l, w') | some _ ↦ none ] ]
