-- ===== src/Tests/ElectionTests.antt =====
-- Runs and instances for pkg/util/election.go and pkg/util/lock.go.
use timescale_prometheus.Prelude.Int.{negsuc}
use timescale_prometheus.Prelude.{
  ℕ, ◌+◌, ◌≡◌, refl, ◌==◌, Bool, true, false, Option, none, some, [], ◌∷◌, arith, if◌then◌else◌,
}
use timescale_prometheus.Election.{Election, Elector, atoi, unsigned_value, digits_value, negate}
use timescale_prometheus.AdvisoryLock.{
  Database, Lock, LockError, answered, try_lock, get_advisory_lock, get_conn, query_lock,
  read_reply, conn_clean_up,
}
use timescale_prometheus.AdvisoryLock.Holding.{Exclusive, IsSound, try_lock-Exclusive}
use timescale_prometheus.AdvisoryLock.Mutex.{to_release, Returns, perform-locked}

reads_negative : atoi (45 ∷ 49 ∷ 50 ∷ []) ≡ some (negsuc 11)
unfolding atoi unsigned_value digits_value negate
reads_negative = refl

reads_letters : atoi (49 ∷ 120 ∷ []) ≡ none
unfolding atoi unsigned_value digits_value negate
reads_letters = refl

-- An election that is won by asking who leads, as over a lock that is free.
abbrev by_asking : Election Bool ℕ
by_asking = record {
  id = λ s. [];
  become_leader = λ s. (true, none, true);
  is_leader = λ s. (true, none, true);
  resign = λ s. (none, false);
}

abbrev paused_follower : Elector Bool
paused_follower = record { election = false; paused = true }

-- A server with one advisory lock: the number of the next session, and the session that holds it. The
-- number of a session that holds the lock is not given again.
record Server : Type 0 where
  next : ℕ
  holder : Option ℕ

abbrev is_holder : ℕ → Option ℕ → Bool
is_holder c none = false
is_holder c (some d) = c == d

abbrev server : Database ℕ Server
server = record {
  connect = λ w.
      if is_holder w.next w.holder
      then (none, w)
      else (some w.next, record w { next = w.next + 1 });
  is_alive = λ c w. (true, w);
  try_lock = λ _ c w. elim w.holder [
    | none ↦ (answered true, record w { holder = some c })
    | some d ↦ (answered (c == d), w)
  ];
  unlock_all = λ c w. (true, if is_holder c w.holder then record w { holder = none } else w);
  disconnect = λ c w. if is_holder c w.holder then record w { holder = none } else w;
}

Holds : ℕ → ℕ → Server → Type 0
Holds c _ w = w.holder ≡ some c

server-Exclusive : Exclusive server Holds
unfolding Holds
server-Exclusive = record {
  one_holder = λ c d _ w h k. ground arith;
  told = λ c _ w e. ground arith;
  new_session = λ c _ w e h. ground arith;
  kept_by_connect = λ d _ w h. ground arith;
  kept_by_check = λ d _ c w h. h;
  kept_by_try = λ d _ _ c w h. ground arith;
  kept_by_disconnect = λ d _ c w other h. ground arith;
}

abbrev new_instance : Lock ℕ
new_instance = record { conn = none; group_lock_id = 1; locked = false; obtained = false }

-- Session 0 holds the lock; the instance that starts gets session 1.
abbrev held : Server
held = record { next = 1; holder = some 0 }

try_lock-Exclusive_example :
    (err : Option LockError) × (l' : Lock ℕ) × (w' : Server) × (try_lock server new_instance held
      ≡ some (false, err, l', w'))
    × (l'.obtained ≡ false)
    × Holds 0 1 w'
unfolding Holds
try_lock-Exclusive_example =
    try_lock-Exclusive server Holds server-Exclusive new_instance 0 held refl (λ e. ground arith)
      refl

perform-locked_example : Returns server to_release new_instance held
unfolding IsSound
perform-locked_example =
    perform-locked server to_release new_instance held refl (λ h. absurd (ground arith))

takes_free_lock :
    try_lock server new_instance (record { next = 1; holder = none })
    ≡ some (
      true,
      none,
      record { conn = some 1; group_lock_id = 1; locked = false; obtained = true },
      record { next = 2; holder = some 1 },
    )
unfolding try_lock get_advisory_lock get_conn query_lock read_reply conn_clean_up
takes_free_lock = refl

abbrev leading : Elector Bool
leading = record { election = true; paused = false }
