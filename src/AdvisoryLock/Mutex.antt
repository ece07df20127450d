-- ===== src/AdvisoryLock/Mutex.antt =====
-- pkg/util/lock.go: which calls leave the mutex of the lock locked.
use timescale_prometheus.Prelude.{
  ◌≡◌, ◌↔◌, refl, inl, inr, true, false, Option, none, some, is_some, arith, Option-cases,
  Bool-cases,
}
use timescale_prometheus.AdvisoryLock.{
  Database, Lock, conn_clean_up, try_lock, release, close, is_locked,
}
use timescale_prometheus.AdvisoryLock.Holding.{IsSound, try_lock_outcome}

-- The calls of a lock.
pub data Call : Type 0 where
  to_try to_release to_close to_ask : Call

-- A Release that finds the lock not held.
abbrev pub IsMisuse : {C : Type 0} → Call → Lock C → Type 0
IsMisuse call l = (call ≡ to_release) × (l.obtained ≡ false)

module _ {C W : Type 0} (db : Database C W) where
  -- The lock and the database after a call that returns.
  unfoldable pub perform : Call → Lock C → W → Option (Lock C × W)
  perform to_try l w = elim (try_lock db l w) [ none ↦ none | some (_, _, l', w') ↦ some (l', w') ]
  perform to_release l w = elim (release db l w) [ none ↦ none | some (_, l', w') ↦ some (l', w') ]
  perform to_close l w = close db l w
  perform to_ask l w = elim (is_locked db l) [ none ↦ none | some _ ↦ some (l, w) ]

  perform-blocked : (call : Call) (l : Lock C) (w : W) → l.locked ≡ true → perform call l w ≡ none
  unfolding perform try_lock release close is_locked
  perform-blocked to_try l w h = ground arith
  perform-blocked to_release l w h = ground arith
  perform-blocked to_close l w h = ground arith
  perform-blocked to_ask l w h = ground arith

  -- A call returned, and left the mutex locked exactly if it was misused.
  pub record Returns (call : Call) (l : Lock C) (w : W) : Type 0 where
    pub lock : Lock C
    pub world : W
    pub returned : perform call l w ≡ some (lock, world)
    pub stays_locked : (lock.locked ≡ true) ↔ IsMisuse call l
    pub blocks : IsMisuse call l → (next : Call) (v : W) → perform next lock v ≡ none

  returns :
      (call : Call) (l l' : Lock C) (w w' : W)
      → perform call l w ≡ some (l', w')
      → (l'.locked ≡ true) ↔ IsMisuse call l
      → Returns call l w
  returns call l l' w w' e locked = record {
    lock = l';
    world = w';
    returned = e;
    stays_locked = locked;
    blocks = λ misuse next v. perform-blocked next l' v (locked.1 misuse);
  }

  -- On a free mutex, with a connection if the lock is held, each of TryLock, Release, Close and
  -- Locked returns; the mutex is still locked afterwards exactly if the call was a Release that
  -- found the lock not held, and then every further call blocks.
  pub perform-locked :
      (call : Call) (l : Lock C) (w : W) → l.locked ≡ false → IsSound l → Returns call l w
  unfolding perform
  perform-locked to_try l w free sound =
      let (got, err, l', w', e, free', _, _, _, _) = try_lock_outcome db l w free in
      returns to_try l l' w w' (ground arith) (λ h. ground arith, λ m. ground arith)
  perform-locked to_release l w free sound = elim (Bool-cases l.obtained) [
    | inr out ↦
        returns to_release l (record l { locked = true }) w w (unfold release in ground arith)
          (λ h. (refl, out), λ m. refl)
    | inl held ↦
        let there : is_some l.conn ≡ true = unfold IsSound in sound held in
        elim (Option-cases l.conn) [
          | inl e ↦ absurd (ground arith)
          | inr (c, e) ↦
              let w' = (db.unlock_all c w).1 in
              elim (Bool-cases (db.unlock_all c w).0) [
                | inl sent ↦
                    returns to_release l (record l { obtained = false }) w w'
                      (unfold release in ground arith)
                      (λ h. absurd (ground arith), λ m. absurd (ground arith))
                | inr failed ↦
                    returns to_release l l w w' (unfold release in ground arith)
                      (λ h. absurd (ground arith), λ m. absurd (ground arith))
              ]
        ]
  ]
  perform-locked to_close l w free sound =
      let (l', w') = conn_clean_up db l w in
      returns to_close l l' w w' (unfold close in ground arith)
        (λ h. absurd (unfold conn_clean_up in ground arith), λ m. absurd (ground arith))
  perform-locked to_ask l w free sound =
      returns to_ask l l w w (unfold is_locked in ground arith)
        (λ h. absurd (ground arith), λ m. absurd (ground arith))
