-- ===== src/AdvisoryLock/Holding.antt =====
-- pkg/util/lock.go: when the lock is held.
use timescale_prometheus.Prelude.{
  ◌≢◌, ℕ, zero, suc, ◌≡◌, refl, sym, ap, ◌∙◌, inl, inr, Bool, true, false, Option, none, some,
  is_some, ◌||◌, not, arith, Option-cases, Bool-cases,
}
use mathlib.Core.Path.{subst}
use timescale_prometheus.AdvisoryLock.{
  answered, Database, LockError, Lock, read_reply, get_conn, conn_clean_up, query_lock,
  get_advisory_lock, try_lock,
}

-- A lock that is held has a connection.
unfoldable pub IsSound : {C : Type 0} → Lock C → Type 0
IsSound l = l.obtained ≡ true → is_some l.conn ≡ true

module _ {C W : Type 0} (db : Database C W) where
  query_lock_conn :
      (c : C) (l : Lock C) (w : W)
      → l.conn ≡ some c
      → let (got, _, l', _) = query_lock db c l w in got ≡ true → l'.conn ≡ some c
  unfolding query_lock read_reply conn_clean_up
  query_lock_conn c l w h = ground arith

  query_lock_keeps :
      (c : C) (l : Lock C) (w : W)
      → let (_, _, l', _) = query_lock db c l w in
        (l'.locked ≡ l.locked) × (l'.group_lock_id ≡ l.group_lock_id) × (l'.obtained ≡ l.obtained)
  unfolding query_lock read_reply conn_clean_up
  query_lock_keeps c l w = ground arith

  get_advisory_lock_keeps :
      (l : Lock C) (w : W)
      → let (got, _, l', _) = get_advisory_lock db l w in
        (got ≡ true → is_some l'.conn ≡ true)
        × (l'.locked ≡ l.locked)
        × (l'.group_lock_id ≡ l.group_lock_id)
  unfolding get_advisory_lock
  get_advisory_lock_keeps l w = elim (Option-cases l.conn) [
    | inr (c, e) ↦ let a = query_lock_conn c l w e in let b = query_lock_keeps c l w in ground arith
    | inl e ↦ elim (Option-cases (get_conn db 10 w).1) [
      | inl e' ↦ ground arith
      | inr (c, e') ↦
          let l' = record l { conn = some c } in
          let w' = (get_conn db 10 w).2 in
          let a = query_lock_conn c l' w' refl in let b = query_lock_keeps c l' w' in ground arith
    ]
  ]

  -- A call of TryLock on a free mutex returns, with the mutex free; the lock is obtained exactly if
  -- it answers true, only with a connection, and an answer true comes without an error.
  pub try_lock_outcome :
      (l : Lock C) (w : W)
      → l.locked ≡ false
      → (got : Bool) × (err : Option LockError) × (l' : Lock C) × (w' : W) × (try_lock db l w
          ≡ some (got, err, l', w'))
        × (l'.locked ≡ false)
        × (l'.group_lock_id ≡ l.group_lock_id)
        × (l'.obtained ≡ got)
        × IsSound l'
        × (got ≡ true → err ≡ none)
  unfolding try_lock get_advisory_lock IsSound
  try_lock_outcome l w free =
      let a = get_advisory_lock db l w in
      let (conn, keeps, same) = get_advisory_lock_keeps l w in
      elim (Bool-cases (not a.0 || is_some a.1)) [
        | inl e ↦ (
          false,
          a.1,
          record a.2 { obtained = false },
          a.3,
          ground arith,
          ground arith,
          same,
          refl,
          λ h. ground arith,
          λ h. ground arith,
        )
        | inr e ↦ (
          true,
          none,
          record a.2 { obtained = true },
          a.3,
          ground arith,
          ground arith,
          same,
          refl,
          λ h. ground arith,
          λ h. refl,
        )
      ]

-- What the lock needs of the database: `holds c i w` is that the session of `c` holds the lock `i`.
-- One session at most holds a lock, a session that is told that it has the lock holds it, a new session
-- holds nothing, and no call ends the hold of another session.
pub record Exclusive {C W : Type 0} (db : Database C W) (Holds : C → ℕ → W → Type 0) : Type 0 where
  pub one_holder : (c d : C) (i : ℕ) (w : W) → Holds c i w → Holds d i w → c ≡ d
  pub told :
      (c : C) (i : ℕ) (w : W)
      → (db.try_lock i c w).0 ≡ answered true
      → Holds c i (db.try_lock i c w).1
  pub new_session :
      (c : C) (i : ℕ) (w : W) → (db.connect w).0 ≡ some c → Holds c i (db.connect w).1 → ⊥
  pub kept_by_connect : (d : C) (i : ℕ) (w : W) → Holds d i w → Holds d i (db.connect w).1
  pub kept_by_check : (d : C) (i : ℕ) (c : C) (w : W) → Holds d i w → Holds d i (db.is_alive c w).1
  pub kept_by_try :
      (d : C) (i j : ℕ) (c : C) (w : W) → Holds d i w → Holds d i (db.try_lock j c w).1
  pub kept_by_disconnect :
      (d : C) (i : ℕ) (c : C) (w : W) → c ≢ d → Holds d i w → Holds d i (db.disconnect c w)

module _ {C W : Type 0} (db : Database C W) (Holds : C → ℕ → W → Type 0)
    (laws : Exclusive db Holds) where
  get_conn-Holds :
      (n : ℕ) (d : C) (i : ℕ) (w : W)
      → Holds d i w
      → let (_, conn, w') = get_conn db n w in Holds d i w' × (conn ≢ some d)
  unfolding get_conn
  get_conn-Holds zero d i w h = (h, λ e. ground arith)
  get_conn-Holds (suc n) d i w h =
      let w' = (db.connect w).1 in
      let h' = laws.kept_by_connect d i w h in
      elim (Option-cases (db.connect w).0) [
        | inl e ↦ ground arith
        | inr (c, e) ↦
            let h'' = laws.kept_by_check d i c w' h' in
            let rest = get_conn-Holds n d i (db.is_alive c w').1 h'' in
            let new = laws.new_session c i w e in
            let other : c ≢ d = λ p. new (subst (λ x. Holds x i w') (sym p) h') in
            elim (Bool-cases (db.is_alive c w').0) [ inl b ↦ ground arith | inr b ↦ ground arith ]
      ]

  query_lock-Holds :
      (c d : C) (l : Lock C) (w : W)
      → c ≢ d
      → l.conn ≡ some c
      → Holds d l.group_lock_id w
      → let (got, _, _, w') = query_lock db c l w in (got ≡ false) × Holds d l.group_lock_id w'
  unfolding query_lock read_reply conn_clean_up
  query_lock-Holds c d l w other e h =
      let i = l.group_lock_id in
      let w' = (db.try_lock i c w).1 in
      let h' = laws.kept_by_try d i i c w h in
      let h'' = laws.kept_by_disconnect d i c w' other h' in
      let refused : (db.try_lock i c w).0 ≡ answered true → ⊥ =
        λ p. other (laws.one_holder c d i w' (laws.told c i w p) h') in
      ground arith

  get_advisory_lock-Holds :
      (l : Lock C) (d : C) (w : W)
      → l.conn ≢ some d
      → Holds d l.group_lock_id w
      → let (got, _, _, w') = get_advisory_lock db l w in (got ≡ false) × Holds d l.group_lock_id w'
  unfolding get_advisory_lock
  get_advisory_lock-Holds l d w other h =
      let g = get_conn-Holds 10 d l.group_lock_id w h in
      elim (Option-cases l.conn) [
        | inr (c, e) ↦
            let q = query_lock-Holds c d l w (λ p. other (e ∙ ap some p)) e h in ground arith
        | inl e ↦ elim (Option-cases (get_conn db 10 w).1) [
          | inl e' ↦ ground arith
          | inr (c, e') ↦
              let l' = record l { conn = some c } in
              let w' = (get_conn db 10 w).2 in
              let q = query_lock-Holds c d l' w' (λ p. g.1 (e' ∙ ap some p)) refl g.0 in
              ground arith
        ]
      ]

  -- While another session holds the lock of the group, TryLock on a free mutex answers false and
  -- the instance is not the leader, and that session still holds the lock, for a database where a
  -- lock has one holder at most, an answer true means that the session holds it, a new session
  -- holds nothing and no call ends the hold of another session.
  pub try_lock-Exclusive :
      (l : Lock C) (d : C) (w : W)
      → l.locked ≡ false
      → l.conn ≢ some d
      → Holds d l.group_lock_id w
      → (err : Option LockError) × (l' : Lock C) × (w' : W) × (try_lock db l w
          ≡ some (false, err, l', w'))
        × (l'.obtained ≡ false)
        × Holds d l.group_lock_id w'
  unfolding try_lock get_advisory_lock
  try_lock-Exclusive l d w free other h =
      let a = get_advisory_lock db l w in
      let g = get_advisory_lock-Holds l d w other h in
      (a.1, record a.2 { obtained = false }, a.3, ground arith, refl, g.1)
