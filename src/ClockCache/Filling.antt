-- ===== src/ClockCache/Filling.antt =====
-- `InsertBatch` (pkg/clockcache/cache.go): what is in the cache after a batch.
use timescale_prometheus.Prelude.{
  ℕ, zero, suc, ◌<◌, ◌≡◌, refl, ◌⊎◌, inl, inr, some, List, [], ◌∷◌, arith, length, get_elem?,
}
use timescale_prometheus.ClockCache.{Cache, insert, insert_all, insert_batch}
use timescale_prometheus.ClockCache.Contents.{contents, IsValid}
use timescale_prometheus.ClockCache.Batches.{insert_stores, insert_all_keeps}
use timescale_prometheus.ClockCache.Coherence.{Holds, Together, insert_all-Holds}

module _ {K V : Type 0} (dec : Discrete K) where
  -- A value that a key had in a cache, or was given in a batch.
  unfoldable pub IsGiven : Cache K V → List K → List V → K → V → Type 0
  IsGiven c keys values k w =
      (contents dec c k ≡ some w)
      ⊎ ((i : ℕ) × (get_elem? keys i ≡ some k) × (get_elem? values i ≡ some w))

  -- What `InsertBatch` leaves, with the values that it returns.
  pub record IsFilled (c : Cache K V) (keys : List K) (values values' : List V) (c' : Cache K V)
      : Type 0 where
    pub valid : IsValid dec c'
    pub same_capacity : c'.capacity ≡ c.capacity
    pub returned :
        (i : ℕ) (k : K)
        → get_elem? keys i ≡ some k
        → (w : V) × (get_elem? values' i ≡ some w) × IsGiven c keys values k w
    pub kept : (k : K) (w : V) → contents dec c' k ≡ some w → IsGiven c keys values k w
    pub last :
        (i : ℕ) (k : K)
        → suc i ≡ length keys
        → get_elem? keys i ≡ some k
        → (w : V) × (get_elem? values' i ≡ some w) × (contents dec c' k ≡ some w)

  insert_all-last :
      (c : Cache K V) (ks : List K) (vs : List V) (i : ℕ) (k : K)
      → IsValid dec c
      → 0 < c.capacity
      → length ks ≡ length vs
      → suc i ≡ length ks
      → get_elem? ks i ≡ some k
      → (w : V) × (get_elem? (insert_all dec c ks vs).2 i ≡ some w)
        × (contents dec (insert_all dec c ks vs).3 k ≡ some w)
  unfolding insert_all
  insert_all-last c [] vs i k v pos same at h = absurd (ground arith)
  insert_all-last c (k' ∷ ks) [] i k v pos same at h = absurd (omega arith)
  insert_all-last c (k' ∷ []) (w ∷ []) zero k v pos same at h =
      let (_, _, ok, _, mapped) = insert_stores dec c k' w v pos in
      let here : k' ≡ k = ground arith in rw (ok, ← here) ((insert dec c k' w).1, refl, mapped)
  insert_all-last c (k' ∷ []) (w ∷ x ∷ xs) i k v pos same at h = absurd (omega arith)
  insert_all-last c (k' ∷ []) (w ∷ []) (suc i) k v pos same at h = absurd (omega arith)
  insert_all-last c (k' ∷ l ∷ ks) (w ∷ ws) zero k v pos same at h = absurd (omega arith)
  insert_all-last c (k' ∷ l ∷ ks) (w ∷ ws) (suc i) k v pos same at h =
      let (v', cap, ok, _, _) = insert_stores dec c k' w v pos in
      let rest =
        insert_all-last (insert dec c k' w).3 (l ∷ ks) ws i k v' (omega arith) (omega arith)
          (omega arith) h in
      rw ok rest

  Together-given :
      (keys : List K) (values : List V) (P : K → V → Type 0)
      → length keys ≡ length values
      → ((i : ℕ) (k : K) (w : V) → get_elem? keys i ≡ some k → get_elem? values i ≡ some w → P k w)
      → Together dec P keys values
  unfolding Together
  Together-given [] [] P same h = refl
  Together-given [] (w ∷ ws) P same h = absurd (omega arith)
  Together-given (k ∷ ks) [] P same h = absurd (omega arith)
  Together-given (k ∷ ks) (w ∷ ws) P same h =
      (h 0 k w refl refl, Together-given ks ws P (omega arith) (λ i. h (suc i)))

  Together-at :
      (P : K → V → Type 0) (ks : List K) (ws : List V) (i : ℕ) (k : K)
      → Together dec P ks ws
      → get_elem? ks i ≡ some k
      → (w : V) × (get_elem? ws i ≡ some w) × P k w
  unfolding Together
  Together-at P [] ws i k t h = absurd (ground arith)
  Together-at P (k' ∷ ks) [] i k t h = absurd (ground arith)
  Together-at P (k' ∷ ks) (w ∷ ws) zero k t h =
      let here : k' ≡ k = ground arith in (w, refl, rw (← here) t.0)
  Together-at P (k' ∷ ks) (w ∷ ws) (suc i) k t h = Together-at P ks ws i k t.1 h

  -- For a valid cache of positive capacity and slices of one length, InsertBatch, run without
  -- lookups beside it, reports all keys inserted, returns the keys unchanged and leaves a valid
  -- cache of the same capacity; every value that it returns, and every value that is cached
  -- afterwards, is one that its key had in the cache or was given in the batch, and the last key is
  -- cached with the value returned for it.
  pub insert_batch_total :
      (c : Cache K V) (keys : List K) (values : List V)
      → IsValid dec c
      → 0 < c.capacity
      → length keys ≡ length values
      → (values' : List V) × (c' : Cache K V) × (insert_batch dec c keys values
          ≡ some (length keys, keys, values', c'))
        × IsFilled c keys values values' c'
  unfolding insert_batch
  insert_batch_total c keys values v pos same =
      let (n, ks, v', cap) = insert_all_keeps dec c keys values v pos same in
      let r = insert_all dec c keys values in
      let given = IsGiven c keys values in
      let (back, held, _) =
        insert_all-Holds dec given c keys values v pos (unfold Holds IsGiven in (λ q w e. inl e)) (
          Together-given keys values given same (λ i k w a b. unfold IsGiven in (inr (i, a, b)))) in
      (
        r.2,
        r.3,
        ground arith,
        record {
          valid = v';
          same_capacity = cap;
          returned = λ i k h. Together-at given keys r.2 i k back h;
          kept = λ k w e. unfold Holds in (held k w e);
          last = λ i k at h. insert_all-last c keys values i k v pos same at h;
        },
      )
