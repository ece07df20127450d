-- ===== src/ClockCache.antt =====
-- pkg/clockcache/cache.go: the state of the cache and its operations, run one at a time, as the
-- insert lock and the write lock let them. A pointer `&storage[i]` is the index `i`: the storage is
-- never reallocated below its capacity.
pub mod Sweep
pub mod Evict
pub mod Contents
pub mod Access
pub mod Pointers
pub mod Inserts
pub mod Swaps
pub mod Reads
pub mod Batches
pub mod Coherence
pub mod Filling
pub mod Expand
use mathlib.Core.Option
use timescale_prometheus.Prelude.Dict
use timescale_prometheus.Prelude.{
  ℕ, zero, suc, ◌+◌, ◌-◌, Bool, true, false, Option, none, some, List, [], ◌∷◌, ◌++◌, ltb, leb,
  ◌==◌, if◌then◌else◌, length, get_elem?, set, take, drop,
}

-- `element`: the flag `used` is a uint32.
pub record Element (K V : Type 0) : Type 0 where
  pub key : K
  pub value : V
  pub used : ℕ

pub record Cache (K V : Type 0) : Type 0 where
  pub elements : List (K × ℕ)
  pub storage : List (Element K V)
  pub capacity : ℕ
  pub next : ℕ

module _ {K V : Type 0} where
  unfoldable pub with_max : ℕ → Cache K V
  with_max max = record { elements = []; storage = []; capacity = max; next = 0 }

  -- What `atomic.SwapUint32(&elem.used, 0)` leaves.
  abbrev pub clear : Element K V → Element K V
  clear e = record e { used = 0 }

  -- One `for next := range part` of `evict`: the flags are cleared up to the first one that was
  -- clear already, whose index in the part is returned.
  unfoldable pub sweep : List (Element K V) → Option ℕ × List (Element K V)
  sweep [] = (none, [])
  sweep (e ∷ es) =
      let rest = sweep es in
      if e.used == 0 then (some 0, clear e ∷ es) else (Option.map suc rest.0, clear e ∷ rest.1)

  -- One round of the outer loop: the part from `start` on, then the part before it. Both loops
  -- store `next + 1` for their own index `next`.
  unfoldable pub sweep_round : ℕ → List (Element K V) → Option (ℕ × ℕ) × List (Element K V)
  sweep_round start st =
      let post = sweep (drop start st) in
      let pre = sweep (take start st) in
      elim post.0 [
        | some k ↦ (some (start + k, k + 1), take start st ++ post.1)
        | none ↦ elim pre.0 [
          | some k ↦ (some (k, k + 1), pre.1 ++ post.1)
          | none ↦ (none, pre.1 ++ post.1)
        ]
      ]

  -- The two rounds.
  unfoldable pub sweep_twice : ℕ → List (Element K V) → Option (ℕ × ℕ) × List (Element K V)
  sweep_twice start st =
      let first = sweep_round start st in
      let second = sweep_round start first.1 in
      elim first.0 [ some found ↦ (some found, first.1) | none ↦ second ]

  unfoldable pub evict : Cache K V → Option ℕ × Cache K V
  evict c =
      let (found, st) = sweep_twice c.next c.storage in
      elim found [
        | some (i, n) ↦ (some i, record c { storage = st; next = n })
        | none ↦ (none, record c { storage = st })
      ]

  -- A hit of `insert`: `if used != 0 { used = 1 }`.
  abbrev pub keep_mark : Element K V → Element K V
  keep_mark e = if e.used == 0 then e else record e { used = 1 }

  -- A hit of `get`: `if used == 0 { used = 1 }`.
  abbrev pub mark : Element K V → Element K V
  mark e = if e.used == 0 then record e { used = 1 } else e

  -- `*insertLocation = element{key, value}`
  abbrev pub fresh : K → V → Element K V
  fresh key value = record { key = key; value = value; used = 0 }

module _ {K V : Type 0} (dec : Discrete K) where
  -- `elem, present := self.elements[key]`, the pointer followed.
  unfoldable pub find : Cache K V → K → Option (ℕ × Element K V)
  find c key = elim (Dict.lookup dec key c.elements) [
    | none ↦ none
    | some i ↦ Option.map (λ e. (i, e)) (get_elem? c.storage i)
  ]

  -- The part of `insert` that follows a miss: the key's location is a slot that `evict` frees, or a
  -- new slot.
  unfoldable pub insert_missing : Cache K V → K → V → K × V × Bool × Cache K V
  insert_missing c key value =
      let (location, c') = evict c in
      if leb c.capacity (length c.storage)
      then elim location [
        | none ↦ (key, value, false, c')
        | some i ↦ elim (get_elem? c'.storage i) [
          | none ↦ (key, value, false, c')
          | some old ↦ (
            key,
            value,
            true,
            record c' {
              elements = Dict.insert dec key i (Dict.delete dec old.key c'.elements);
              storage = set c'.storage i (fresh key value);
            },
          )
        ]
      ]
      else (
        key,
        value,
        true,
        record c {
          elements = Dict.insert dec key (length c.storage) c.elements;
          storage = c.storage ++ fresh key value ∷ [];
        },
      )

  -- `insert`: the canonical key and value, whether they are in the cache, and the new cache.
  unfoldable pub insert : Cache K V → K → V → K × V × Bool × Cache K V
  insert c key value =
      let missing = insert_missing c key value in
      elim (find c key) [
        | some (i, e) ↦ (e.key, e.value, true, record c { storage = set c.storage i (keep_mark e) })
        | none ↦ missing
      ]

  -- The loop of `InsertBatch`: the number of elements inserted, the overwritten slices and the cache.
  unfoldable pub insert_all : Cache K V → List K → List V → ℕ × List K × List V × Cache K V
  insert_all c (k ∷ ks) (v ∷ vs) =
      let (k', v', inserted, c') = insert c k v in
      let (n, ks', vs', c'') = insert_all c' ks vs in
      if inserted then (suc n, k' ∷ ks', v' ∷ vs', c'') else (0, k' ∷ ks, v' ∷ vs, c')
  insert_all c ks vs = (0, ks, vs, c)

  -- `none` is the panic on slices of different lengths.
  unfoldable pub insert_batch :
      Cache K V → List K → List V → Option (ℕ × List K × List V × Cache K V)
  insert_batch c keys values =
      if length keys == length values then some (insert_all c keys values) else none

  -- `get`, and `Get` under the read lock.
  unfoldable pub get : Cache K V → K → Option V × Cache K V
  get c key = elim (find c key) [
    | none ↦ (none, c)
    | some (i, e) ↦ (some e.value, record c { storage = set c.storage i (mark e) })
  ]

  unfoldable pub unmark : Cache K V → K → Bool × Cache K V
  unmark c key = elim (find c key) [
    | none ↦ (false, c)
    | some (i, e) ↦ (true, record c { storage = set c.storage i (clear e) })
  ]

  -- `for i := range newStorage { newElements[elem.key] = elem }`
  unfoldable pub index_storage : ℕ → List (Element K V) → List (K × ℕ) → List (K × ℕ)
  index_storage i [] m = m
  index_storage i (e ∷ es) m = index_storage (suc i) es (Dict.insert dec e.key i m)

  unfoldable pub expand_to : Cache K V → ℕ → Cache K V
  expand_to c new_max =
      if leb new_max c.capacity
      then c
      else record c { elements = index_storage 0 c.storage []; capacity = new_max }

-- `GetValues`: `keys[n], keys[idx] = keys[idx], keys[n]`
unfoldable pub swap_keys : {K : Type 0} → List K → ℕ → ℕ → List K
swap_keys keys i j = elim (get_elem? keys i) [
  | none ↦ keys
  | some a ↦ elim (get_elem? keys j) [ none ↦ keys | some b ↦ set (set keys i b) j a ]
]

-- The variables of the loop of `GetValues`.
pub record Scan (K V : Type 0) : Type 0 where
  pub keys : List K
  pub values_out : List V
  pub idx : ℕ
  pub n : ℕ
  pub cache : Cache K V

module _ {K V : Type 0} (dec : Discrete K) where
  -- One pass through the body of the loop, `key` being `keys[idx]`.
  unfoldable pub scan_step : Scan K V → K → Scan K V
  scan_step s key =
      let (found, c') = get dec s.cache key in
      elim found [
        | none ↦ record s { keys = swap_keys s.keys (s.n - 1) s.idx; n = s.n - 1; cache = c' }
        | some v ↦ record s { values_out = set s.values_out s.idx v; idx = s.idx + 1; cache = c' }
      ]

  -- `for idx < n`, on fuel: a pass makes `n - idx` smaller by one, so the number of keys is enough.
  unfoldable pub scan_loop : ℕ → Scan K V → Scan K V
  scan_loop zero s = s
  scan_loop (suc fuel) s = elim (ltb s.idx s.n) [
    | false ↦ s
    | true ↦ elim (get_elem? s.keys s.idx) [
      | none ↦ s
      | some key ↦ scan_loop fuel (scan_step s key)
    ]
  ]

  -- The number of keys found, the reordered keys, the values and the cache; `none` is the panic.
  unfoldable pub get_values : Cache K V → List K → List V → Option (ℕ × List K × List V × Cache K V)
  get_values c keys values_out =
      let s =
        scan_loop (length keys)
          (record { keys = keys; values_out = values_out; idx = 0; n = length keys; cache = c }) in
      if length keys == length values_out then some (s.n, s.keys, s.values_out, s.cache) else none
