-- ===== src/ClockCache/Evict.antt =====
-- `evict` as a whole (pkg/clockcache/cache.go): it always finds a victim, and which one.
use mathlib.Core.List.{map-append}
use timescale_prometheus.Prelude.{
  ℕ, ◌+◌, ◌≤◌, ◌<◌, ◌≡◌, refl, sym, ap, ◌∙◌, ◌⊎◌, inl, inr, Option, none, some, List, [], ◌∷◌, ◌++◌,
  arith, length, get_elem?, take, drop, map, All, Option-cases, take-append-drop, length-append,
  length-map, length-drop, length-take_of_le,
}
use timescale_prometheus.ClockCache.{Element, Cache, clear, sweep, sweep_round, sweep_twice, evict}
use timescale_prometheus.ClockCache.Sweep.{
  entry, IsMarked, entries-sweep, sweep-Below, sweep-some, sweep-none, sweep_cleared, ring,
  ring_slot, sweep_round-ring,
}

-- What a found slot and the new cursor satisfy.
abbrev pub BelowBoth : ℕ → Option (ℕ × ℕ) → Type 0
BelowBoth n none = Unit
BelowBoth n (some (i, m)) = (i < n) × (m ≤ n)

module _ {K V : Type 0} where
  entries-take-drop :
      (start : ℕ) (st : List (Element K V))
      → map entry (take start st) ++ map entry (drop start st) ≡ map entry st
  entries-take-drop start st =
      sym (map-append entry (take start st) (drop start st))
      ∙ ap (map entry) (take-append-drop start st)

  entries-sweep_round :
      (start : ℕ) (st : List (Element K V)) → map entry (sweep_round start st).1 ≡ map entry st
  unfolding sweep_round
  entries-sweep_round start st =
      let a = drop start st in
      let b = take start st in
      ground (
        arith,
        entries-take-drop start st,
        entries-sweep a,
        entries-sweep b,
        map-append entry b (sweep a).1,
        map-append entry (sweep b).1 (sweep a).1,
      )

  sweep_round-Below :
      (start : ℕ) (st : List (Element K V))
      → start ≤ length st
      → BelowBoth (length st) (sweep_round start st).0
  unfolding sweep_round
  sweep_round-Below start st h = ground (
    arith,
    sweep-Below (drop start st),
    sweep-Below (take start st),
    length-drop start st,
    length-take_of_le start st h,
  )

  length-sweep_round :
      (start : ℕ) (st : List (Element K V)) → length (sweep_round start st).1 ≡ length st
  length-sweep_round start st =
      sym (length-map entry (sweep_round start st).1)
      ∙ ap length (entries-sweep_round start st)
      ∙ length-map entry st

  pub entries-sweep_twice :
      (start : ℕ) (st : List (Element K V)) → map entry (sweep_twice start st).1 ≡ map entry st
  unfolding sweep_twice
  entries-sweep_twice start st =
      ground
        (arith, entries-sweep_round start st, entries-sweep_round start (sweep_round start st).1)

  pub sweep_twice-Below :
      (start : ℕ) (st : List (Element K V))
      → start ≤ length st
      → BelowBoth (length st) (sweep_twice start st).0
  unfolding sweep_twice
  sweep_twice-Below start st h =
      let st' = (sweep_round start st).1 in
      let same = length-sweep_round start st in
      ground (arith, sweep_round-Below start st h, sweep_round-Below start st' (omega arith))

  -- The first `k` elements of the ring are in use and the next one is not.
  abbrev pub FirstUnused : ℕ → List (Element K V) → Type 0
  FirstUnused k st =
      All IsMarked (take k st) × ((e : Element K V) × (get_elem? st k ≡ some e) × (e.used ≡ 0))

  pub found_on_ring :
      (start : ℕ) (st : List (Element K V)) (k : ℕ)
      → start ≤ length st
      → (sweep (ring start st)).0 ≡ some k
      → (n : ℕ) × ((sweep_round start st).0 ≡ some (ring_slot start (length st) k, n))
  found_on_ring start st k h e = elim (Option-cases (sweep_round start st).0) [
    | inl none_found ↦ absurd (ground (arith, (sweep_round-ring start st h).0))
    | inr (found, some_found) ↦ (found.1, ground (arith, (sweep_round-ring start st h).0))
  ]

  not_found_on_ring :
      (start : ℕ) (st : List (Element K V))
      → start ≤ length st
      → (sweep (ring start st)).0 ≡ none
      → (sweep_round start st).0 ≡ none
  not_found_on_ring start st h e = elim (Option-cases (sweep_round start st).0) [
    | inl none_found ↦ none_found
    | inr (found, some_found) ↦ absurd (ground (arith, (sweep_round-ring start st h).0))
  ]

  length-ring :
      (start : ℕ) (st : List (Element K V)) → start ≤ length st → length (ring start st) ≡ length st
  length-ring start st h = omega (
    arith,
    length-append (drop start st) (take start st),
    length-drop start st,
    length-take_of_le start st h,
  )

  sweep_cleared_pos : (st : List (Element K V)) → 0 < length st → (sweep (map clear st)).0 ≡ some 0
  sweep_cleared_pos [] h = absurd (omega arith)
  sweep_cleared_pos (e ∷ es) h = sweep_cleared e es

  -- The first element of the ring that is not in use, or the very first one if all are.
  abbrev pub IsVictim : ℕ → List (Element K V) → Type 0
  IsVictim k st = FirstUnused k st ⊎ ((k ≡ 0) × All IsMarked st)

  second_round :
      (start : ℕ) (st : List (Element K V))
      → (sweep_round start st).0 ≡ none
      → (sweep_twice start st).0 ≡ (sweep_round start (sweep_round start st).1).0
  unfolding sweep_twice
  second_round start st h = ground arith

  first_round :
      (start : ℕ) (st : List (Element K V)) {found : ℕ × ℕ}
      → (sweep_round start st).0 ≡ some found
      → (sweep_twice start st).0 ≡ some found
  unfolding sweep_twice
  first_round start st h = ground arith

  pub sweep_twice-clock :
      (start : ℕ) (st : List (Element K V))
      → start ≤ length st
      → 0 < length st
      → (k n : ℕ) × ((sweep_twice start st).0 ≡ some (ring_slot start (length st) k, n))
        × IsVictim k (ring start st)
  sweep_twice-clock start st h pos = elim (Option-cases (sweep (ring start st)).0) [
    | inr (k, e) ↦
        let (n, found) = found_on_ring start st k h e in
        (k, n, first_round start st found, inl (sweep-some (ring start st) k e))
    | inl e ↦
        let (marked, cleared) = sweep-none (ring start st) e in
        let st' = (sweep_round start st).1 in
        let same = length-sweep_round start st in
        let h' : start ≤ length st' = omega arith in
        let e' : (sweep (ring start st')).0 ≡ some 0 =
          rw ((sweep_round-ring start st h).1, cleared)
            (sweep_cleared_pos (ring start st) (omega (arith, length-ring start st h))) in
        let (n, found) = found_on_ring start st' 0 h' e' in
        (
          0,
          n,
          second_round start st (not_found_on_ring start st h e)
              ∙ found
              ∙ ap (λ (size : ℕ). some (ring_slot start size 0, n)) same,
          inr (refl, marked),
        )
  ]

  -- For a cache that is not empty and whose cursor lies within the storage, evict always returns a
  -- slot: that of the first element on the ring from the cursor whose mark is clear, or the slot
  -- under the cursor when every element is marked.
  pub evict-clock :
      (c : Cache K V)
      → c.next ≤ length c.storage
      → 0 < length c.storage
      → (k : ℕ) × ((evict c).0 ≡ some (ring_slot c.next (length c.storage) k))
        × IsVictim k (ring c.next c.storage)
  unfolding evict
  evict-clock c h pos =
      let (k, n, found, victim) = sweep_twice-clock c.next c.storage h pos in
      (k, ground arith, victim)

  -- `evict` keeps every key and value, and the cursor stays inside the storage.
  pub evict_keeps :
      (c : Cache K V)
      → c.next ≤ length c.storage
      → (map entry (evict c).1.storage ≡ map entry c.storage)
        × ((evict c).1.elements ≡ c.elements)
        × ((evict c).1.capacity ≡ c.capacity)
        × ((evict c).1.next ≤ length c.storage)
  unfolding evict
  evict_keeps c h =
      ground (arith, entries-sweep_twice c.next c.storage, sweep_twice-Below c.next c.storage h)

  pub evict_inside :
      (c : Cache K V) (i : ℕ)
      → c.next ≤ length c.storage
      → (evict c).0 ≡ some i
      → i < length c.storage
  unfolding evict
  evict_inside c i h found = ground (arith, sweep_twice-Below c.next c.storage h)

  -- When the part of the storage from the cursor on has an unmarked element, the first one being k
  -- places after the cursor, evict frees that slot and sets the cursor to k + 1.
  pub evict_cursor :
      (c : Cache K V) (k : ℕ)
      → (sweep (drop c.next c.storage)).0 ≡ some k
      → ((evict c).0 ≡ some (c.next + k)) × ((evict c).1.next ≡ k + 1)
  unfolding evict sweep_twice sweep_round
  evict_cursor c k h = ground arith
