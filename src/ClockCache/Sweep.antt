-- ===== src/ClockCache/Sweep.antt =====
-- What the loops of `evict` find and what they leave (pkg/clockcache/cache.go).
use mathlib.Core.Option
use timescale_prometheus.Prelude.{
  ℕ, zero, suc, ◌+◌, ◌-◌, ◌≤◌, ◌<◌, ◌≡◌, refl, sym, ap, ap₂, ◌∙◌, ◌≢◌, Option, none, some, List, [],
  ◌∷◌, ◌++◌, arith, ltb, if◌then◌else◌, length, get_elem?, take, drop, map, All, length-map,
  length-drop, length-take_of_le, take-append_length, drop-append_length,
}
use timescale_prometheus.ClockCache.{Element, clear, sweep, sweep_round}

map_zero-add : (o : Option ℕ) → Option.map (λ k. 0 + k) o ≡ o
map_zero-add none = refl
map_zero-add (some k) = ap some (omega arith)

-- The slot that stands `k` places after `start` on the ring of `size` slots.
abbrev pub ring_slot : ℕ → ℕ → ℕ → ℕ
ring_slot start size k = if ltb (start + k) size then start + k else start + k - size

-- An index that is found lies below the bound.
abbrev pub Below : ℕ → Option ℕ → Type 0
Below n none = Unit
Below n (some k) = k < n

module _ {K V : Type 0} where
  -- A pass over the storage changes no key and no value.
  abbrev pub entry : Element K V → K × V
  entry e = (e.key, e.value)

  abbrev pub IsMarked : Element K V → Type 0
  IsMarked e = e.used ≢ 0

  pub entries-sweep : (st : List (Element K V)) → map entry (sweep st).1 ≡ map entry st
  unfolding sweep
  entries-sweep [] = refl
  entries-sweep (e ∷ es) = ground (arith, entries-sweep es)

  pub sweep-Below : (st : List (Element K V)) → Below (length st) (sweep st).0
  unfolding sweep
  sweep-Below [] = tt
  sweep-Below (e ∷ es) = ground (arith, sweep-Below es)

  -- The victim is the first element whose flag was clear.
  pub sweep-some :
      (st : List (Element K V)) (k : ℕ)
      → (sweep st).0 ≡ some k
      → All IsMarked (take k st) × ((e : Element K V) × (get_elem? st k ≡ some e) × (e.used ≡ 0))
  unfolding sweep
  sweep-some [] k h = absurd (ground arith)
  sweep-some (e ∷ es) zero h = (tt, (e, refl, ground arith))
  sweep-some (e ∷ es) (suc k) h =
      let r = sweep-some es k (ground arith) in ((ground arith, r.0), r.1)

  pub sweep-none :
      (st : List (Element K V))
      → (sweep st).0 ≡ none
      → All IsMarked st × ((sweep st).1 ≡ map clear st)
  unfolding sweep
  sweep-none [] h = (tt, refl)
  sweep-none (e ∷ es) h = ground (arith, sweep-none es)

  -- After a pass that clears every flag the next pass stops at once.
  pub sweep_cleared :
      (e : Element K V) (es : List (Element K V)) → (sweep (map clear (e ∷ es))).0 ≡ some 0
  unfolding sweep
  sweep_cleared e es = ground arith

  -- A pass over two parts is a pass over the first and, if that finds nothing, one over the second.
  sweep-append :
      (xs ys : List (Element K V))
      → sweep (xs ++ ys) ≡ elim (sweep xs).0 [
        | some k ↦ (some k, (sweep xs).1 ++ ys)
        | none ↦ (Option.map (λ k. length xs + k) (sweep ys).0, (sweep xs).1 ++ (sweep ys).1)
      ]
  unfolding sweep
  sweep-append [] ys = ap (λ (o : Option ℕ). (o, (sweep ys).1)) (sym (map_zero-add (sweep ys).0))
  sweep-append (e ∷ es) ys = ground (arith, sweep-append es ys)

  pub length-sweep : (st : List (Element K V)) → length (sweep st).1 ≡ length st
  length-sweep st =
      sym (length-map entry (sweep st).1) ∙ ap length (entries-sweep st) ∙ length-map entry st

  -- The storage read as a ring from `start` on.
  abbrev pub ring : ℕ → List (Element K V) → List (Element K V)
  ring start st = drop start st ++ take start st

  ring-append :
      (start : ℕ) (xs ys : List (Element K V))
      → length xs ≡ start
      → ring start (xs ++ ys) ≡ ys ++ xs
  ring-append start xs ys h =
      ap₂ (◌++◌) (drop-append_length start xs ys h) (take-append_length start xs ys h)

  -- For a cursor within the storage, the two loops of one round of evict find the slot, and leave
  -- the marks, of a single walk round the ring from the cursor.
  pub sweep_round-ring :
      (start : ℕ) (st : List (Element K V))
      → start ≤ length st
      → (Option.map (λ found. found.0) (sweep_round start st).0
          ≡ Option.map (ring_slot start (length st)) (sweep (ring start st)).0)
        × (ring start (sweep_round start st).1 ≡ (sweep (ring start st)).1)
  unfolding sweep_round
  sweep_round-ring start st h =
      let a = drop start st in
      let b = take start st in
      ground (
        arith,
        sweep-append a b,
        sweep-Below a,
        sweep-Below b,
        length-drop start st,
        length-take_of_le start st h,
        length-sweep b,
        ring-append start b (sweep a).1,
        ring-append start (sweep b).1 (sweep a).1,
      )
