-- ===== src/ClockCache/Access.antt =====
-- `get`, `unmark` and the hit of `insert`: the operations that only touch the marks
-- (pkg/clockcache/cache.go).

use timescale_prometheus.Prelude.Dict
use timescale_prometheus.Prelude.{
  ℕ, zero, suc, ◌≤◌, ◌≡◌, refl, ap, inl, inr, true, some, List, [], ◌∷◌, arith, length, get_elem?,
  set, Option-cases,
}
use timescale_prometheus.ClockCache.{
  Element, Cache, clear, mark, keep_mark, find, get, unmark, insert,
}
use timescale_prometheus.ClockCache.Sweep.{entry}
use timescale_prometheus.ClockCache.Contents.{
  entries-set_same, get_elem?-map, SameButMarks, contents, find-contents, IsValid,
  IsValid-SameButMarks, contents-SameButMarks,
}

module _ {K V : Type 0} (dec : Discrete K) where
  -- The pointer of a found element leads to it.
  pub find-get_elem? :
      (c : Cache K V) (key : K) (i : ℕ) (e : Element K V)
      → find dec c key ≡ some (i, e)
      → (Dict.lookup dec key c.elements ≡ some i) × (get_elem? c.storage i ≡ some e)
  unfolding find
  find-get_elem? c key i e h = elim (Option-cases (Dict.lookup dec key c.elements)) [
    | inl a ↦ absurd (ground arith)
    | inr (j, a) ↦ ground arith
  ]

  -- To write a found element back with new marks changes nothing but the marks.
  touch-SameButMarks :
      (c : Cache K V) (key : K) (i : ℕ) (e e' : Element K V)
      → find dec c key ≡ some (i, e)
      → entry e' ≡ entry e
      → SameButMarks c (record c { storage = set c.storage i e' })
  touch-SameButMarks c key i e e' h same = record {
    same_elements = refl;
    same_entries = entries-set_same c.storage i e e' (find-get_elem? c key i e h).1 same;
    same_capacity = refl;
  }

  pub get-SameButMarks : (c : Cache K V) (key : K) → SameButMarks c (get dec c key).1
  unfolding get
  get-SameButMarks c key = elim (Option-cases (find dec c key)) [
    | inl e ↦ ground arith
    | inr ((i, e), h) ↦ ground (arith, touch-SameButMarks c key i e (mark e) h (ground arith))
  ]

  pub unmark-SameButMarks : (c : Cache K V) (key : K) → SameButMarks c (unmark dec c key).1
  unfolding unmark
  unmark-SameButMarks c key = elim (Option-cases (find dec c key)) [
    | inl e ↦ ground arith
    | inr ((i, e), h) ↦ ground (arith, touch-SameButMarks c key i e (clear e) h refl)
  ]

  get_value : (c : Cache K V) (key : K) → (get dec c key).0 ≡ contents dec c key
  unfolding get
  get_value c key = ground (arith, find-contents dec c key)

  get_next : (c : Cache K V) (key : K) → (get dec c key).1.next ≡ c.next
  unfolding get
  get_next c key = ground arith

  -- For a valid cache, get returns what the cache maps the key to, and afterwards every key is
  -- mapped as before and the cache is valid.
  pub get-contents :
      (c : Cache K V) (key : K)
      → IsValid dec c
      → ((get dec c key).0 ≡ contents dec c key)
        × ((q : K) → contents dec (get dec c key).1 q ≡ contents dec c q)
        × IsValid dec (get dec c key).1
  get-contents c key v =
      let c' = (get dec c key).1 in
      let same = get-SameButMarks c key in
      let cursor : c'.next ≤ length c.storage = omega (arith, get_next c key, v.cursor) in
      (
        get_value c key,
        λ q. contents-SameButMarks dec c c' q same,
        IsValid-SameButMarks dec c c' same cursor v,
      )

  -- A found element is found under its own key.
  pub find_key :
      (c : Cache K V) (key : K) (i : ℕ) (e : Element K V)
      → IsValid dec c
      → find dec c key ≡ some (i, e)
      → e.key ≡ key
  find_key c key i e v h =
      let (pointed, stored) = find-get_elem? c key i e h in
      ground (arith, get_elem?-map c.storage i, (v.pointers key i).0 pointed)

  insert_found :
      (c : Cache K V) (key : K) (value : V) (i : ℕ) (e : Element K V)
      → find dec c key ≡ some (i, e)
      → insert dec c key value
        ≡ (e.key, e.value, true, record c { storage = set c.storage i (keep_mark e) })
  unfolding insert
  insert_found c key value i e h = rw (h, insert)

  -- For a valid cache that maps the key, insert returns the key, the stored value and true; the
  -- pointers, the entries, the capacity and the cursor stay as they were.
  pub insert_hit :
      (c : Cache K V) (key : K) (value w : V)
      → IsValid dec c
      → contents dec c key ≡ some w
      → ((insert dec c key value).0 ≡ key)
        × ((insert dec c key value).1 ≡ w)
        × ((insert dec c key value).2 ≡ true)
        × SameButMarks c (insert dec c key value).3
        × ((insert dec c key value).3.next ≡ c.next)
  insert_hit c key value w v h = elim (Option-cases (find dec c key)) [
    | inl e ↦ absurd (ground (arith, find-contents dec c key))
    | inr ((i, e), found) ↦ rw (insert_found c key value i e found) (
      find_key c key i e v found,
      ground (arith, find-contents dec c key),
      refl,
      touch-SameButMarks c key i e (keep_mark e) found (ground arith),
      refl,
    )
  ]

  set_self :
      (st : List (Element K V)) (i : ℕ) (e : Element K V)
      → get_elem? st i ≡ some e
      → set st i e ≡ st
  set_self [] i e h = refl
  set_self (x ∷ st) zero e h = ground arith
  set_self (x ∷ st) (suc i) e h = ap (◌∷◌ x) (set_self st i e h)

  -- An insert of a key that is found in an element whose mark is 0 or 1 leaves the storage, marks
  -- included, exactly as it was.
  pub insert_hit_marks :
      (c : Cache K V) (key : K) (value : V) (i : ℕ) (e : Element K V)
      → find dec c key ≡ some (i, e)
      → e.used ≤ 1
      → (insert dec c key value).3.storage ≡ c.storage
  insert_hit_marks c key value i e h flag =
      let (pointed, stored) = find-get_elem? c key i e h in
      let same : keep_mark e ≡ e = ground arith in
      rw (insert_found c key value i e h, same) (set_self c.storage i e stored)
