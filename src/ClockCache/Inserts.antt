-- ===== src/ClockCache/Inserts.antt =====
-- An insert of a key that is not in the cache (pkg/clockcache/cache.go): what it maps afterwards.

use mathlib.Core.List.{map-append}
use timescale_prometheus.Prelude.Dict
use timescale_prometheus.Prelude.Dict.{lookup-insert, lookup-delete}
use timescale_prometheus.Prelude.{
  ℕ, ◌≤◌, ◌<◌, ◌≡◌, refl, ◌∙◌, ◌≢◌, inl, inr, ite, Bool, true, Option, none, some, [], ◌∷◌, ◌++◌,
  arith, ltb, length, get_elem?, set, map, Option-cases, Bool-cases, length-append, length-map,
  length-set, get_elem?_of_lt,
}
use timescale_prometheus.ClockCache.{Element, Cache, fresh, find, evict, insert, insert_missing}
use mathlib.Core.Path.{fun_ext}
use timescale_prometheus.ClockCache.Sweep.{entry, ring_slot}
use timescale_prometheus.ClockCache.Evict.{evict_keeps, evict-clock, evict_inside}
use timescale_prometheus.ClockCache.Contents.{
  entries, entries-set, key_at, contents, find-contents, IsValid, SameButMarks,
  IsValid-SameButMarks, contents-SameButMarks, length-SameButMarks, get_elem?-map,
}
use timescale_prometheus.ClockCache.Pointers.{
  contents_of-grow, Pointers-grow, contents_of-replace, Pointers-replace,
}

module _ {K V : Type 0} (dec : Discrete K) where
  absent :
      (c : Cache K V) (key : K)
      → IsValid dec c
      → contents dec c key ≡ none
      → Dict.lookup dec key c.elements ≡ none
  absent c key v h = elim (Option-cases (Dict.lookup dec key c.elements)) [
    | inl e ↦ e
    | inr (i, e) ↦ absurd (ground (arith, (v.pointers key i).0 e))
  ]

  not_found : (c : Cache K V) (key : K) → contents dec c key ≡ none → find dec c key ≡ none
  not_found c key h = ground (arith, find-contents dec c key)

  -- The map without the key that was lost, if one was.
  abbrev pub forget : Option K → (K → Option V) → K → Option V
  forget none f q = f q
  forget (some old) f q = ite (dec old q) none (f q)

  -- A key is lost only by a full cache, and it is one that the cache held.
  abbrev pub IsLoss : Cache K V → Option K → Type 0
  IsLoss c none = length c.storage < c.capacity
  IsLoss c (some old) = (length c.storage ≡ c.capacity) × (contents dec c old ≢ none)

  -- What an insert of a new key returns and leaves.
  pub record Inserted (c : Cache K V) (key : K) (value : V) (lost : Option K)
      (r : K × V × Bool × Cache K V) : Type 0 where
    pub same_key : r.0 ≡ key
    pub same_value : r.1 ≡ value
    pub succeeds : r.2 ≡ true
    pub valid : IsValid dec r.3
    pub same_capacity : r.3.capacity ≡ c.capacity
    pub loss : IsLoss c lost
    pub maps :
        (q : K) → contents dec r.3 q ≡ ite (dec key q) (some value) (forget lost (contents dec c) q)

  entries-snoc :
      (c : Cache K V) (e : Element K V)
      → map entry (c.storage ++ e ∷ []) ≡ entries c ++ entry e ∷ []
  entries-snoc c e = map-append entry c.storage (e ∷ [])

  -- The state after an insert into a new slot, and into the slot `i`.
  abbrev grown : Cache K V → K → V → Cache K V
  grown c key value = record c {
    elements = Dict.insert dec key (length c.storage) c.elements;
    storage = c.storage ++ fresh key value ∷ [];
  }

  abbrev replaced : Cache K V → ℕ → K → K → V → Cache K V
  replaced c i old key value = record c {
    elements = Dict.insert dec key i (Dict.delete dec old c.elements);
    storage = set c.storage i (fresh key value);
  }

  insert-grown :
      (c : Cache K V) (key : K) (value : V)
      → find dec c key ≡ none
      → length c.storage < c.capacity
      → insert dec c key value ≡ (key, value, true, grown c key value)
  unfolding insert insert_missing
  insert-grown c key value absent room = ground arith

  insert-replaced :
      (c : Cache K V) (key : K) (value : V) (i : ℕ) (old : Element K V)
      → find dec c key ≡ none
      → c.capacity ≤ length c.storage
      → (evict c).0 ≡ some i
      → get_elem? (evict c).1.storage i ≡ some old
      → insert dec c key value ≡ (key, value, true, replaced (evict c).1 i old.key key value)
  unfolding insert insert_missing
  insert-replaced c key value i old missing full found slot = ground arith

  insert_grows :
      (c : Cache K V) (key : K) (value : V)
      → IsValid dec c
      → contents dec c key ≡ none
      → length c.storage < c.capacity
      → Inserted c key value none (insert dec c key value)
  insert_grows c key value v h room =
      let missing = absent c key v h in
      let size : length (entries c) ≡ length c.storage = length-map entry c.storage in
      let snoc = entries-snoc c (fresh key value) in
      rw (insert-grown c key value (not_found c key h) room) (record {
        same_key = refl;
        same_value = refl;
        succeeds = refl;
        valid = record {
          bounded = omega (arith, length-append c.storage (fresh key value ∷ []));
          cursor = omega (arith, length-append c.storage (fresh key value ∷ []), v.cursor);
          pointers =
              rw (snoc, ← size)
                (Pointers-grow dec c.elements (entries c) v.pointers key value missing);
        };
        same_capacity = refl;
        loss = room;
        maps =
            rw (snoc, ← size)
              (contents_of-grow dec c.elements (entries c) v.pointers key value missing);
      })

  -- What `evict` leaves has the same entries and the same contents.
  evicted : (c : Cache K V) → IsValid dec c → SameButMarks c (evict c).1 × IsValid dec (evict c).1
  evicted c v =
      let (kept, same_elements, same_capacity, cursor) = evict_keeps c v.cursor in
      let same : SameButMarks c (evict c).1 = record {
        same_elements = same_elements;
        same_entries = kept;
        same_capacity = same_capacity;
      } in
      (same, IsValid-SameButMarks dec c (evict c).1 same cursor v)

  held_not-none :
      (c : Cache K V) (i : ℕ) (e : Element K V)
      → IsValid dec c
      → get_elem? c.storage i ≡ some e
      → (key_at (entries c) i ≡ some e.key) × (contents dec c e.key ≢ none)
  held_not-none c i e v slot =
      let at_i = get_elem?-map c.storage i in
      let key_there : key_at (entries c) i ≡ some e.key = ground (arith, at_i) in
      (key_there, λ none_there. ground (arith, at_i, (v.pointers e.key i).1 key_there))

  insert_replaces :
      (c : Cache K V) (key : K) (value : V) (i : ℕ)
      → IsValid dec c
      → contents dec c key ≡ none
      → c.capacity ≤ length c.storage
      → (evict c).0 ≡ some i
      → i < length c.storage
      → (old : K) × Inserted c key value (some old) (insert dec c key value)
  insert_replaces c key value i v h full found inside =
      let (same, v') = evicted c v in
      let c' = (evict c).1 in
      let size = length-SameButMarks dec c c' same in
      let (old, slot) = get_elem?_of_lt c'.storage i (omega arith) in
      let (key_there, held) = held_not-none c' i old v' slot in
      let before = λ (q : K). contents-SameButMarks dec c c' q same in
      let missing = absent c' key v' (before key ∙ h) in
      let written = entries-set c'.storage i (fresh key value) in
      (
        old.key,
        rw (insert-replaced c key value i old (not_found c key h) full found slot) (record {
          same_key = refl;
          same_value = refl;
          succeeds = refl;
          valid = record {
            bounded = omega (arith, length-set c'.storage i (fresh key value), v'.bounded);
            cursor = omega (arith, length-set c'.storage i (fresh key value), v'.cursor);
            pointers = rw written (
                Pointers-replace dec c'.elements (entries c') v'.pointers key value missing i
                  old.key key_there);
          };
          same_capacity = same.same_capacity;
          loss = (omega (arith, v.bounded), λ e. held (before old.key ∙ e));
          maps =
              rw (written, ← (fun_ext before))
                (contents_of-replace dec c'.elements (entries c') v'.pointers key value missing i
                  old.key key_there);
        }),
      )

  -- For a valid cache of positive capacity and a key that it does not map, insert succeeds and
  -- returns the key and value given; the cache stays valid with the same capacity, maps the key to
  -- the value, and loses no other key, except, if it was full, one that it held.
  pub insert_new :
      (c : Cache K V) (key : K) (value : V)
      → IsValid dec c
      → 0 < c.capacity
      → contents dec c key ≡ none
      → (lost : Option K) × Inserted c key value lost (insert dec c key value)
  insert_new c key value v pos h = elim (Bool-cases (ltb (length c.storage) c.capacity)) [
    | inl room ↦ (none, insert_grows c key value v h (ground arith))
    | inr full ↦
        let (k, found, _) = evict-clock c v.cursor (ground (arith, v.bounded)) in
        let (old, done) =
          insert_replaces c key value (ring_slot c.next (length c.storage) k) v h (ground arith)
            found (evict_inside c (ring_slot c.next (length c.storage) k) v.cursor found) in
        (some old, done)
  ]
