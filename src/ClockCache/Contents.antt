-- ===== src/ClockCache/Contents.antt =====
-- The map from keys to values that a cache stands for, and the invariant that ties the pointers of
-- `elements` to the slots of `storage` (pkg/clockcache/cache.go).
use mathlib.Core.Option
use timescale_prometheus.Prelude.Dict
use timescale_prometheus.Prelude.{
  ℕ, zero, suc, ◌≤◌, ◌≡◌, refl, sym, ap, ap₂, ◌∙◌, ◌↔◌, inl, inr, Option, none, some, List, [], ◌∷◌,
  arith, length, get_elem?, set, map, Option-cases, length-map,
}
use timescale_prometheus.ClockCache.{Element, Cache, find}
use timescale_prometheus.ClockCache.Sweep.{entry}

module _ {K V : Type 0} where
  abbrev pub entries : Cache K V → List (K × V)
  entries c = map entry c.storage

  -- The value at an index of the entries.
  abbrev pub value_at : List (K × V) → ℕ → Option V
  value_at es i = Option.map (λ e. e.1) (get_elem? es i)

  abbrev pub key_at : List (K × V) → ℕ → Option K
  key_at es i = Option.map (λ e. e.0) (get_elem? es i)

  pub get_elem?-map :
      (st : List (Element K V)) (i : ℕ)
      → get_elem? (map entry st) i ≡ Option.map entry (get_elem? st i)
  get_elem?-map [] i = refl
  get_elem?-map (e ∷ st) zero = refl
  get_elem?-map (e ∷ st) (suc i) = get_elem?-map st i

  -- To write a slot anew with its own key and value changes no entry.
  pub entries-set_same :
      (st : List (Element K V)) (i : ℕ) (e e' : Element K V)
      → get_elem? st i ≡ some e
      → entry e' ≡ entry e
      → map entry (set st i e') ≡ map entry st
  entries-set_same [] i e e' h same = refl
  entries-set_same (x ∷ st) zero e e' h same = ground arith
  entries-set_same (x ∷ st) (suc i) e e' h same =
      ap (◌∷◌ (entry x)) (entries-set_same st i e e' h same)

  pub entries-set :
      (st : List (Element K V)) (i : ℕ) (e : Element K V)
      → map entry (set st i e) ≡ set (map entry st) i (entry e)
  entries-set [] i e = refl
  entries-set (x ∷ st) zero e = refl
  entries-set (x ∷ st) (suc i) e = ap (◌∷◌ (entry x)) (entries-set st i e)

  -- What differs between two caches is the marks alone.
  pub record SameButMarks (c c' : Cache K V) : Type 0 where
    pub same_elements : c'.elements ≡ c.elements
    pub same_entries : entries c' ≡ entries c
    pub same_capacity : c'.capacity ≡ c.capacity

module _ {K V : Type 0} (dec : Discrete K) where
  abbrev pub contents_of : List (K × ℕ) → List (K × V) → K → Option V
  contents_of m es key = elim (Dict.lookup dec key m) [ none ↦ none | some i ↦ value_at es i ]

  -- What the cache maps a key to.
  abbrev pub contents : Cache K V → K → Option V
  contents c = contents_of c.elements (entries c)

  pub find-contents :
      (c : Cache K V) (key : K) → Option.map (λ s. s.1.value) (find dec c key) ≡ contents c key
  unfolding find
  find-contents c key = elim (Option-cases (Dict.lookup dec key c.elements)) [
    | inl e ↦ ground arith
    | inr (i, e) ↦ ground (arith, get_elem?-map c.storage i)
  ]

  -- The pointer of a key leads to the slot with that key, and every slot is pointed to.
  pub record IsValid (c : Cache K V) : Type 0 where
    pub bounded : length c.storage ≤ c.capacity
    pub cursor : c.next ≤ length c.storage
    pub pointers :
        (key : K) (i : ℕ)
        → (Dict.lookup dec key c.elements ≡ some i) ↔ (key_at (entries c) i ≡ some key)

  pub contents-SameButMarks :
      (c c' : Cache K V) (key : K) → SameButMarks c c' → contents c' key ≡ contents c key
  contents-SameButMarks c c' key h =
      ap₂ (λ m es. contents_of m es key) h.same_elements h.same_entries

  pub length-SameButMarks :
      (c c' : Cache K V) → SameButMarks c c' → length c'.storage ≡ length c.storage
  length-SameButMarks c c' h =
      sym (length-map entry c'.storage) ∙ ap length h.same_entries ∙ length-map entry c.storage

  pub IsValid-SameButMarks :
      (c c' : Cache K V) → SameButMarks c c' → c'.next ≤ length c.storage → IsValid c → IsValid c'
  IsValid-SameButMarks c c' h n v =
      let same = length-SameButMarks c c' h in
      record {
        bounded = omega (arith, v.bounded, h.same_capacity);
        cursor = omega arith;
        pointers = λ key i. rw (h.same_elements, h.same_entries) (v.pointers key i);
      }
