-- ===== src/ClockCache/Reads.antt =====
-- `GetValues` (pkg/clockcache/cache.go): the keys that are found are moved to the front with their
-- values, and the others behind them.

use mathlib.Core.List.{Perm}
use mathlib.Core.List.Perm
use timescale_prometheus.Prelude.{
  ℕ, zero, suc, ◌+◌, ◌-◌, ◌≤◌, ◌<◌, ◌≡◌, refl, sym, ◌∙◌, inl, inr, none, some, List, arith, ltb,
  length, get_elem?, set, Option-cases, Bool-cases, length-set, get_elem?_of_lt, get_elem?_of_le,
  ℕ_discrete,
}
use timescale_prometheus.ClockCache.{Cache, get, swap_keys, Scan, scan_step, scan_loop, get_values}
use timescale_prometheus.ClockCache.Contents.{
  contents, IsValid, SameButMarks, contents-SameButMarks,
}
use timescale_prometheus.ClockCache.Access.{get-contents, get-SameButMarks}
use timescale_prometheus.ClockCache.Pointers.{get_elem?-set}
use timescale_prometheus.ClockCache.Swaps.{swapped, get_elem?-swapped, swap_keys-perm}

SameButMarks-trans :
    {K V : Type 0} {a b c : Cache K V} → SameButMarks a b → SameButMarks b c → SameButMarks a c
SameButMarks-trans p q = record {
  same_elements = q.same_elements ∙ p.same_elements;
  same_entries = q.same_entries ∙ p.same_entries;
  same_capacity = q.same_capacity ∙ p.same_capacity;
}

module _ {K V : Type 0} (dec : Discrete K) (c : Cache K V) (keys : List K) where
  -- Position `j` holds a key of the cache with its value.
  abbrev pub IsFound : List K → List V → ℕ → Type 0
  IsFound ks vs j =
      (key : K) × (v : V) × (get_elem? ks j ≡ some key)
      × (get_elem? vs j ≡ some v)
      × (contents dec c key ≡ some v)

  -- Position `j`, if there is one, holds a key that is not in the cache.
  abbrev pub IsMissing : List K → ℕ → Type 0
  IsMissing ks j = (key : K) → get_elem? ks j ≡ some key → contents dec c key ≡ none

  pub record ScanInv (s : Scan K V) : Type 0 where
    pub ordered : s.idx ≤ s.n
    pub inside : s.n ≤ length s.keys
    pub same_length : length s.values_out ≡ length s.keys
    pub marks : SameButMarks c s.cache
    pub valid : IsValid dec s.cache
    pub permuted : Perm s.keys keys
    pub found : (j : ℕ) → j < s.idx → IsFound s.keys s.values_out j
    pub missing : (j : ℕ) → s.n ≤ j → IsMissing s.keys j

  module _ (s : Scan K V) (inv : ScanInv s) (key : K) (more : s.idx < s.n)
      (at_idx : get_elem? s.keys s.idx ≡ some key) where
    cache_marks : SameButMarks c (get dec s.cache key).1
    cache_marks = SameButMarks-trans inv.marks (get-SameButMarks dec s.cache key)

    step_missing :
        contents dec c key ≡ none
        → ScanInv (record s {
          keys = swap_keys s.keys (s.n - 1) s.idx;
          n = s.n - 1;
          cache = (get dec s.cache key).1;
        })
    step_missing absent =
        let (last, at_last) = get_elem?_of_lt s.keys (s.n - 1) (omega (arith, inv.inside)) in
        let at = λ (j : ℕ).
          get_elem?-swapped s.keys (s.n - 1) s.idx j last key (omega (arith, inv.inside))
            (omega (arith, inv.inside)) in
        let same = swapped s.keys (s.n - 1) s.idx last key at_last at_idx in
        let size : length (swap_keys s.keys (s.n - 1) s.idx) ≡ length s.keys =
          rw (same, length-set (set s.keys (s.n - 1) key) s.idx last)
            (length-set s.keys (s.n - 1) key) in
        record {
          ordered = omega arith;
          inside = omega (arith, inv.inside);
          same_length = inv.same_length ∙ sym size;
          marks = cache_marks;
          valid = (get-contents dec s.cache key inv.valid).2;
          permuted = Perm.trans (swap_keys-perm s.keys (s.n - 1) s.idx) inv.permuted;
          found = λ j h.
              let (k, v, at_k, at_v, holds) = inv.found j h in
              (k, v, rw same (ground (arith, at j)), at_v, holds);
          missing = λ j h k at_k.
              let at_k' : get_elem? (set (set s.keys (s.n - 1) key) s.idx last) j ≡ some k =
                rw same at at_k in
              elim (ℕ_discrete (s.n - 1) j) [
                | yes here ↦ let e : k ≡ key = ground (arith, at j, at_last) in rw e absent
                | no other ↦ inv.missing j (omega arith) k (ground (arith, at j))
              ];
        }

    step_found :
        (v : V)
        → contents dec c key ≡ some v
        → ScanInv (record s {
          values_out = set s.values_out s.idx v;
          idx = s.idx + 1;
          cache = (get dec s.cache key).1;
        })
    step_found v present =
        let at = λ (j : ℕ).
          get_elem?-set s.values_out s.idx j v (omega (arith, inv.inside, inv.same_length)) in
        record {
          ordered = omega arith;
          inside = inv.inside;
          same_length = length-set s.values_out s.idx v ∙ inv.same_length;
          marks = cache_marks;
          valid = (get-contents dec s.cache key inv.valid).2;
          permuted = inv.permuted;
          found = λ j h. elim (ℕ_discrete s.idx j) [
            | yes here ↦ (key, v, ground arith, ground (arith, at j), present)
            | no other ↦
                let (k, w, at_k, at_w, holds) = inv.found j (omega arith) in
                (k, w, at_k, ground (arith, at j), holds)
          ];
          missing = inv.missing;
        }

  scan_step-Inv :
      (s : Scan K V) (key : K)
      → ScanInv s
      → s.idx < s.n
      → get_elem? s.keys s.idx ≡ some key
      → ScanInv (scan_step dec s key)
        × ((scan_step dec s key).n - (scan_step dec s key).idx < s.n - s.idx)
  unfolding scan_step
  scan_step-Inv s key inv more at_idx =
      let (value, _, _) = get-contents dec s.cache key inv.valid in
      let value' = value ∙ contents-SameButMarks dec c s.cache key inv.marks in
      elim (Option-cases (contents dec c key)) [
        | inl absent ↦
            let e = value' ∙ absent in
            rw (e, scan_step) (step_missing s inv key more at_idx absent, omega arith)
        | inr (v, present) ↦
            let e = value' ∙ present in
            rw (e, scan_step) (step_found s inv key more at_idx v present, omega arith)
      ]

  scan_loop-Inv :
      (fuel : ℕ) (s : Scan K V)
      → ScanInv s
      → s.n - s.idx ≤ fuel
      → ScanInv (scan_loop dec fuel s) × ((scan_loop dec fuel s).idx ≡ (scan_loop dec fuel s).n)
  unfolding scan_loop
  scan_loop-Inv zero s inv enough = (inv, omega (arith, inv.ordered))
  scan_loop-Inv (suc fuel) s inv enough = elim (Bool-cases (ltb s.idx s.n)) [
    | inl more ↦
        let below : s.idx < s.n = ground arith in
        let (key, at_idx) = get_elem?_of_lt s.keys s.idx (omega (arith, inv.inside)) in
        let (kept, smaller) = scan_step-Inv s key inv below at_idx in
        rw (more, scan_loop, at_idx) (scan_loop-Inv fuel (scan_step dec s key) kept (omega arith))
    | inr done ↦ rw (done, scan_loop) (inv, ground (arith, inv.ordered))
  ]

  -- What `GetValues` returns: the `n` first keys are found, with their values, and the others are
  -- not in the cache.
  pub record Answered (r : ℕ × List K × List V × Cache K V) : Type 0 where
    pub inside : r.0 ≤ length r.1
    pub same_length : length r.2 ≡ length r.1
    pub permuted : Perm r.1 keys
    pub found : (j : ℕ) → j < r.0 → IsFound r.1 r.2 j
    pub missing : (j : ℕ) → r.0 ≤ j → IsMissing r.1 j
    pub marks : SameButMarks c r.3
    pub valid : IsValid dec r.3

  -- For a valid cache and slices of one length, GetValues returns a number n and the keys in some
  -- order such that the first n positions hold keys of the cache with their values and the others
  -- hold keys that are not in it; only marks change and the cache stays valid.
  pub get_values-Answered :
      (values_out : List V)
      → IsValid dec c
      → length keys ≡ length values_out
      → (r : ℕ × List K × List V × Cache K V) × (get_values dec c keys values_out ≡ some r)
        × Answered r
  unfolding get_values
  get_values-Answered values_out v same =
      let s : Scan K V = record {
        keys = keys;
        values_out = values_out;
        idx = 0;
        n = length keys;
        cache = c;
      } in
      let start : ScanInv s = record {
        ordered = omega arith;
        inside = omega arith;
        same_length = sym same;
        marks = record { same_elements = refl; same_entries = refl; same_capacity = refl };
        valid = v;
        permuted = Perm.refl keys;
        found = λ j h. absurd (omega arith);
        missing = λ j h k at. absurd (ground (arith, get_elem?_of_le keys j h));
      } in
      let (inv, ended) = scan_loop-Inv (length keys) s start (omega arith) in
      let t = scan_loop dec (length keys) s in
      (
        (t.n, t.keys, t.values_out, t.cache),
        ground arith,
        record {
          inside = inv.inside;
          same_length = inv.same_length;
          permuted = inv.permuted;
          found = λ j h. inv.found j (omega arith);
          missing = inv.missing;
          marks = inv.marks;
          valid = inv.valid;
        },
      )
