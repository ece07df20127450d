-- ===== src/ClockCache/Expand.antt =====
-- `ExpandTo` (pkg/clockcache/cache.go).

use timescale_prometheus.Prelude.Dict
use timescale_prometheus.Prelude.Dict.{lookup-insert}
use timescale_prometheus.Prelude.{
  ℕ, zero, suc, ◌+◌, ◌≡◌, refl, sym, ap, ◌∙◌, ◌≢◌, inl, inr, if_pos, if_neg, none, some, List, [],
  ◌∷◌, arith, leb, if◌then◌else◌, map, Option-cases, Bool-cases,
}
use timescale_prometheus.ClockCache.{Element, Cache, index_storage, expand_to}
use timescale_prometheus.ClockCache.Sweep.{entry}
use timescale_prometheus.ClockCache.Contents.{contents, entries, key_at, value_at, IsValid}

module _ {K V : Type 0} (dec : Discrete K) where
  index_absent :
      (i : ℕ) (st : List (Element K V)) (m : List (K × ℕ)) (key : K)
      → ((j : ℕ) → key_at (map entry st) j ≢ some key)
      → Dict.lookup dec key (index_storage dec i st m) ≡ Dict.lookup dec key m
  unfolding index_storage
  index_absent i [] m key none_at = refl
  index_absent i (e ∷ es) m key none_at =
      index_absent (suc i) es (Dict.insert dec e.key i m) key (λ j. none_at (suc j))
      ∙ lookup-insert dec e.key key i m
      ∙ if_neg (dec e.key key) (λ same. none_at 0 (ap some same)) _ _

  index_present :
      (i j : ℕ) (st : List (Element K V)) (m : List (K × ℕ)) (key : K)
      → key_at (map entry st) j ≡ some key
      → ((a : ℕ) → key_at (map entry st) a ≡ some key → a ≡ j)
      → Dict.lookup dec key (index_storage dec i st m) ≡ some (i + j)
  unfolding index_storage
  index_present i j [] m key at_j only = absurd (ground arith)
  index_present i zero (e ∷ es) m key at_j only =
      index_absent (suc i) es (Dict.insert dec e.key i m) key
        (λ a h. absurd (omega (arith, only (suc a) h)))
      ∙ lookup-insert dec e.key key i m
      ∙ if_pos (dec e.key key) (ground arith) _ _
      ∙ ap some (omega arith)
  index_present i (suc j) (e ∷ es) m key at_j only =
      index_present (suc i) j es (Dict.insert dec e.key i m) key at_j
        (λ a h. omega (arith, only (suc a) h))
      ∙ ap some (omega arith)

  -- The new map of pointers agrees with the old one.
  reindexed :
      (c : Cache K V) (key : K)
      → IsValid dec c
      → Dict.lookup dec key (index_storage dec 0 c.storage []) ≡ Dict.lookup dec key c.elements
  unfolding Dict.lookup
  reindexed c key v = elim (Option-cases (Dict.lookup dec key c.elements)) [
    | inl e ↦
        index_absent 0 c.storage [] key (λ j h. absurd (ground (arith, (v.pointers key j).1 h)))
        ∙ sym e
    | inr (j, e) ↦
        index_present 0 j c.storage [] key ((v.pointers key j).0 e)
          (λ a h. ground (arith, (v.pointers key a).1 h))
        ∙ ap some (omega arith)
        ∙ sym e
  ]

  -- For a valid cache, ExpandTo leaves a valid cache with the greater of the two capacities, the
  -- same storage, and every key mapped as before.
  pub expand_to_keeps :
      (c : Cache K V) (new_max : ℕ)
      → IsValid dec c
      → IsValid dec (expand_to dec c new_max)
        × ((expand_to dec c new_max).capacity
            ≡ (if leb new_max c.capacity then c.capacity else new_max))
        × ((expand_to dec c new_max).storage ≡ c.storage)
        × ((q : K) → contents dec (expand_to dec c new_max) q ≡ contents dec c q)
  unfolding expand_to
  expand_to_keeps c new_max v = elim (Bool-cases (leb new_max c.capacity)) [
    | inl small ↦ rw (small, expand_to) (v, refl, refl, λ q. refl)
    | inr large ↦
        rw (large, expand_to)
          (
            record {
              bounded = ground (arith, v.bounded);
              cursor = v.cursor;
              pointers = λ key i. rw (reindexed c key v) (v.pointers key i);
            },
            refl,
            refl,
            λ q.
                ap (λ o. elim o [ none ↦ none | some i ↦ value_at (entries c) i ])
                  (reindexed c q v),
          )
  ]
