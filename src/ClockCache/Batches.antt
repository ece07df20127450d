-- ===== src/ClockCache/Batches.antt =====
-- `WithMax` and `InsertBatch` (pkg/clockcache/cache.go).

use timescale_prometheus.Prelude.Dict
use timescale_prometheus.Prelude.{
  ℕ, ◌<◌, ◌≡◌, refl, sym, ap, ap₂, ◌∙◌, inl, inr, if_pos, true, none, some, List, [], ◌∷◌, arith,
  length, Option-cases,
}
use timescale_prometheus.ClockCache.{Cache, with_max, insert, insert_all}
use timescale_prometheus.ClockCache.Contents.{
  contents, IsValid, IsValid-SameButMarks, contents-SameButMarks,
}
use timescale_prometheus.ClockCache.Access.{insert_hit}
use timescale_prometheus.ClockCache.Inserts.{insert_new}

module _ {K V : Type 0} (dec : Discrete K) where
  -- A new cache maps no key.
  pub with_max-IsValid :
      (max : ℕ)
      → IsValid dec (with_max {K = K} {V = V} max)
        × ((q : K) → contents dec (with_max {K = K} {V = V} max) q ≡ none)
  unfolding with_max Dict.lookup
  with_max-IsValid max = (
    record {
      bounded = omega arith;
      cursor = omega arith;
      pointers = λ key i. (λ h. absurd (ground arith), λ h. absurd (ground arith));
    },
    λ q. refl,
  )

  -- What every insert into a cache with room leaves: a valid cache of the same capacity that maps the
  -- key to the returned value.
  pub insert_stores :
      (c : Cache K V) (key : K) (value : V)
      → IsValid dec c
      → 0 < c.capacity
      → IsValid dec (insert dec c key value).3
        × ((insert dec c key value).3.capacity ≡ c.capacity)
        × ((insert dec c key value).2 ≡ true)
        × ((insert dec c key value).0 ≡ key)
        × (contents dec (insert dec c key value).3 key ≡ some (insert dec c key value).1)
  insert_stores c key value v pos = elim (Option-cases (contents dec c key)) [
    | inr (w, present) ↦
        let (same_key, same_value, ok, marks, next) = insert_hit dec c key value w v present in
        let c' = (insert dec c key value).3 in
        (
          IsValid-SameButMarks dec c c' marks (omega (arith, v.cursor)) v,
          marks.same_capacity,
          ok,
          same_key,
          contents-SameButMarks dec c c' key marks ∙ present ∙ ap some (sym same_value),
        )
    | inl absent ↦
        let (lost, r) = insert_new dec c key value v pos absent in
        (
          r.valid,
          r.same_capacity,
          r.succeeds,
          r.same_key,
          r.maps key ∙ if_pos (dec key key) refl _ _ ∙ ap some (sym r.same_value),
        )
  ]

  pub insert_all_keeps :
      (c : Cache K V) (ks : List K) (vs : List V)
      → IsValid dec c
      → 0 < c.capacity
      → length ks ≡ length vs
      → ((insert_all dec c ks vs).0 ≡ length ks)
        × ((insert_all dec c ks vs).1 ≡ ks)
        × IsValid dec (insert_all dec c ks vs).3
        × ((insert_all dec c ks vs).3.capacity ≡ c.capacity)
  unfolding insert_all
  insert_all_keeps c [] vs v pos same = (refl, refl, v, refl)
  insert_all_keeps c (k ∷ ks) [] v pos same = absurd (omega arith)
  insert_all_keeps c (k ∷ ks) (w ∷ ws) v pos same =
      let (v', cap, ok, same_key, _) = insert_stores c k w v pos in
      let (n, keys, v'', cap') =
        insert_all_keeps (insert dec c k w).3 ks ws v' (omega arith) (omega arith) in
      rw (ok, insert_all) (omega arith, ap₂ (◌∷◌) same_key keys, v'', cap' ∙ cap)
