-- ===== src/Tests/ClockCacheTests.antt =====
-- Runs and instances for pkg/clockcache/cache.go.
use mathlib.Core.Option
use timescale_prometheus.Prelude.{ℕ, ◌≡◌, refl, Bool, Option, some, List, [], ◌∷◌, arith, length}
use timescale_prometheus.Prelude.{ℕ_discrete}
use timescale_prometheus.Prelude.Dict
use timescale_prometheus.ClockCache.{
  Cache, with_max, sweep, sweep_round, sweep_twice, evict, insert_missing, find, insert,
  insert_batch, get, get_values, scan_loop, scan_step, swap_keys,
}
use timescale_prometheus.ClockCache.Sweep.{ring, ring_slot}
use timescale_prometheus.ClockCache.Evict.{evict-clock, IsVictim}
use timescale_prometheus.ClockCache.Contents.{IsValid}
use timescale_prometheus.ClockCache.Access.{get-contents}
use timescale_prometheus.ClockCache.Inserts.{insert_new, Inserted}
use timescale_prometheus.ClockCache.Reads.{get_values-Answered, Answered}
use timescale_prometheus.ClockCache.Batches.{with_max-IsValid, insert_stores}
use timescale_prometheus.ClockCache.Filling.{IsFilled, insert_batch_total}

abbrev Store : Type 0
Store = Cache ℕ ℕ

abbrev empty_two : Store
empty_two = with_max 2

abbrev with_one : Store
with_one = (insert ℕ_discrete empty_two 1 10).3

abbrev with_two : Store
with_two = (insert ℕ_discrete with_one 2 20).3

empty_two-IsValid : IsValid ℕ_discrete empty_two
empty_two-IsValid = (with_max-IsValid ℕ_discrete 2).0

with_one-IsValid : IsValid ℕ_discrete with_one
unfolding with_max
with_one-IsValid = (insert_stores ℕ_discrete empty_two 1 10 empty_two-IsValid (omega arith)).0

-- What the runs compute with.
runs : Store → ℕ → ℕ → ℕ × ℕ × Bool × Store
unfolding with_max sweep sweep_round sweep_twice evict insert_missing find insert get Dict.lookup
    Dict.insert Dict.delete ℕ_discrete scan_loop scan_step swap_keys get_values
runs = insert ℕ_discrete

with_two-IsValid : IsValid ℕ_discrete with_two
unfolding runs
with_two-IsValid = (insert_stores ℕ_discrete with_one 2 20 with_one-IsValid (omega arith)).0

fills : with_two ≡ record {
  elements = (2, 1) ∷ (1, 0) ∷ [];
  storage =
      record { key = 1; value = 10; used = 0 } ∷ record { key = 2; value = 20; used = 0 } ∷ [];
  capacity = 2;
  next = 0;
}
unfolding runs
fills = refl

-- Key 1 has been read since, so key 2 makes room for key 3.
abbrev read_one : Store
read_one = (get ℕ_discrete with_two 1).1

replaces : (insert ℕ_discrete read_one 3 30).3 ≡ record {
  elements = (3, 1) ∷ (1, 0) ∷ [];
  storage =
      record { key = 1; value = 10; used = 0 } ∷ record { key = 3; value = 30; used = 0 } ∷ [];
  capacity = 2;
  next = 2;
}
unfolding runs
replaces = refl

read_one-IsValid : IsValid ℕ_discrete read_one
read_one-IsValid = (get-contents ℕ_discrete with_two 1 with_two-IsValid).2

evict-clock_example :
    (k : ℕ) × ((evict read_one).0 ≡ some (ring_slot read_one.next (length read_one.storage) k))
    × IsVictim k (ring read_one.next read_one.storage)
unfolding runs
evict-clock_example = evict-clock read_one (omega arith) (omega arith)

insert_new_example :
    (lost : Option ℕ) × Inserted ℕ_discrete read_one 3 30 lost (insert ℕ_discrete read_one 3 30)
unfolding runs
insert_new_example = insert_new ℕ_discrete read_one 3 30 read_one-IsValid (omega arith) refl

-- Key 7 is missing: it ends up behind the others.
reads :
    Option.map {B = ℕ × List ℕ × List ℕ}
      (λ r. (r.0, r.1, r.2))
      (get_values ℕ_discrete with_two (7 ∷ 1 ∷ 2 ∷ []) (0 ∷ 0 ∷ 0 ∷ []))
    ≡ some (2, 2 ∷ 1 ∷ 7 ∷ [], 20 ∷ 10 ∷ 0 ∷ [])
unfolding runs
reads = refl

get_values-Answered_example :
    (r : ℕ × List ℕ × List ℕ × Store) × (get_values ℕ_discrete with_two
        (7 ∷ 1 ∷ 2 ∷ [])
        (0 ∷ 0 ∷ 0 ∷ [])
      ≡ some r)
    × Answered ℕ_discrete with_two (7 ∷ 1 ∷ 2 ∷ []) r
get_values-Answered_example =
    get_values-Answered ℕ_discrete with_two (7 ∷ 1 ∷ 2 ∷ []) (0 ∷ 0 ∷ 0 ∷ []) with_two-IsValid refl

insert_batch_total_example :
    (values' : List ℕ) × (c' : Store) × (insert_batch ℕ_discrete with_one
        (5 ∷ 1 ∷ 6 ∷ [])
        (50 ∷ 11 ∷ 60 ∷ [])
      ≡ some (3, 5 ∷ 1 ∷ 6 ∷ [], values', c'))
    × IsFilled ℕ_discrete with_one (5 ∷ 1 ∷ 6 ∷ []) (50 ∷ 11 ∷ 60 ∷ []) values' c'
unfolding runs
insert_batch_total_example =
    insert_batch_total ℕ_discrete with_one (5 ∷ 1 ∷ 6 ∷ []) (50 ∷ 11 ∷ 60 ∷ []) with_one-IsValid
      (omega arith) refl
