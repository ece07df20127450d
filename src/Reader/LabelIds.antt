-- ===== src/Reader/LabelIds.antt =====
-- pkg/pgmodel/sql_reader.go: the labels of a series by their ids.
use mathlib.Core.List.{Perm}
use mathlib.Core.List.Perm
use mathlib.Core.List
use mathlib.Core.Nat
use timescale_prometheus.Prelude.Bytes.{Bytes}
use timescale_prometheus.Prelude.Int.{ℤ, ℤ_discrete}
use timescale_prometheus.Labels.{Label}
use timescale_prometheus.ClockCache.Coherence.{Together}
use timescale_prometheus.Reader.{InfoRow, zip_labels}
use timescale_prometheus.Prelude.{ℕ, zero, suc, ◌≡◌, Option, some, List, [], ◌∷◌, length}

-- A number of the library as a native one.
abbrev native : Nat.ℕ → ℕ
native Nat.zero = 0
native (Nat.suc n) = suc (native n)

module _ (label_of : ℤ → Label) where
  -- The label goes with the id.
  unfoldable pub IsLabel : ℤ → Label → Type 0
  IsLabel id l = l ≡ label_of id

  -- The database answers ids with one row of them, in some order, with their labels.
  unfoldable pub IsServed : (List ℤ → Option (List InfoRow)) → Type 0
  IsServed query =
      (ids : List ℤ)
      → (row : InfoRow) × (query ids ≡ some (row ∷ []))
        × Perm row.ids ids
        × (length row.ids ≡ length ids)
        × (length row.keys ≡ length row.ids)
        × (length row.vals ≡ length row.keys)
        × Together ℤ_discrete IsLabel row.ids (zip_labels row.keys row.vals)
