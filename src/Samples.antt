-- ===== src/Samples.antt =====
-- pkg/pgmodel/sql_utils.go and pkg/pgmodel/ingestor.go: samples, the series that carry them, and the
-- iterator that lays the samples of many series out as rows. A float64 is a value of an abstract type
-- `F`.
pub mod Rows
use timescale_prometheus.Prelude.Int.{ℤ, pos, negsuc, ltb_ℤ, incr, at_least, index, max_int64}
use timescale_prometheus.Labels.{Labels}
use timescale_prometheus.Prelude.{
  ℕ, zero, suc, ◌+◌, ◌-◌, ◌*◌, ◌/◌, ◌%◌, ◌≤◌, ◌<◌, ◌≡◌, refl, sym, ap, ap₂, ◌∙◌, ◌≢◌, ◌↔◌, ◌⊎◌, inl,
  inr, ite, if_pos, if_neg, Bool, true, false, not, ◌&&◌, ◌||◌, Option, none, some, List, [], ◌∷◌,
  ◌++◌, arith, ltb, leb, ◌==◌, if◌then◌else◌, length, get_elem?, set, take, drop, map, All,
  Option-cases, Bool-cases, length-append, append_assoc, append-nil,
}

-- `prompb.Sample`, its timestamp in milliseconds
pub record Sample (F : Type 0) : Type 0 where
  pub timestamp : ℤ
  pub value : F

-- `samplesInfo`; the series id -1 stands for "not known yet".
pub record SamplesInfo (F : Type 0) : Type 0 where
  pub labels : Labels
  pub series_id : ℤ
  pub samples : List (Sample F)

pub record SampleInfoIterator (F : Type 0) : Type 0 where
  pub sample_infos : List (SamplesInfo F)
  pub sample_info_index : ℕ
  pub sample_index : ℤ
  pub min_seen : ℤ

-- A row of the data table: timestamp, value and series id.
abbrev pub Row : Type 0 → Type 0
Row F = ℤ × F × ℤ

module _ {F : Type 0} where
  unfoldable pub reset_position : SampleInfoIterator F → SampleInfoIterator F
  reset_position t = record t {
    sample_index = negsuc 0;
    sample_info_index = 0;
    min_seen = max_int64;
  }

  unfoldable pub new_sample_info_iterator : SampleInfoIterator F
  unfolding reset_position
  new_sample_info_iterator =
      reset_position (record {
        sample_infos = [];
        sample_info_index = 0;
        sample_index = pos 0;
        min_seen = pos 0;
      })

  -- `Append`
  unfoldable pub append_info : SampleInfoIterator F → SamplesInfo F → SampleInfoIterator F
  append_info t s = record t { sample_infos = t.sample_infos ++ s ∷ [] }

  -- Whether `Next` moves on to the next series.
  unfoldable pub is_spent : SampleInfoIterator F → Bool
  is_spent t = elim (get_elem? t.sample_infos t.sample_info_index) [
    | none ↦ false
    | some info ↦ at_least (incr t.sample_index) (length info.samples)
  ]

  unfoldable pub next : SampleInfoIterator F → Bool × SampleInfoIterator F
  next t =
      let t' =
        if is_spent t
        then record t { sample_info_index = t.sample_info_index + 1; sample_index = pos 0 }
        else record t { sample_index = incr t.sample_index } in
      (ltb t'.sample_info_index (length t'.sample_infos), t')

  -- `Values`: the row as timestamp, value and series id; `none` is the panic on an index out of range.
  unfoldable pub values : SampleInfoIterator F → Option (Row F × SampleInfoIterator F)
  values t = elim (get_elem? t.sample_infos t.sample_info_index) [
    | none ↦ none
    | some info ↦ elim (index info.samples t.sample_index) [
      | none ↦ none
      | some s ↦ some (
        (s.timestamp, s.value, info.series_id),
        record t { min_seen = if ltb_ℤ s.timestamp t.min_seen then s.timestamp else t.min_seen },
      )
    ]
  ]

  -- The loop of `doInsert` over `Next` and `Values`, on fuel; `none` is the panic of `Values`, or that
  -- the fuel ran out.
  unfoldable pub collect : ℕ → SampleInfoIterator F → Option (List (Row F) × SampleInfoIterator F)
  collect zero t = none
  collect (suc fuel) t =
      let (more, t') = next t in
      elim more [
        | false ↦ some ([], t')
        | true ↦ elim (values t') [
          | none ↦ none
          | some (row, t'') ↦ elim (collect fuel t'') [
            | none ↦ none
            | some (rows, u) ↦ some (row ∷ rows, u)
          ]
        ]
      ]

  -- The sum of the lengths of the sample lists, `numRows` of `doInsert`.
  unfoldable pub num_rows : List (SamplesInfo F) → ℕ
  num_rows [] = 0
  num_rows (info ∷ infos) = length info.samples + num_rows infos
