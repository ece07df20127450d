-- ===== src/SeriesIds.antt =====
-- pkg/pgmodel/sql_ingest.go: the series ids of a buffer, from the cache of an inserter and from the
-- database. A pointer into the buffer is an index. The database's answers to the batch are a parameter.
pub mod Groups
pub mod Weights
pub mod Assigning
pub mod Replies
use timescale_prometheus.Prelude.Dict
use timescale_prometheus.Prelude.Bytes.{Bytes, Bytes-discrete, str_lt}
use timescale_prometheus.Prelude.Int.{ℤ, pos, ltb_ℤ}
use timescale_prometheus.Labels.{Labels, equal, compare_lt}
use timescale_prometheus.Samples.{SamplesInfo}
use timescale_prometheus.Prelude.{
  ℕ, zero, suc, ◌+◌, Bool, true, false, not, Option, none, some, List, [], ◌∷◌, ◌++◌, if◌then◌else◌,
  get_elem?, set, length, map,
}

-- `seriesCache`
abbrev pub SeriesCache : Type 0
SeriesCache = List (Bytes × ℤ)

-- What the statements of one series lead to: BEGIN or the row fail, or the row holds an id, and COMMIT
-- succeeds or fails.
pub data Reply (E : Type 0) : Type 0 where
  refused : E → Reply E
  got : ℤ → Option E → Reply E

-- `SendBatch` of the series to create: an error, or the reply for each series by its index.
pub data Sent (E : Type 0) : Type 0 where
  send_failed : E → Sent E
  sent : (ℕ → Reply E) → Sent E

module _ {F : Type 0} where
  -- `fillKnowSeriesIds`: the infos, and how many series are missing.
  unfoldable pub fill_known_series_ids :
      SeriesCache → List (SamplesInfo F) → List (SamplesInfo F) × ℕ
  fill_known_series_ids cache [] = ([], 0)
  fill_known_series_ids cache (s ∷ ss) =
      let (ss', missing) = fill_known_series_ids cache ss in
      let known = Dict.lookup Bytes-discrete s.labels.str cache in
      if not (ltb_ℤ s.series_id (pos 0)) then (s ∷ ss', missing) else elim known [
        | some id ↦ (record s { series_id = id } ∷ ss', missing)
        | none ↦ (s ∷ ss', suc missing)
      ]

  -- `seriesToInsert`: where the series without an id stand, and their labels. The first index is given.
  unfoldable pub series_to_insert : ℕ → List (SamplesInfo F) → List (ℕ × Labels)
  series_to_insert i [] = []
  series_to_insert i (s ∷ ss) =
      let rest = series_to_insert (suc i) ss in
      if ltb_ℤ s.series_id (pos 0) then (i, s.labels) ∷ rest else rest

-- `sort.Slice` by `Compare`.
unfoldable pub insert_series : ℕ × Labels → List (ℕ × Labels) → List (ℕ × Labels)
unfolding compare_lt
insert_series x [] = x ∷ []
insert_series x (y ∷ ys) =
    let rest = insert_series x ys in if compare_lt y.1 x.1 then y ∷ rest else x ∷ y ∷ ys

unfoldable pub sort_series : List (ℕ × Labels) → List (ℕ × Labels)
unfolding insert_series
sort_series [] = []
sort_series (x ∷ xs) = insert_series x (sort_series xs)

-- A slice of `batchSeries`: the labels of its first series, and where its series stand.
abbrev pub Group : Type 0
Group = Labels × List ℕ

-- The loop that groups by labels, `last` being the slice that is filled.
unfoldable pub group_from : Group → List (ℕ × Labels) → List Group
unfolding equal
group_from last [] = last ∷ []
group_from last (x ∷ xs) =
    let joined = group_from (last.0, last.1 ++ x.0 ∷ []) xs in
    let fresh = last ∷ group_from (x.1, x.0 ∷ []) xs in if equal last.0 x.1 then joined else fresh

unfoldable pub batch_series : List (ℕ × Labels) → List Group
unfolding group_from
batch_series [] = []
batch_series (x ∷ xs) = group_from (x.1, x.0 ∷ []) xs

module _ {F : Type 0} where
  unfoldable pub set_id : ℤ → ℕ → List (SamplesInfo F) → List (SamplesInfo F)
  set_id id i infos = elim (get_elem? infos i) [
    | none ↦ infos
    | some s ↦ set infos i (record s { series_id = id })
  ]

  unfoldable pub set_ids : ℤ → List ℕ → List (SamplesInfo F) → List (SamplesInfo F)
  unfolding set_id
  set_ids id [] infos = infos
  set_ids id (i ∷ is) infos = set_ids id is (set_id id i infos)

module _ {F E : Type 0} where
  -- The loop that reads the replies from the given index on: the error, the cache and the infos.
  unfoldable pub read_replies :
      (ℕ → Reply E)
      → ℕ
      → List Group
      → SeriesCache
      → List (SamplesInfo F)
      → Option E × SeriesCache × List (SamplesInfo F)
  unfolding set_ids
  read_replies replies i [] cache infos = (none, cache, infos)
  read_replies replies i (g ∷ gs) cache infos = elim (replies i) [
    | refused e ↦ (some e, cache, infos)
    | got id commit ↦
        let cache' = Dict.insert Bytes-discrete g.0.str id cache in
        let infos' = set_ids id g.1 infos in
        let rest = read_replies replies (suc i) gs cache' infos' in
        elim commit [ some e ↦ (some e, cache', infos') | none ↦ rest ]
  ]

  -- `setSeriesIds`; `send` is the database.
  unfoldable pub set_series_ids :
      (List Labels → Sent E)
      → SeriesCache
      → List (SamplesInfo F)
      → Option E × SeriesCache × List (SamplesInfo F)
  unfolding fill_known_series_ids series_to_insert sort_series batch_series read_replies
  set_series_ids send cache infos =
      let (infos', missing) = fill_known_series_ids cache infos in
      let groups = batch_series (sort_series (series_to_insert 0 infos')) in
      elim missing [
        | zero ↦ (none, cache, infos')
        | suc _ ↦ elim (send (map (λ (g : Group). g.0) groups)) [
          | send_failed e ↦ (some e, cache, infos')
          | sent replies ↦ read_replies replies 0 groups cache infos'
        ]
      ]
