-- ===== src/SeriesIds/Replies.antt =====
-- pkg/pgmodel/sql_ingest.go: `setSeriesIds` as a whole, over a database that answers.
use timescale_prometheus.Prelude.Dict
use timescale_prometheus.Prelude.Bytes.{Bytes, Bytes-discrete}
use timescale_prometheus.Prelude.Int.{pos}
use timescale_prometheus.Labels.{Labels}
use timescale_prometheus.Samples.{SamplesInfo}
use timescale_prometheus.SeriesIds.{
  SeriesCache, Reply, got, Sent, fill_known_series_ids, series_to_insert, sort_series, Group,
  batch_series, set_ids, read_replies, set_series_ids,
}
use timescale_prometheus.SeriesIds.Groups.{
  is_grouped, is_listed, IsUniform, groups-All, is_grouped-batch_series, is_listed-series_to_insert,
}
use timescale_prometheus.SeriesIds.Assigning.{
  list_ext, IsCurrent, IsServed, insert-IsCurrent, assign, settle, fill_current, at_assign,
  set_ids-settle, set_ids-All,
}
use timescale_prometheus.Prelude.{
  ℕ, zero, suc, ◌+◌, ◌≡◌, refl, ap, ◌∙◌, ◌⊎◌, inl, inr, Option, none, some, List, [], ◌∷◌,
  if◌then◌else◌, get_elem?, map, All, arith,
}

zero_or_suc : (n : ℕ) → (n ≡ 0) ⊎ ((m : ℕ) × (n ≡ suc m))
zero_or_suc zero = inl refl
zero_or_suc (suc m) = inr (m, refl)

settle_twice :
    {F : Type 0} (id_of : Bytes → ℕ) (o : Option (SamplesInfo F))
    → settle id_of (settle id_of o) ≡ settle id_of o
unfolding settle
settle_twice id_of none = refl
settle_twice id_of (some s) = refl

module _ {F E : Type 0} (id_of : Bytes → ℕ) where
  -- The replies from an index on, for slices of the series at hand.
  read_replies-settle :
      (replies : ℕ → Reply E) (i : ℕ) (gs : List Group) (cache : SeriesCache)
      (infos : List (SamplesInfo F))
      → ((k : ℕ) (l : Labels)
          → get_elem? (map (λ (g : Group). g.0) gs) k ≡ some l
          → replies (i + k) ≡ got (pos (id_of l.str)) none)
      → All (IsUniform infos) gs
      → IsCurrent id_of cache
      → (cache' : SeriesCache) × (infos' : List (SamplesInfo F)) × (read_replies replies i gs cache
            infos
          ≡ (none, cache', infos'))
        × IsCurrent id_of cache'
        × ((j : ℕ)
            → get_elem? infos' j
              ≡ (if is_grouped j gs then settle id_of (get_elem? infos j) else get_elem? infos j))
  unfolding read_replies is_grouped
  read_replies-settle replies i [] cache infos served us v = (cache, infos, refl, v, λ j. refl)
  read_replies-settle replies i (g ∷ gs) cache infos served us v =
      let id = pos (id_of g.0.str) in
      let infos1 = set_ids id g.1 infos in
      let cache1 = Dict.insert Bytes-discrete g.0.str id cache in
      let (cache2, infos2, reads, v2, at) =
        read_replies-settle replies (suc i) gs cache1 infos1
          (λ k l e. ap replies (omega arith) ∙ served (suc k) l e)
          (set_ids-All id_of g gs infos us.0 us.1) (insert-IsCurrent id_of cache g.0.str v) in
      let first : replies i ≡ got id none = ap replies (omega arith) ∙ served 0 g.0 refl in
      (
        cache2,
        infos2,
        ground arith,
        v2,
        λ j.
            let a = set_ids-settle id_of g infos us.0 j in
            let b = at j in let c = settle_twice id_of (get_elem? infos j) in ground arith,
      )

  -- If every cached id is the one that the database gives to the string, and the database answers a
  -- batch without an error with the id of each label set, setSeriesIds has no error: every series
  -- without an id gets the one of its labels, nothing else of the buffer changes, and the cache
  -- stays so.
  pub set_series_ids_assigns :
      (send : List Labels → Sent E) (cache : SeriesCache) (infos : List (SamplesInfo F))
      → IsServed id_of send
      → IsCurrent id_of cache
      → (cache' : SeriesCache) × (set_series_ids send cache infos
          ≡ (none, cache', map (assign id_of) infos))
        × IsCurrent id_of cache'
  unfolding set_series_ids IsServed
  set_series_ids_assigns send cache infos served v =
      let infos' = (fill_known_series_ids cache infos).0 in
      let missing = (fill_known_series_ids cache infos).1 in
      let xs = series_to_insert 0 infos' in
      let groups = batch_series (sort_series xs) in
      let (filled, full) = fill_current id_of cache infos v in
      let (replies, sends, answers) = served (map (λ (g : Group). g.0) groups) in
      let (cache', infos'', reads, v', at) =
        read_replies-settle replies 0 groups cache infos'
          (λ k l e. ap replies (omega arith) ∙ answers k l e) (groups-All infos') v in
      let all : infos'' ≡ map (assign id_of) infos =
        list_ext infos'' (map (assign id_of) infos') (λ j.
          let a = at_assign id_of j infos' in
          let b = is_grouped-batch_series j xs in
          let c = is_listed-series_to_insert 0 j infos' in
          let d : is_listed (0 + j) xs ≡ is_listed j xs =
            ap (λ (n : ℕ). is_listed n xs) (omega arith) in
          let e = at j in ground arith)
        ∙ filled in
      elim (zero_or_suc missing) [
        | inl e ↦ (cache, let f = full e in ground arith, v)
        | inr (n, e) ↦ (cache', ground arith, v')
      ]
