-- ===== src/SeriesIds/Weights.antt =====
-- pkg/pgmodel/sql_ingest.go: the lookup of ids leaves the samples of each series where they are. A weight of
-- samples, which may count the series of one call, stands for them.
use timescale_prometheus.Labels.{Labels}
use timescale_prometheus.Prelude.Dict
use timescale_prometheus.Prelude.Int.{ℤ, pos, ltb_ℤ}
use timescale_prometheus.Prelude.Bytes.{Bytes-discrete}
use timescale_prometheus.Samples.{Sample, SamplesInfo}
use timescale_prometheus.SeriesIds.{
  SeriesCache, Reply, refused, got, Sent, send_failed, sent, fill_known_series_ids,
  series_to_insert, sort_series, Group, batch_series, set_id, set_ids, read_replies, set_series_ids,
}
use timescale_prometheus.Prelude.{
  ℕ, zero, suc, ◌+◌, ◌≡◌, refl, ◌∙◌, ap, ◌⊎◌, inl, inr, Option, none, some, List, [], ◌∷◌, ◌++◌,
  get_elem?, set, map, arith, Option-cases, Bool-cases,
}

Reply-cases :
    {E : Type 0} (r : Reply E)
    → ((e : E) × (r ≡ refused e)) ⊎ ((id : ℤ) × (commit : Option E) × (r ≡ got id commit))
Reply-cases (refused e) = inl (e, refl)
Reply-cases (got id commit) = inr (id, commit, refl)

Sent-cases :
    {E : Type 0} (r : Sent E)
    → ((e : E) × (r ≡ send_failed e)) ⊎ ((replies : ℕ → Reply E) × (r ≡ sent replies))
Sent-cases (send_failed e) = inl (e, refl)
Sent-cases (sent replies) = inr (replies, refl)

zero_or_suc : (n : ℕ) → (n ≡ 0) ⊎ ((m : ℕ) × (n ≡ suc m))
zero_or_suc zero = inl refl
zero_or_suc (suc m) = inr (m, refl)

module _ {F : Type 0} (weight : List (Sample F) → ℕ) where
  -- The weight of all series.
  unfoldable pub weigh : List (SamplesInfo F) → ℕ
  weigh [] = 0
  weigh (s ∷ ss) = weight s.samples + weigh ss

  pub weigh-append : (xs ys : List (SamplesInfo F)) → weigh (xs ++ ys) ≡ weigh xs + weigh ys
  unfolding weigh
  weigh-append [] ys = omega arith
  weigh-append (x ∷ xs) ys = omega (arith, weigh-append xs ys)

  pub weigh-fill_known_series_ids :
      (cache : SeriesCache) (infos : List (SamplesInfo F))
      → weigh (fill_known_series_ids cache infos).0 ≡ weigh infos
  unfolding weigh fill_known_series_ids
  weigh-fill_known_series_ids cache [] = refl
  weigh-fill_known_series_ids cache (s ∷ ss) =
      let rest = weigh-fill_known_series_ids cache ss in
      elim (Bool-cases (ltb_ℤ s.series_id (pos 0))) [
        | inr known ↦ ground arith
        | inl unknown ↦ elim (Option-cases (Dict.lookup Bytes-discrete s.labels.str cache)) [
          | inl e ↦ ground arith
          | inr (id, e) ↦ ground arith
        ]
      ]

  weigh-set :
      (infos : List (SamplesInfo F)) (i : ℕ) (s : SamplesInfo F) (id : ℤ)
      → get_elem? infos i ≡ some s
      → weigh (set infos i (record s { series_id = id })) ≡ weigh infos
  unfolding weigh
  weigh-set [] i s id e = absurd (ground arith)
  weigh-set (t ∷ ts) zero s id e =
      let same : t ≡ s = ground arith in
      let weights = ap (λ (x : SamplesInfo F). weight x.samples) same in omega arith
  weigh-set (t ∷ ts) (suc i) s id e = omega (arith, weigh-set ts i s id e)

  weigh-set_ids :
      (id : ℤ) (is : List ℕ) (infos : List (SamplesInfo F))
      → weigh (set_ids id is infos) ≡ weigh infos
  unfolding set_ids set_id
  weigh-set_ids id [] infos = refl
  weigh-set_ids id (i ∷ is) infos =
      let rest = weigh-set_ids id is (set_id id i infos) in
      elim (Option-cases (get_elem? infos i)) [
        | inl e ↦ ground arith
        | inr (s, e) ↦ let here = weigh-set infos i s id e in ground arith
      ]

  weigh-read_replies :
      {E : Type 0} (replies : ℕ → Reply E) (i : ℕ) (gs : List Group) (cache : SeriesCache)
      (infos : List (SamplesInfo F))
      → weigh (read_replies replies i gs cache infos).2 ≡ weigh infos
  unfolding read_replies
  weigh-read_replies replies i [] cache infos = refl
  weigh-read_replies replies i (g ∷ gs) cache infos =
      let cache' = λ (id : ℤ). Dict.insert Bytes-discrete g.0.str id cache in
      elim (Reply-cases (replies i)) [
        | inl (e, f) ↦ rw (read_replies, f) refl
        | inr (id, none, f) ↦
            rw (read_replies, f)
              (weigh-read_replies replies (suc i) gs (cache' id) (set_ids id g.1 infos)
                ∙ weigh-set_ids id g.1 infos)
        | inr (id, some e, f) ↦ rw (read_replies, f) (weigh-set_ids id g.1 infos)
      ]

  pub weigh-set_series_ids :
      {E : Type 0} (send : List Labels → Sent E) (cache : SeriesCache)
      (infos : List (SamplesInfo F))
      → weigh (set_series_ids send cache infos).2 ≡ weigh infos
  unfolding set_series_ids
  weigh-set_series_ids send cache infos =
      let infos' = (fill_known_series_ids cache infos).0 in
      let groups = batch_series (sort_series (series_to_insert 0 infos')) in
      let known = weigh-fill_known_series_ids cache infos in
      elim (zero_or_suc (fill_known_series_ids cache infos).1) [
        | inl e ↦ rw (set_series_ids, e) known
        | inr (m, e) ↦ elim (Sent-cases (send (map (λ (g : Group). g.0) groups))) [
          | inl (x, f) ↦ rw (set_series_ids, e, f) known
          | inr (replies, f) ↦
              rw (set_series_ids, e, f) (weigh-read_replies replies 0 groups cache infos' ∙ known)
        ]
      ]
