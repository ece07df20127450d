-- ===== src/QueryBuilder/TimeSeries.antt =====
-- pkg/pgmodel/query_builder.go: rows that become time series, and times as milliseconds. A time is a number of
-- nanoseconds since the epoch; rows, `Scan`, the labels of ids and the format of times are parameters.
use timescale_prometheus.Prelude.Int.{ℤ, pos, negsuc, ◌+ℤ◌, ◌-ℤ◌, ◌*ℤ◌, sub_ℕ, div_ℤ, ℤ_discrete}
use timescale_prometheus.Prelude.Bytes.{Bytes, codes}
use timescale_prometheus.Labels.{Label, sort_labels}
use timescale_prometheus.Samples.{Sample}
use timescale_prometheus.Ingestor.{TimeSeries}
use timescale_prometheus.Prelude.{
  ℕ, suc, ◌+◌, ◌-◌, ◌^◌, ◌%◌, ◌≡◌, ◌↔◌, refl, ap, ◌∙◌, ◌⊎◌, inl, inr, Option, none, some, List, [],
  ◌∷◌, ◌==◌, ite, if◌then◌else◌, length, map, arith, Sum-cases,
}

-- What `Scan` makes of a row: an error, or the ids of the labels, the timestamps and the values.
pub data SeriesRow (F E : Type 0) : Type 0 where
  unread : E → SeriesRow F E
  read : List ℤ → List ℤ → List F → SeriesRow F E

-- `UnixNano`, an int64.
unfoldable pub unix_nano : ℤ → ℤ
unix_nano (pos n) = sub_ℕ ((n + 2 ^ 63) % 2 ^ 64) (2 ^ 63)
unix_nano (negsuc n) = sub_ℕ ((2 ^ 64 + 2 ^ 63 - suc (n % 2 ^ 64)) % 2 ^ 64) (2 ^ 63)

unfoldable pub to_milis : ℤ → ℤ
unfolding unix_nano
to_milis t = div_ℤ (unix_nano t) 1000000

-- The time that `toRFC3339Nano` formats: `time.Unix(sec, nsec)`.
unfoldable pub unix_time : ℤ → ℤ
unfolding ◌+ℤ◌ ◌-ℤ◌ ◌*ℤ◌
unix_time milliseconds =
    let sec = div_ℤ milliseconds 1000 in
    let nsec = (milliseconds -ℤ sec *ℤ pos 1000) *ℤ pos 1000000 in sec *ℤ pos 1000000000 +ℤ nsec

-- `toRFC3339Nano`, for the times that stand for infinity and a format.
unfoldable pub to_rfc3339_nano : ℤ → ℤ → (ℤ → Bytes) → ℤ → Bytes
unfolding unix_time
to_rfc3339_nano min_time max_time format milliseconds =
    ite (ℤ_discrete milliseconds min_time) (codes "-Infinity")
      (ite (ℤ_discrete milliseconds max_time) (codes "Infinity") (format (unix_time milliseconds)))

unfoldable pub make_samples : {F : Type 0} → List ℤ → List F → List (Sample F)
unfolding to_milis
make_samples (t ∷ ts) (v ∷ vs) = record { timestamp = to_milis t; value = v } ∷ make_samples ts vs
make_samples ts vs = []

module _ {F E : Type 0} (get_labels : List ℤ → E ⊎ List Label) (mismatch : E) where
  -- The series of a row.
  unfoldable pub build_one : SeriesRow F E → E ⊎ TimeSeries F
  unfolding make_samples
  build_one (unread e) = inl e
  build_one (read ids timestamps values) =
      let labelled : E ⊎ TimeSeries F = elim (get_labels ids) [
        | inl e ↦ inl e
        | inr lls ↦
            inr (record { labels = sort_labels lls; samples = make_samples timestamps values })
      ] in
      if length timestamps == length values then labelled else inl mismatch

  -- `buildTimeSeries` of rows, and the error that there is when all are read.
  unfoldable pub build_time_series : List (SeriesRow F E) → Option E → E ⊎ List (TimeSeries F)
  unfolding build_one
  build_time_series [] failure = elim failure [ some e ↦ inl e | none ↦ inr [] ]
  build_time_series (row ∷ rows) failure =
      let rest = build_time_series rows failure in
      elim (build_one row) [
        | inl e ↦ inl e
        | inr s ↦ elim rest [ inl e ↦ inl e | inr ss ↦ inr (s ∷ ss) ]
      ]

  -- The rows become series all together or not at all.
  pub build_time_series_lem :
      (rows : List (SeriesRow F E)) (failure : Option E) (ss : List (TimeSeries F))
      → (build_time_series rows failure ≡ inr ss)
        ↔ ((failure ≡ none) × (map build_one rows ≡ map inr ss))
  unfolding build_time_series
  build_time_series_lem [] none [] = (λ e. (refl, refl), λ e. refl)
  build_time_series_lem [] none (s ∷ ss) = (λ e. absurd (ground arith), λ e. absurd (ground arith))
  build_time_series_lem [] (some x) ss = (λ e. absurd (ground arith), λ e. absurd (ground arith))
  build_time_series_lem (row ∷ rows) failure [] = (
    λ e. elim (Sum-cases (build_one row)) [
      | inl (x, f) ↦ absurd (ground arith)
      | inr (t, f) ↦ elim (Sum-cases (build_time_series rows failure)) [
        | inl (x, g) ↦ absurd (ground arith)
        | inr (us, g) ↦ absurd (ground arith)
      ]
    ],
    λ e. absurd (ground arith),
  )
  build_time_series_lem (row ∷ rows) failure (s ∷ ss) = (
    λ e. elim (Sum-cases (build_one row)) [
      | inl (x, f) ↦ absurd (ground arith)
      | inr (t, f) ↦ elim (Sum-cases (build_time_series rows failure)) [
        | inl (x, g) ↦ absurd (ground arith)
        | inr (us, g) ↦
            let same : us ≡ ss = ground arith in
            let rest = (build_time_series_lem rows failure ss).0 (g ∙ ap inr same) in ground arith
      ]
    ],
    λ e.
        let first : build_one row ≡ inr s = ground arith in
        let more : map build_one rows ≡ map inr ss = ground arith in
        let rest = (build_time_series_lem rows failure ss).1 (e.0, more) in ground arith,
  )

-- A row of `metricNameSeriesIDSQLFormat`.
pub data MetricRow (E : Type 0) : Type 0 where
  unread_metric : E → MetricRow E
  metric_row : Bytes → List ℕ → MetricRow E

-- `getSeriesPerMetric`, which does not ask for the error of the rows.
unfoldable pub get_series_per_metric : {E : Type 0} → List (MetricRow E) → E ⊎ List (Bytes × List ℕ)
get_series_per_metric [] = inr []
get_series_per_metric (unread_metric e ∷ rows) = inl e
get_series_per_metric (metric_row name ids ∷ rows) =
    let rest = get_series_per_metric rows in
    elim rest [ inl e ↦ inl e | inr ms ↦ inr ((name, ids) ∷ ms) ]
