-- ===== src/Reader/Queries/Answers.antt =====
-- pkg/pgmodel/sql_reader.go: a remote read is answered with all series of all its rows, or with an error.
use timescale_prometheus.Prelude.Int.{ℤ}
use timescale_prometheus.Prelude.Bytes.{Bytes}
use timescale_prometheus.Labels.{Label}
use timescale_prometheus.Ingestor.{TimeSeries}
use timescale_prometheus.Reader.{NameCache}
use timescale_prometheus.QueryBuilder.{MatchType, Matcher}
use timescale_prometheus.QueryBuilder.Finalizer.{Node}
use timescale_prometheus.QueryBuilder.TimeSeries.{
  SeriesRow, build_one, build_time_series, build_time_series_lem,
}
use timescale_prometheus.Reader.Results.{ReaderCalls, get_result_rows, build_all}
use timescale_prometheus.Reader.Queries.{Query, from_label_matchers, query}
use timescale_prometheus.Prelude.{
  ◌≡◌, ◌↔◌, refl, ap, ◌∙◌, ◌⊎◌, inl, inr, Option, none, some, List, [], ◌∷◌, ◌++◌, map, All, arith,
  Sum-cases,
}

-- The rows of all result sets.
unfoldable pub all_rows :
    {F E : Type 0} → List (List (SeriesRow F E) × Option E) → List (SeriesRow F E)
all_rows [] = []
all_rows ((rows, failure) ∷ sets) = rows ++ all_rows sets

map-split :
    {A B E : Type 0} (f : A → E ⊎ B) (xs ys : List A) (ss : List B)
    → map f (xs ++ ys) ≡ map inr ss
    → (a : List B) × (b : List B) × (ss ≡ a ++ b) × (map f xs ≡ map inr a) × (map f ys ≡ map inr b)
map-split f [] ys ss e = ([], ss, refl, refl, e)
map-split f (x ∷ xs) ys [] e = absurd (ground arith)
map-split f (x ∷ xs) ys (s ∷ ss) e =
    let first : f x ≡ inr s = ground arith in
    let more : map f (xs ++ ys) ≡ map inr ss = ground arith in
    let (a, b, whole, left, right) = map-split f xs ys ss more in
    (s ∷ a, b, ap (λ l. s ∷ l) whole, ground arith, right)

map-join :
    {A B E : Type 0} (f : A → E ⊎ B) (xs ys : List A) (a b : List B)
    → map f xs ≡ map inr a
    → map f ys ≡ map inr b
    → map f (xs ++ ys) ≡ map inr (a ++ b)
map-join f [] ys [] b e h = h
map-join f [] ys (s ∷ a) b e h = absurd (ground arith)
map-join f (x ∷ xs) ys [] b e h = absurd (ground arith)
map-join f (x ∷ xs) ys (s ∷ a) b e h =
    let first : f x ≡ inr s = ground arith in
    let more : map f xs ≡ map inr a = ground arith in
    let rest = map-join f xs ys a b more h in ground arith

-- No result set ends with an error.
unfoldable pub AllEnded : {F E : Type 0} → List (List (SeriesRow F E) × Option E) → Type 0
AllEnded sets = All (λ set. set.1 ≡ none) sets

module _ {F E : Type 0} (get_labels : List ℤ → E ⊎ List Label) (mismatch : E) where
  unfoldable pub IsAnswer : List (List (SeriesRow F E) × Option E) → List (TimeSeries F) → Type 0
  unfolding AllEnded
  IsAnswer sets ss =
      AllEnded sets × (map (build_one get_labels mismatch) (all_rows sets) ≡ map inr ss)

  build_all_lem :
      (sets : List (List (SeriesRow F E) × Option E)) (ss : List (TimeSeries F))
      → (build_all get_labels mismatch sets ≡ inr ss) ↔ IsAnswer sets ss
  unfolding build_all IsAnswer AllEnded all_rows
  build_all_lem [] [] = (λ e. (tt, refl), λ e. refl)
  build_all_lem [] (s ∷ ss) = (λ e. absurd (ground arith), λ e. absurd (ground arith))
  build_all_lem ((rows, failure) ∷ sets) ss = (
    λ e. elim (Sum-cases (build_time_series get_labels mismatch rows failure)) [
      | inl (x, f) ↦ absurd (ground arith)
      | inr (a, f) ↦ elim (Sum-cases (build_all get_labels mismatch sets)) [
        | inl (x, g) ↦ absurd (ground arith)
        | inr (b, g) ↦
            let whole : a ++ b ≡ ss = ground arith in
            let (ended, read_rows) =
              (build_time_series_lem get_labels mismatch rows failure a).0 f in
            let (all_ended, read_rest) = (build_all_lem sets b).0 g in
            let joined =
              map-join (build_one get_labels mismatch) rows (all_rows sets) a b read_rows
                read_rest in
            ((ended, all_ended), joined ∙ ap (map inr) whole)
      ]
    ],
    λ ((ended, all_ended), e).
        let (a, b, whole, left, right) =
          map-split (build_one get_labels mismatch) rows (all_rows sets) ss e in
        let first = (build_time_series_lem get_labels mismatch rows failure a).1 (ended, left) in
        let rest = (build_all_lem sets b).1 (all_ended, right) in ground arith,
  )

module _ {F E : Type 0} (to_text : ℤ → Bytes)
    (calls : ReaderCalls E (List (SeriesRow F E) × Option E)) (get_labels : List ℤ → E ⊎ List Label)
    (invalid_type mismatch : E) (new_matcher : MatchType → Bytes → Bytes → E ⊎ Matcher) where
  -- The result sets that are found for a query.
  unfoldable pub IsFound : Query → NameCache → List (List (SeriesRow F E) × Option E) → Type 0
  IsFound q cache sets =
      (ms : List Matcher) × (top : Option Node) × (from_label_matchers invalid_type new_matcher
          q.matchers
        ≡ inr ms)
      × ((get_result_rows calls (to_text q.start_timestamp_ms) (to_text q.end_timestamp_ms) none []
            ms cache).0
          ≡ inr (sets, top))

  -- A remote-read query is answered with a list of time series exactly if its matchers can be made,
  -- its result sets are found, each of these ends without an error, and each row of each, in order,
  -- becomes the series at its place in the list; one row that cannot be read, has slices of
  -- different lengths or labels that are not found, and there are no series at all.
  pub query_lem :
      (q : Query) (cache : NameCache) (ss : List (TimeSeries F))
      → ((query to_text calls get_labels invalid_type mismatch new_matcher (some q) cache).0
          ≡ inr ss)
        ↔ ((sets : List (List (SeriesRow F E) × Option E)) × IsFound q cache sets
            × IsAnswer get_labels mismatch sets ss)
  unfolding query IsFound
  query_lem q cache ss = (
    λ e. elim (Sum-cases (from_label_matchers invalid_type new_matcher q.matchers)) [
      | inl (x, f) ↦ absurd (ground arith)
      | inr (ms, f) ↦
          let results =
            (get_result_rows calls (to_text q.start_timestamp_ms) (to_text q.end_timestamp_ms) none
              [] ms cache).0 in
          elim (Sum-cases results) [
            | inl (x, g) ↦ absurd (ground arith)
            | inr ((sets, top), g) ↦
                let built : build_all get_labels mismatch sets ≡ inr ss = ground arith in
                (sets, (ms, top, f, g), (build_all_lem get_labels mismatch sets ss).0 built)
          ]
    ],
    λ (sets, (ms, top, f, g), answer).
        let built = (build_all_lem get_labels mismatch sets ss).1 answer in rw (query, f, g) built,
  )
