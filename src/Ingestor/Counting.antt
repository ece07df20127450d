-- ===== src/Ingestor/Counting.antt =====
-- What `append` to the series of one metric does to the map of `parseData`, and to the count of its
-- rows (pkg/pgmodel/ingestor.go).
use timescale_prometheus.Prelude.Dict
use timescale_prometheus.Prelude.Dict.{lookup-insert, Distinct, insert-Distinct, delete_absent}
use timescale_prometheus.Prelude.Bytes.{Bytes, Bytes-discrete}
use timescale_prometheus.Samples.{SamplesInfo, num_rows}
use timescale_prometheus.Ingestor.{Data, series_of, add_series, total_rows}
use timescale_prometheus.Prelude.{◌+◌, ◌≡◌, ite, List, [], ◌∷◌, ◌++◌, arith, length}

module _ {F : Type 0} where
  pub series_of-add_series :
      (metric other : Bytes) (info : SamplesInfo F) (d : Data F)
      → series_of other (add_series metric info d)
        ≡ ite (Bytes-discrete metric other) (series_of metric d ++ info ∷ []) (series_of other d)
  unfolding series_of add_series
  series_of-add_series metric other info d =
      ground (arith, lookup-insert Bytes-discrete metric other (series_of metric d ++ info ∷ []) d)

  pub add_series-Distinct :
      (metric : Bytes) (info : SamplesInfo F) (d : Data F)
      → Distinct Bytes-discrete d
      → Distinct Bytes-discrete (add_series metric info d)
  unfolding add_series
  add_series-Distinct metric info d h =
      insert-Distinct Bytes-discrete metric (series_of metric d ++ info ∷ []) d h

  total_rows-delete :
      (metric : Bytes) (d : Data F)
      → Distinct Bytes-discrete d
      → num_rows (series_of metric d) + total_rows (Dict.delete Bytes-discrete metric d)
        ≡ total_rows d
  unfolding series_of total_rows num_rows Dict.lookup Dict.delete
  total_rows-delete metric [] h = omega arith
  total_rows-delete metric ((k, infos) ∷ d) h =
      ground (arith, total_rows-delete metric d h.1, delete_absent Bytes-discrete k d h.0)

  pub num_rows-append :
      (xs ys : List (SamplesInfo F)) → num_rows (xs ++ ys) ≡ num_rows xs + num_rows ys
  unfolding num_rows
  num_rows-append [] ys = omega arith
  num_rows-append (x ∷ xs) ys = omega (arith, num_rows-append xs ys)

  pub total_rows-add_series :
      (metric : Bytes) (info : SamplesInfo F) (d : Data F)
      → Distinct Bytes-discrete d
      → total_rows (add_series metric info d) ≡ total_rows d + length info.samples
  unfolding add_series total_rows num_rows Dict.insert
  total_rows-add_series metric info d h =
      omega (arith, num_rows-append (series_of metric d) (info ∷ []), total_rows-delete metric d h)
