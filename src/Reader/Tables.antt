-- ===== src/Reader/Tables.antt =====
-- pkg/pgmodel/sql_reader.go: the table of a metric is asked for once.
use timescale_prometheus.Prelude.Bytes.{Bytes, Bytes-discrete}
use timescale_prometheus.ClockCache.Contents.{contents, IsValid}
use timescale_prometheus.ClockCache.Access.{get-contents, get-SameButMarks}
use timescale_prometheus.ClockCache.Batches.{insert_stores}
use timescale_prometheus.ClockCache.{get, insert}
use mathlib.Core.Path.{subst}
use timescale_prometheus.ClockCache.Coherence.{Holds, insert-Holds, insert_value-Holds}
use timescale_prometheus.Reader.{
  NameCache, cached_name, set_name, TableReply, query_failed, missing_table_name, table,
  get_metric_table_name,
}
use timescale_prometheus.Prelude.{
  ◌<◌, ◌≡◌, refl, sym, ◌∙◌, ◌⊎◌, inl, inr, Bool, true, false, none, some, arith, Option-cases,
}

pub TableReply-cases :
    (r : TableReply)
    → ((r ≡ query_failed) ⊎ (r ≡ missing_table_name)) ⊎ ((n : Bytes) × (r ≡ table n))
TableReply-cases query_failed = inl (inl refl)
TableReply-cases missing_table_name = inl (inr refl)
TableReply-cases (table n) = inr (n, refl)

-- A cached name is the one that the database answers.
unfoldable pub IsAnswered : (Bytes → TableReply) → Bytes → Bytes → Type 0
IsAnswered query metric name = query metric ≡ table name

module _ (query : Bytes → TableReply) (c : NameCache) (metric : Bytes) where
  -- What is left by a look-up that gave a reply, whether the database was asked, and the cache.
  unfoldable pub IsLookup : TableReply × Bool × NameCache → Type 0
  IsLookup (reply, asked, c') =
      (reply ≡ query metric)
      × (asked ≡ true → contents Bytes-discrete c metric ≡ none)
      × IsValid Bytes-discrete c'
      × Holds Bytes-discrete (IsAnswered query) c'
      × ((name : Bytes) → reply ≡ table name → contents Bytes-discrete c' metric ≡ some name)

  -- With a valid cache of positive capacity whose names are those that the database answers,
  -- getMetricTableName gives what the database answers, asks it only for a metric that is not
  -- cached, and leaves such a cache, in which a metric that has a table is found.
  pub get_metric_table_name-IsLookup :
      IsValid Bytes-discrete c
      → 0 < c.capacity
      → Holds Bytes-discrete (IsAnswered query) c
      → IsLookup (get_metric_table_name query c metric)
  unfolding IsLookup
  get_metric_table_name-IsLookup v pos current =
      let (found, same, v1) = get-contents Bytes-discrete c metric v in
      let c1 = (get Bytes-discrete c metric).1 in
      let current1 : Holds Bytes-discrete (IsAnswered query) c1 =
        unfold Holds in (λ q w e. current q w (sym (same q) ∙ e)) in
      let pos1 : 0 < c1.capacity =
        omega (arith, (get-SameButMarks Bytes-discrete c metric).same_capacity) in
      elim (Option-cases (contents Bytes-discrete c metric)) [
        | inr (name, e) ↦
            let a : query metric ≡ table name =
              unfold Holds IsAnswered in (current metric name e) in
            let q : get_metric_table_name query c metric ≡ (table name, false, c1) =
              unfold get_metric_table_name cached_name in (ground arith) in
            subst IsLookup (sym q)
              (sym a, λ h. ground arith, v1, current1, λ n h. same metric ∙ e ∙ ground arith)
        | inl e ↦ elim (TableReply-cases (query metric)) [
          | inl (inl f) ↦
              let q : get_metric_table_name query c metric ≡ (query_failed, true, c1) =
                unfold get_metric_table_name cached_name in (ground arith) in
              subst IsLookup (sym q) (sym f, λ h. e, v1, current1, λ n h. ground arith)
          | inl (inr f) ↦
              let q : get_metric_table_name query c metric ≡ (missing_table_name, true, c1) =
                unfold get_metric_table_name cached_name in (ground arith) in
              subst IsLookup (sym q) (sym f, λ h. e, v1, current1, λ n h. ground arith)
          | inr (name, f) ↦
              let c2 = (insert Bytes-discrete c1 metric name).3 in
              let q : get_metric_table_name query c metric ≡ (table name, true, c2) =
                unfold get_metric_table_name cached_name set_name in (ground arith) in
              let (v2, _, _, _, mapped) = insert_stores Bytes-discrete c1 metric name v1 pos1 in
              let answered : IsAnswered query metric name = unfold IsAnswered in f in
              let current2 =
                insert-Holds Bytes-discrete (IsAnswered query) c1 metric name v1 pos1 current1
                  answered in
              let value : query metric ≡ table (insert Bytes-discrete c1 metric name).1 =
                unfold IsAnswered in
                (insert_value-Holds Bytes-discrete (IsAnswered query) c1 metric name v1 pos1
                  current1 answered) in
              subst IsLookup (sym q) (sym f, λ h. e, v2, current2, λ n h. ground arith)
        ]
      ]
