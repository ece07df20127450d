-- ===== src/Api/Reads/Delivery.antt =====
-- pkg/api/read.go: what the handler writes is what a request is owed, or the request counts as failed.
use mathlib.Core.Path.{subst}
use timescale_prometheus.Prelude.{
  ℕ, ◌+◌, ◌≡◌, ◌↔◌, refl, ap, sym, ◌∙◌, true, inl, inr, Option, none, some, List, [], ◌∷◌, length,
  map, arith, Sum-cases, Option-cases, Bool-cases,
}
use timescale_prometheus.Api.Reads.{
  ReadCalls, Counters, ReadResponse, read_queries, fail, answer_queries, read,
}

module _ {B Q T E : Type 0} (calls : ReadCalls B Q T E) where
  -- The results are those of the queries in order.
  read_queries-map :
      (qs : List Q) (ts : List T)
      → (read_queries calls qs ≡ inr ts) ↔ (map calls.query qs ≡ map inr ts)
  unfolding read_queries
  read_queries-map [] [] = (λ e. refl, λ e. refl)
  read_queries-map [] (t ∷ ts) = (λ e. absurd (ground arith), λ e. absurd (ground arith))
  read_queries-map (q ∷ qs) [] = (
    λ e. elim (Sum-cases (calls.query q)) [
      | inl (x, f) ↦ absurd (ground arith)
      | inr (t, f) ↦ elim (Sum-cases (read_queries calls qs)) [
        | inl (x, g) ↦ absurd (ground arith)
        | inr (us, g) ↦ absurd (ground arith)
      ]
    ],
    λ e. absurd (ground arith),
  )
  read_queries-map (q ∷ qs) (t ∷ ts) = (
    λ e. elim (Sum-cases (calls.query q)) [
      | inl (x, f) ↦ absurd (ground arith)
      | inr (u, f) ↦ elim (Sum-cases (read_queries calls qs)) [
        | inl (x, g) ↦ absurd (ground arith)
        | inr (us, g) ↦
            let same : us ≡ ts = ground arith in
            let rest = (read_queries-map qs ts).0 (g ∙ ap inr same) in ground arith
      ]
    ],
    λ e.
        let first : calls.query q ≡ inr t = ground arith in
        let more : map calls.query qs ≡ map inr ts = ground arith in
        let rest = (read_queries-map qs ts).1 more in ground arith,
  )

  -- The request that a body holds.
  unfoldable pub request_of : Option B → Option (List Q)
  request_of none = none
  request_of (some compressed) = elim (calls.decode compressed) [
    | none ↦ none
    | some text ↦ calls.unmarshal text
  ]

  -- What a request is owed: the marshalled results of all its queries, if they can be had.
  unfoldable pub answer_of : List Q → Option B
  unfolding read_queries
  answer_of queries = elim (read_queries calls queries) [
    | inl e ↦ none
    | inr results ↦ elim (calls.marshal results) [
      | none ↦ none
      | some text ↦ some (calls.encode text)
    ]
  ]

  -- Of so many queries: what was written is what is owed, or the queries count as failed.
  unfoldable pub IsDelivered : List Q → Option B → ℕ → ℕ → ℕ → Type 0
  IsDelivered queries (some b) status failed failed' =
      (status ≡ 200) × (answer_of queries ≡ some b) × (calls.write b ≡ true) × (failed' ≡ failed)
  IsDelivered queries none status failed failed' = failed' ≡ failed + length queries

  unfoldable pub IsRead : Option (List Q) → Counters → ReadResponse B × Counters → Type 0
  IsRead none c (response, c') = (response ≡ record { status = 400; body = none }) × (c' ≡ c)
  IsRead (some queries) c (response, c') =
      (c'.received ≡ c.received + length queries)
      × IsDelivered queries response.body response.status c.failed c'.failed

  answer_queries-IsRead :
      (queries : List Q) (c : Counters) → IsRead (some queries) c (answer_queries calls queries c)
  unfolding answer_queries answer_of fail IsRead IsDelivered
  answer_queries-IsRead queries c =
      let c' = record c { received = c.received + length queries } in
      let failed_with : ℕ → ReadResponse B × Counters =
        λ status. fail calls status (length queries) c' in
      elim (Sum-cases (read_queries calls queries)) [
        | inl (x, g) ↦
            let q : answer_queries calls queries c ≡ failed_with 500 = ground arith in
            subst (IsRead (some queries) c) (sym q) (refl, refl)
        | inr (results, g) ↦ elim (Option-cases (calls.marshal results)) [
          | inl h ↦
              let q : answer_queries calls queries c ≡ failed_with 500 = ground arith in
              subst (IsRead (some queries) c) (sym q) (refl, refl)
          | inr (t, h) ↦ elim (Bool-cases (calls.write (calls.encode t))) [
            | inl k ↦
                let b = calls.encode t in
                let sent : ReadResponse B × Counters =
                  (record { status = 200; body = some b }, c') in
                let q : answer_queries calls queries c ≡ sent = ground arith in
                let owed : answer_of queries ≡ some b = ground arith in
                subst (IsRead (some queries) c) (sym q) (refl, (refl, owed, k, refl))
            | inr k ↦
                let q : answer_queries calls queries c ≡ failed_with 200 = ground arith in
                subst (IsRead (some queries) c) (sym q) (refl, refl)
          ]
        ]
      ]

  -- A remote-read request that cannot be read and parsed gets 400 and is not counted; of any other
  -- the queries count as received, and either the marshalled results of all its queries are written
  -- with status 200, or its queries count as failed.
  pub read-IsRead :
      (body : Option B) (c : Counters) → IsRead (request_of body) c (read calls body c)
  unfolding read request_of
  read-IsRead none c = unfold IsRead in (refl, refl)
  read-IsRead (some compressed) c =
      let bad : ReadResponse B × Counters = (record { status = 400; body = none }, c) in
      let refused : IsRead none c bad = unfold IsRead in (refl, refl) in
      let both =
        λ (r : Option (List Q)) (out : ReadResponse B × Counters)
            (e : request_of (some compressed) ≡ r) (f : read calls (some compressed) c ≡ out)
            (h : IsRead r c out).
          subst (λ x. IsRead x c (read calls (some compressed) c)) (sym e)
            (subst (IsRead r c) (sym f) h) in
      elim (Option-cases (calls.decode compressed)) [
        | inl e ↦ both none bad (ground arith) (ground arith) refused
        | inr (text, e) ↦ elim (Option-cases (calls.unmarshal text)) [
          | inl f ↦ both none bad (ground arith) (ground arith) refused
          | inr (queries, f) ↦
              both (some queries) (answer_queries calls queries c) (ground arith) (ground arith)
                (answer_queries-IsRead queries c)
        ]
      ]
