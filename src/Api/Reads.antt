-- ===== src/Api/Reads.antt =====
-- pkg/api/read.go and pkg/pgmodel/querier.go: the handler of remote-read requests. Decompression, parsing,
-- marshalling, the query of the reader and the writer are parameters.
pub mod Delivery
use mathlib.Core.Path.{subst}
use timescale_prometheus.Prelude.{
  ℕ, ◌+◌, ◌≡◌, ◌↔◌, refl, ap, sym, ◌∙◌, Bool, true, ◌⊎◌, inl, inr, Option, none, some, List, [],
  ◌∷◌, if◌then◌else◌, length, map, arith, Sum-cases, Option-cases, Bool-cases,
}

-- `B` are bodies, `Q` queries, `T` lists of time series.
pub record ReadCalls (B Q T E : Type 0) : Type 0 where
  pub decode : B → Option B
  pub unmarshal : B → Option (List Q)
  pub query : Q → E ⊎ T
  pub marshal : List T → Option B
  pub encode : B → B
  pub write : B → Bool

-- `ReceivedQueries` and `FailedQueries`
pub record Counters : Type 0 where
  pub received : ℕ
  pub failed : ℕ

-- The status of the response, and the body that was written to it. A status after a body that cannot be
-- written comes too late.
pub record ReadResponse (B : Type 0) : Type 0 where
  pub status : ℕ
  pub body : Option B

module _ {B Q T E : Type 0} (calls : ReadCalls B Q T E) where
  -- `DBReader.Read`
  unfoldable pub read_queries : List Q → E ⊎ List T
  read_queries [] = inr []
  read_queries (q ∷ qs) =
      let rest = read_queries qs in
      elim (calls.query q) [
        | inl e ↦ inl e
        | inr t ↦ elim rest [ inl e ↦ inl e | inr ts ↦ inr (t ∷ ts) ]
      ]

  unfoldable pub fail : ℕ → ℕ → Counters → ReadResponse B × Counters
  fail status count c =
      (record { status = status; body = none }, record c { failed = c.failed + count })

  -- The handler once the request is parsed.
  unfoldable pub answer_queries : List Q → Counters → ReadResponse B × Counters
  unfolding read_queries fail
  answer_queries queries c =
      let count = length queries in
      let c' = record c { received = c.received + count } in
      elim (read_queries queries) [
        | inl e ↦ fail 500 count c'
        | inr results ↦ elim (calls.marshal results) [
          | none ↦ fail 500 count c'
          | some text ↦
              let compressed = calls.encode text in
              if calls.write compressed
              then (record { status = 200; body = some compressed }, c')
              else fail 200 count c'
        ]
      ]

  -- `Read`, for a body that may fail to be read.
  unfoldable pub read : Option B → Counters → ReadResponse B × Counters
  unfolding answer_queries
  read body c =
      let bad_request : ReadResponse B × Counters = (record { status = 400; body = none }, c) in
      elim body [
        | none ↦ bad_request
        | some compressed ↦ elim (calls.decode compressed) [
          | none ↦ bad_request
          | some text ↦ elim (calls.unmarshal text) [
            | none ↦ bad_request
            | some queries ↦ answer_queries queries c
          ]
        ]
      ]
