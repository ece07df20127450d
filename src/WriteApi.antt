-- ===== src/WriteApi.antt =====
-- pkg/api/write.go: the handler of remote-write requests. Reading, decompressing and parsing the body,
-- and the inserter are parameters; metrics but the time of the last request are left out.
pub mod Followers
use timescale_prometheus.Prelude.Int.{ℤ}
use timescale_prometheus.Election.{Election}
use timescale_prometheus.Prelude.{
  Bool, true, false, Option, none, some, List, [], ◌∷◌, if◌then◌else◌, is_some,
}

-- What the handler calls: `B` are bodies as they are read, `T` the time series that they hold. `decode` is
-- `snappy.Decode`, `unmarshal` is `proto.Unmarshal`, `ingest` is `Ingest` of the inserter on its state.
pub record Calls (B T I E : Type 0) : Type 0 where
  pub decode : B → Option B
  pub unmarshal : B → Option T
  pub ingest : T → I → Option E × I

-- The state: the election, if there is one, the inserter, and `LastRequestUnixNano`.
pub record Server (S I : Type 0) : Type 0 where
  pub election : Option S
  pub inserter : I
  pub last_request : ℤ

-- A request, whose body may fail to be read, at a time.
pub record WriteRequest (B : Type 0) : Type 0 where
  pub body : Option B
  pub time : ℤ

-- The status of the response; `ignored` is the empty response of an instance that does not lead.
pub data Status : Type 0 where
  ok ignored bad_request internal_server_error : Status

module _ {S I E B T : Type 0} (api : Election S E) (calls : Calls B T I E) where
  -- `isWriter`
  unfoldable pub is_writer : Server S I → Bool × Option E × Server S I
  is_writer s = elim s.election [
    | none ↦ (true, none, s)
    | some e ↦
        let (should_write, err, e') = api.is_leader e in
        (should_write, err, record s { election = some e' })
  ]

  -- The handler once the body is decompressed and parsed.
  unfoldable pub ingest_body : Server S I → B → Status × Server S I
  ingest_body s body = elim (calls.decode body) [
    | none ↦ (bad_request, s)
    | some text ↦ elim (calls.unmarshal text) [
      | none ↦ (bad_request, s)
      | some series ↦
          let (err, inserter) = calls.ingest series s.inserter in
          let s' = record s { inserter = inserter } in
          if is_some err then (internal_server_error, s') else (ok, s')
    ]
  ]

  -- The handler once the instance is known to be a writer.
  unfoldable pub write_body : Server S I → WriteRequest B → Status × Server S I
  unfolding ingest_body
  write_body s request = elim request.body [
    | none ↦ (internal_server_error, s)
    | some body ↦ ingest_body (record s { last_request = request.time }) body
  ]

  -- `Write`
  unfoldable pub write : Server S I → WriteRequest B → Status × Server S I
  unfolding is_writer write_body
  write s request =
      let (should_write, err, s') = is_writer s in
      if is_some err
      then (ignored, s')
      else if should_write
      then write_body s' request
      else (ignored, s')

  unfoldable pub write_all : Server S I → List (WriteRequest B) → Server S I
  unfolding write
  write_all s [] = s
  write_all s (r ∷ rs) = write_all (write s r).1 rs
