-- ===== src/Tests/ConnectorTests.antt =====
-- Runs and instances for cmd/timescale-prometheus/main.go.
use timescale_prometheus.Prelude.Int.{pos, ◌-ℤ◌}
use timescale_prometheus.Prelude.{ℕ, suc, ◌≡◌, refl, Bool, true, none, some, List, [], ◌∷◌}
use timescale_prometheus.Election.{rest_election, rest_resign}
use timescale_prometheus.WriteApi.{Calls, write, write_body, ingest_body, is_writer}
use timescale_prometheus.Connector.{Connector, Event, request, check, start, react, react_all}
use timescale_prometheus.Connector.Liveness.{react_all-resigns}

abbrev counts : Calls ℕ ℕ ℕ ℕ
counts = record { decode = λ b. some b; unmarshal = λ b. some b; ingest = λ t i. (none, suc i) }

-- A request arrives just before the check.
abbrev busy : List (Event ℕ)
busy = request (record { body = some 7; time = pos 99 }) ∷ []

abbrev after_request : Connector Bool ℕ
after_request =
    react_all (rest_election {E = ℕ}) counts (pos 5) busy
      (start (rest_election {E = ℕ}) counts (pos 0) true 0)

react_all-resigns_example :
    let c' = react (rest_election {E = ℕ}) counts (pos 5) (check (pos 100)) after_request in
    (c'.paused ≡ true) × (c'.server.election ≡ some (rest_resign true))
unfolding rest_election ◌-ℤ◌
react_all-resigns_example =
    react_all-resigns (rest_election {E = ℕ}) counts (pos 5) (pos 0) (pos 100) true 0 busy true refl
      (unfold react_all react start write write_body ingest_body is_writer in refl) refl
