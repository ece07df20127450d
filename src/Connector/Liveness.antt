-- ===== src/Connector/Liveness.antt =====
-- cmd/timescale-prometheus/main.go: the liveness check looks at the time of the start only.
use timescale_prometheus.Prelude.Int.{ℤ, ◌-ℤ◌, ltb_ℤ}
use timescale_prometheus.Election.{Election, Elector, prometheus_liveness_check, scheduled_election}
use timescale_prometheus.Election.Silence.{liveness_check_effect}
use timescale_prometheus.WriteApi.{Calls}
use timescale_prometheus.Connector.{
  Connector, Event, request, tick, check, start, on_elector, react, react_all,
}
use timescale_prometheus.Prelude.{
  ◌≡◌, refl, ◌∙◌, true, some, List, [], ◌∷◌, arith, inl, inr, Option-cases,
}

module _ {S I E B T : Type 0} (api : Election S E) (calls : Calls B T I E) where
  on_elector-last :
      (change : Elector S → Elector S) (c : Connector S I)
      → (on_elector api calls change c).last_request_unix_nano ≡ c.last_request_unix_nano
  unfolding on_elector
  on_elector-last change c = elim (Option-cases c.server.election) [
    | inl e ↦ ground arith
    | inr (s, e) ↦ ground arith
  ]

  react_all-last :
      (timeout : ℤ) (es : List (Event B)) (c : Connector S I)
      → (react_all api calls timeout es c).last_request_unix_nano ≡ c.last_request_unix_nano
  unfolding react_all react
  react_all-last timeout [] c = refl
  react_all-last timeout (request r ∷ es) c =
      react_all-last timeout es (react api calls timeout (request r) c)
  react_all-last timeout (tick ∷ es) c =
      react_all-last timeout es (react api calls timeout tick c)
      ∙ on_elector-last (scheduled_election api) c
  react_all-last timeout (check now ∷ es) c =
      react_all-last timeout es (react api calls timeout (check now) c)
      ∙ on_elector-last (prometheus_liveness_check api (now -ℤ c.last_request_unix_nano) timeout) c

  -- Whatever write requests, ticks and liveness checks come after the start: once the time since
  -- the start exceeds the timeout, a liveness check makes a leader resign and pauses the scheduled
  -- election, however recent the last request is.
  pub react_all-resigns :
      (timeout now later : ℤ) (election : S) (inserter : I) (es : List (Event B)) (s : S)
      → ltb_ℤ timeout (later -ℤ now) ≡ true
      → (react_all api calls timeout es (start api calls now election inserter)).server.election
        ≡ some s
      → (api.is_leader s).0 ≡ true
      → let c = react_all api calls timeout es (start api calls now election inserter) in
        let c' = react api calls timeout (check later) c in
        (c'.paused ≡ true) × (c'.server.election ≡ some (api.resign (api.is_leader s).2).1)
  unfolding react
  react_all-resigns timeout now later election inserter es s over has leads =
      let c = react_all api calls timeout es (start api calls now election inserter) in
      let last : c.last_request_unix_nano ≡ now =
        react_all-last timeout es (start api calls now election inserter)
        ∙ (unfold start in refl) in
      let effect =
        liveness_check_effect api (later -ℤ now) timeout
          (record { election = s; paused = c.paused }) in
      rw (react, on_elector, has, last, effect, leads, over) (refl, refl)
