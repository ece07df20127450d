-- ===== src/Election/Silence.antt =====
-- pkg/util/election.go: an elector whose Prometheus is silent.
use timescale_prometheus.Prelude.Int.{ℤ, ltb_ℤ}
use timescale_prometheus.Prelude.{◌≡◌, true, List, [], ◌∷◌, arith, if◌then◌else◌, ◌&&◌, ◌||◌, not}
use timescale_prometheus.Election.{
  Election, Elector, pause, resume, is_leader, resign, prometheus_liveness_check,
  scheduled_election,
}

-- What happens to an elector: the ticker fires, or the liveness check runs with the time elapsed
-- since the last request and the timeout.
pub data Event : Type 0 where
  tick : Event
  check : ℤ → ℤ → Event

-- The Prometheus of a silent event has sent nothing for longer than the timeout.
unfoldable pub IsSilent : Event → Type 0
IsSilent tick = true ≡ true
IsSilent (check elapsed timeout) = ltb_ℤ timeout elapsed ≡ true

module _ {S E : Type 0} (api : Election S E) where
  unfoldable pub react : Event → Elector S → Elector S
  react tick se = scheduled_election api se
  react (check elapsed timeout) se = prometheus_liveness_check api elapsed timeout se

  unfoldable pub react_all : List Event → Elector S → Elector S
  react_all [] se = se
  react_all (e ∷ es) se = react_all es (react e se)

  -- The election after it was asked who leads, given up if the answer is this instance.
  unfoldable pub give_up : S → S
  give_up s = let (leader, _, s') = api.is_leader s in if leader then (api.resign s').1 else s'

  -- The election after every check of some events gave it up.
  unfoldable pub give_up_at : List Event → S → S
  give_up_at [] s = s
  give_up_at (tick ∷ es) s = give_up_at es s
  give_up_at (check elapsed timeout ∷ es) s = give_up_at es (give_up s)

  -- The liveness check makes the election resign if it leads and the time since the last request
  -- exceeds the timeout, and otherwise only asks it; it pauses the scheduled election exactly then,
  -- and resumes it exactly if it does not lead and that time is below the timeout.
  pub liveness_check_effect :
      (elapsed timeout : ℤ) (se : Elector S)
      → let (leader, _, s) = api.is_leader se.election in
        let stops = leader && ltb_ℤ timeout elapsed in
        let goes = not leader && ltb_ℤ elapsed timeout in
        prometheus_liveness_check api elapsed timeout se ≡ record {
          election = if stops then (api.resign s).1 else s;
          paused = stops || (se.paused && not goes);
        }
  unfolding prometheus_liveness_check is_leader resign pause resume
  liveness_check_effect elapsed timeout se = ground arith
