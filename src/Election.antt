-- ===== src/Election.antt =====
-- pkg/util/election.go: the elector over any election, the scheduled elector with its liveness check,
-- and the election over REST. Logging is left out. A method of an election takes the election's state
-- and returns its answer, its error, if any, and the new state.
pub mod Silence
pub mod Rest
use timescale_prometheus.Prelude.Bytes.{Bytes}
use timescale_prometheus.Prelude.Int.{ℤ, pos, negsuc, ltb_ℤ}
use timescale_prometheus.Prelude.{
  is_some, ℕ, zero, suc, ◌+◌, ◌-◌, ◌*◌, ◌/◌, ◌%◌, ◌≤◌, ◌<◌, ◌≡◌, refl, sym, ap, ap₂, ◌∙◌, ◌≢◌, ◌↔◌,
  ◌⊎◌, inl, inr, ite, if_pos, if_neg, Bool, true, false, not, ◌&&◌, ◌||◌, Option, none, some, List,
  [], ◌∷◌, ◌++◌, arith, ltb, leb, ◌==◌, if◌then◌else◌, length, get_elem?, set, take, drop, map, All,
  Option-cases, Bool-cases, length-append, append_assoc, append-nil, drop_cons, drop_nil, drop_add,
  length-drop, get_elem?_of_lt,
}

-- `Election`; `E` are its errors.
pub record Election (S E : Type 0) : Type 0 where
  pub id : S → Bytes
  pub become_leader : S → Bool × Option E × S
  pub is_leader : S → Bool × Option E × S
  pub resign : S → Option E × S

-- `ScheduledElector`: the state of its election, and whether the scheduled election is paused.
pub record Elector (S : Type 0) : Type 0 where
  pub election : S
  pub paused : Bool

module _ {S E : Type 0} (api : Election S E) where
  unfoldable pub pause : Elector S → Elector S
  pause se = record se { paused = true }

  unfoldable pub resume : Elector S → Elector S
  resume se = record se { paused = false }

  unfoldable pub is_leader : Elector S → Bool × Option E × Elector S
  is_leader se =
      let (leader, err, s) = api.is_leader se.election in (leader, err, record se { election = s })

  unfoldable pub become_leader : Elector S → Bool × Option E × Elector S
  become_leader se =
      let (leader, err, s) = api.become_leader se.election in
      (leader, err, record se { election = s })

  unfoldable pub resign : Elector S → Option E × Elector S
  resign se = let (err, s) = api.resign se.election in (err, record se { election = s })

  -- `PrometheusLivenessCheck`, where `elapsed` is the time since the last request.
  unfoldable pub prometheus_liveness_check : ℤ → ℤ → Elector S → Elector S
  unfolding is_leader resign pause resume
  prometheus_liveness_check elapsed timeout se =
      let (leader, err, se') = is_leader se in
      if leader
      then (if ltb_ℤ timeout elapsed then (resign (pause se')).1 else se')
      else (if se'.paused && ltb_ℤ elapsed timeout then resume se' else se')

  -- `elect`: `leader` after the calls, and the state.
  unfoldable pub elect : Elector S → Bool × Elector S
  unfolding is_leader become_leader
  elect se =
      let (leader, err, se') = is_leader se in
      let (leader', _, se'') = become_leader se' in
      if is_some err || leader then (leader, se') else (leader', se'')

  -- A tick of `scheduledElection`.
  unfoldable pub scheduled_election : Elector S → Elector S
  unfolding elect
  scheduled_election se = if se.paused then se else (elect se).1

-- `RestElection`: the answers of its methods, which have no errors.
unfoldable pub rest_become_leader : Bool → Bool × Bool
rest_become_leader leader = if leader then (leader, leader) else (true, true)

unfoldable pub rest_resign : Bool → Bool
rest_resign leader = if not leader then leader else false

-- `RestElection` as an `Election`: its state is the flag `leader`.
unfoldable pub rest_election : {E : Type 0} → Election Bool E
unfolding rest_become_leader rest_resign
rest_election = record {
  id = λ s. [];
  become_leader = λ s. ((rest_become_leader s).0, none, (rest_become_leader s).1);
  is_leader = λ s. (s, none, s);
  resign = λ s. (none, rest_resign s);
}

-- `strconv.Atoi`: a sign, and decimal digits within the range of an int64.
unfoldable pub digits_value : ℕ → Bytes → Option ℕ
digits_value acc [] = some acc
digits_value acc (c ∷ cs) =
    let rest = digits_value (acc * 10 + (c - b'0')) cs in
    if leb b'0' c && leb c b'9' then rest else none

unfoldable pub unsigned_value : Bytes → Option ℕ
unsigned_value [] = none
unsigned_value (c ∷ cs) = digits_value 0 (c ∷ cs)

unfoldable pub negate : ℕ → ℤ
negate zero = pos 0
negate (suc n) = negsuc n

unfoldable pub atoi : Bytes → Option ℤ
atoi [] = none
atoi (c ∷ cs) =
    let sign = c == b'-' || c == b'+' in
    elim (unsigned_value (if sign then cs else c ∷ cs)) [
      | none ↦ none
      | some n ↦
          if c == b'-'
          then (if leb n 9223372036854775808 then some (negate n) else none)
          else (if ltb n 9223372036854775808 then some (pos n) else none)
    ]

-- A request to `/admin/election/leader`; the body of a PUT may fail to be read.
pub data Request : Type 0 where
  get : Request
  put : Option Bytes → Request
  other : Request

pub data Response : Type 0 where
  answer : Bool → Response
  bad_request : Response

-- The `switch flag` of a PUT.
unfoldable pub set_leader : ℤ → Bool → Response × Bool
set_leader (pos zero) leader = (answer true, rest_resign leader)
set_leader (pos (suc zero)) leader =
    let (answered, leader') = rest_become_leader leader in (answer answered, leader')
set_leader flag leader = (bad_request, leader)

-- `handleLeader`
unfoldable pub handle_leader : Request → Bool → Response × Bool
handle_leader get leader = (answer leader, leader)
handle_leader other leader = (bad_request, leader)
handle_leader (put none) leader = (bad_request, leader)
handle_leader (put (some body)) leader = elim (atoi body) [
  | none ↦ (bad_request, leader)
  | some flag ↦ set_leader flag leader
]
