-- ===== src/Election/Rest.antt =====
-- pkg/util/election.go: what the REST endpoint of the leader election does to the flag.
use timescale_prometheus.Prelude.Bytes.{Bytes}
use timescale_prometheus.Prelude.Int.{ℤ, pos, negsuc}
use timescale_prometheus.Prelude.{
  ◌>>=◌, Option-cases, zero, suc, ◌≡◌, refl, ap, ◌∙◌, inl, inr, Bool, true, false, Option, none,
  some, List, [], ◌∷◌, arith,
}
use timescale_prometheus.Election.{
  rest_become_leader, rest_resign, atoi, Request, get, put, other, answer, bad_request, set_leader,
  handle_leader,
}

-- What a number in a request's body wants the flag to be.
unfoldable pub wanted : ℤ → Option Bool
wanted (pos zero) = some false
wanted (pos (suc zero)) = some true
wanted _ = none

unfoldable pub body_wanted : Bytes → Option Bool
body_wanted body = do flag ← atoi body; wanted flag

unfoldable pub request_wanted : Request → Option Bool
request_wanted (put (some body)) = body_wanted body
request_wanted _ = none

set_leader-wanted :
    (flag : ℤ) (leader : Bool)
    → set_leader flag leader
      ≡ elim (wanted flag) [ none ↦ (bad_request, leader) | some b ↦ (answer true, b) ]
unfolding set_leader wanted rest_become_leader rest_resign
set_leader-wanted (pos zero) true = refl
set_leader-wanted (pos zero) false = refl
set_leader-wanted (pos (suc zero)) true = refl
set_leader-wanted (pos (suc zero)) false = refl
set_leader-wanted (pos (suc (suc n))) leader = refl
set_leader-wanted (negsuc n) leader = refl

handle_leader_put :
    (body : Bytes) (leader : Bool)
    → handle_leader (put (some body)) leader
      ≡ elim (body_wanted body) [ none ↦ (bad_request, leader) | some b ↦ (answer true, b) ]
unfolding handle_leader body_wanted
handle_leader_put body leader = elim (Option-cases (atoi body)) [
  | inl e ↦ ground arith
  | inr (flag, e) ↦ let w = set_leader-wanted flag leader in ground arith
]

-- `handleLeader` on one request after another.
unfoldable pub serve : List Request → Bool → Bool
unfolding handle_leader
serve [] leader = leader
serve (r ∷ rs) leader = serve rs (handle_leader r leader).1

-- The last flag that the requests want, or the given one.
unfoldable pub last_wanted : List Request → Bool → Bool
unfolding request_wanted
last_wanted [] leader = leader
last_wanted (r ∷ rs) leader =
    last_wanted rs (elim (request_wanted r) [ none ↦ leader | some b ↦ b ])

handle_leader_flag :
    (r : Request) (leader : Bool)
    → (handle_leader r leader).1 ≡ elim (request_wanted r) [ none ↦ leader | some b ↦ b ]
unfolding handle_leader request_wanted
handle_leader_flag get leader = refl
handle_leader_flag other leader = refl
handle_leader_flag (put none) leader = refl
handle_leader_flag (put (some body)) leader =
    let e = handle_leader_put body leader in
    elim (Option-cases (body_wanted body)) [ inl w ↦ ground arith | inr (b, w) ↦ ground arith ]

-- After any sequence of requests to the endpoint, the leader flag is what the last PUT of a body
-- that reads as 0 or 1 set, or the initial flag when there is none.
pub serve_last : (rs : List Request) (leader : Bool) → serve rs leader ≡ last_wanted rs leader
unfolding serve last_wanted
serve_last [] leader = refl
serve_last (r ∷ rs) leader = ap (serve rs) (handle_leader_flag r leader) ∙ serve_last rs _
