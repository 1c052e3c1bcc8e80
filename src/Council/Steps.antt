-- ===== src/Council/Steps.antt =====
-- The council as a state machine: one step is one call of an operation, with any arguments and any
-- answer of the router and of the identity service.
pub mod Fate
pub mod Valid
use agent_city.Prelude.{ℕ, String, List, Option, Bool}
use agent_city.Prelude.Dict.{Dict}
use agent_city.Prelude.Json.{Json}
use agent_city.Prelude.{◌≡◌}
use agent_city.Council.{Council}
use agent_city.Council.Election.{Candidate, run_election}
use agent_city.Council.Market.{apply_marketplace_action, returns}
use agent_city.Council.Proposals.{
  TallyData, Verifier, Router, Request, Ballot, propose, vote, tally, mark_executed,
  expire_proposals,
}

pub data Step (c : Council) : Council → Type 0 where
  elect : (cs : List Candidate) (h : ℕ) → Step c (run_election cs h c).0
  submit : (route : Router) (r : Request) → Step c (propose route r c).0
  cast : (service : Option Verifier) (b : Ballot) → Step c (vote service b c).0
  count : (seal : TallyData → String) (pid : String) → Step c (tally seal pid c).0
  execute : (pid : String) → Step c (mark_executed pid c)
  expire : (h : ℕ) → Step c (expire_proposals h c).0
  trade :
      (action : Dict String Json) (done : Bool) (c' : Council)
      → apply_marketplace_action action c ≡ returns done c'
      → Step c c'

pub data Reach (c : Council) : Council → Type 0 where
  here : Reach c c
  next : {d e : Council} → Reach c d → Step d e → Reach c e
