-- ===== src/Council/Steps/Fate.antt =====
-- The life of one proposal under any step: how its status may change, and what never does.
use agent_city.Prelude.{
  ℕ, ◌≡◌, sym, ap, ◌∙◌, String, Bool, true, false, Option, some, arith, ◌&&◌, Bool-cases, inl, inr,
  eq_iff, if◌then◌else◌,
}
use mathlib.Core.Option.{none-ne-some}
use agent_city.Prelude.Key.{◌==◌, text_key}
use agent_city.Council.{
  Council, Proposal, ProposalStatus, still_open, passed, rejected, executed, expired, is_open,
  get_proposal,
}
use agent_city.Council.Election.{run_election}
use agent_city.Council.Market.{market_frame}
use agent_city.Council.Proposals.{
  TallyData, Verifier, Ballot, decide_tally, admits, propose, proposal_id,
}
use agent_city.Council.Proposals.Fates.{
  expire_one, execute_one, tally_one, vote_one, map_option, is_some, get-expire, get-execute,
  get-tally, get-vote, get-propose,
}
use agent_city.Council.Steps.Valid.{IsValid, fresh_id}
use agent_city.Council.Steps.{Step, elect, submit, cast, count, execute, expire, trade}

-- The transitions of one step: an open proposal is decided or expires, a passed one is executed.
abbrev pub may_become : ProposalStatus → ProposalStatus → Bool
may_become still_open executed = false
may_become still_open _ = true
may_become passed passed = true
may_become passed executed = true
may_become rejected rejected = true
may_become executed executed = true
may_become expired expired = true
may_become _ _ = false

pub record Follows (p p' : Proposal) : Type 0 where
  pub status : may_become p.status p'.status ≡ true
  pub id : p'.id ≡ p.id
  pub title : p'.title ≡ p.title
  pub description : p'.description ≡ p.description
  pub proposer : p'.proposer ≡ p.proposer
  pub proposal_type : p'.proposal_type ≡ p.proposal_type
  pub action : p'.action ≡ p.action
  pub submitted_heartbeat : p'.submitted_heartbeat ≡ p.submitted_heartbeat
  pub votes : is_open p.status ≡ false → p'.votes ≡ p.votes
  pub result_hash : is_open p.status ≡ false → p'.result_hash ≡ p.result_hash

Follows-refl : (p : Proposal) → Follows p p
Follows-refl p = ground arith

Follows-expire_one : (h : ℕ) (p : Proposal) → Follows p (expire_one h p)
Follows-expire_one h p = ground arith

Follows-execute_one : (p : Proposal) → Follows p (execute_one p)
Follows-execute_one p = ground arith

Follows-tally_one :
    (seal : TallyData → String) (c : Council) (p : Proposal) → Follows p (tally_one seal c p)
unfolding decide_tally
Follows-tally_one seal c p = ground arith

Follows-vote_one :
    (service : Option Verifier) (c : Council) (b : Ballot) (p : Proposal)
    → Follows p (vote_one service c b p)
unfolding admits
Follows-vote_one service c b p = ground arith

module _ (f : Proposal → Proposal) (fate : (p : Proposal) → Follows p (f p)) where
  -- An operation that applies `f` at one key, or at every key.
  followed :
      (at_key : Bool) (o o' : Option Proposal)
      → o' ≡ (if at_key then map_option f o else o)
      → (p : Proposal) → o ≡ some p
      → (p' : Proposal) × (o' ≡ some p') × Follows p p'
  followed true o o' e p found = (f p, e ∙ ap (map_option f) found, fate p)
  followed false o o' e p found = (p, e ∙ found, Follows-refl p)

second_holds : (a b : Bool) → (a && b) ≡ true → b ≡ true
second_holds a b h = ground arith

-- From a valid council, whatever the operation, a stored proposal stays stored under its id; its
-- status changes only from open to passed, rejected or expired, and from passed to executed; its text
-- never changes; and once it is not open its votes and its seal do not change.
pub Step-Follows :
    {c c' : Council} (pid : String) (p : Proposal)
    → IsValid c
    → Step c c'
    → get_proposal c pid ≡ some p
    → (p' : Proposal) × (get_proposal c' pid ≡ some p') × Follows p p'
Step-Follows {c} pid p v (elect cs h) found =
    (p, unfold run_election get_proposal in found, Follows-refl p)
Step-Follows {c} pid p v (submit route r) found =
    elim (Bool-cases (is_some (propose route r c).1 && (proposal_id c.next_proposal_num == pid))) [
      | inl taken ↦ absurd (
          none-ne-some p (
            sym (fresh_id c v.entries)
            ∙ ap (get_proposal c) ((eq_iff _ pid).0 (second_holds _ _ taken))
            ∙ found))
      | inr free ↦ (p, rw (get-propose pid c route r, free) found, Follows-refl p)
    ]
Step-Follows {c} pid p v (cast service b) found =
    followed (vote_one service c b) (Follows-vote_one service c b) _ _ _ (get-vote pid c service b)
      p found
Step-Follows {c} pid p v (count seal k) found =
    followed (tally_one seal c) (Follows-tally_one seal c) _ _ _ (get-tally pid c seal k) p found
Step-Follows {c} pid p v (execute k) found =
    followed execute_one Follows-execute_one _ _ _ (get-execute pid c k) p found
Step-Follows {c} pid p v (expire h) found =
    followed (expire_one h) (Follows-expire_one h) true _ _ (get-expire h pid c) p found
Step-Follows {c} pid p v (trade action done c' h) found =
    (p, unfold get_proposal in rw (market_frame action done c c' h).2 found, Follows-refl p)
