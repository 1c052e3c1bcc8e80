-- ===== src/Council/Proposals/Fates.antt =====
-- What each operation does to a stored proposal: the law of each dict update, as seen by a lookup.
use agent_city.Prelude.{
  ℕ, ◌≡◌, refl, String, Bool, true, false, Option, none, some, [], ◌∷◌, arith, not, ◌&&◌, eqb,
  eq_iff, inl, inr, Option-cases, if◌then◌else◌,
}
use agent_city.Prelude.Dict.{Dict, lookup, lookup-insert}
use agent_city.Prelude.Key.{◌==◌, text_key}
use agent_city.Council.{Council, Proposal, executed, expired, is_open, is_passed, get_proposal}
use agent_city.Council.Proposals.{
  TallyData, Verifier, Router, Request, Ballot, propose, vote, tally, mark_executed,
  expire_proposals, expire_entries, is_stale, with_vote, admits, decide_tally, count_votes, total,
  new_proposal, proposal_id,
}

-- What `expire_proposals` makes of one proposal.
abbrev pub expire_one : ℕ → Proposal → Proposal
expire_one heartbeat p = if is_stale heartbeat p then record p { status = expired } else p

abbrev pub map_option : (Proposal → Proposal) → Option Proposal → Option Proposal
map_option f none = none
map_option f (some p) = some (f p)

lookup-expire_entries :
    (h : ℕ) (pid : String) (ps : Dict String Proposal)
    → lookup pid (expire_entries h ps).0 ≡ map_option (expire_one h) (lookup pid ps)
unfolding lookup expire_entries
lookup-expire_entries h pid [] = refl
lookup-expire_entries h pid ((k, p) ∷ ps) = ground (arith, lookup-expire_entries h pid ps)

pub get-expire :
    (h : ℕ) (pid : String) (c : Council)
    → get_proposal (expire_proposals h c).0 pid ≡ map_option (expire_one h) (get_proposal c pid)
unfolding get_proposal expire_proposals
get-expire h pid c = lookup-expire_entries h pid c.proposals

-- What `mark_executed` makes of a proposal.
abbrev pub execute_one : Proposal → Proposal
execute_one p = if is_passed p.status then record p { status = executed } else p

-- What `tally` makes of a proposal.
abbrev pub tally_one : (TallyData → String) → Council → Proposal → Proposal
tally_one seal c p =
    if is_open p.status && not (eqb (total (count_votes c p.votes 0 0)) 0)
    then decide_tally seal p (count_votes c p.votes 0 0)
    else p

-- What `vote` makes of a proposal.
abbrev pub vote_one : Option Verifier → Council → Ballot → Proposal → Proposal
vote_one service c b p = if admits service c b p then with_vote b p else p

abbrev pub is_some : Option Proposal → Bool
is_some none = false
is_some (some p) = true

module _ (pid : String) (c : Council) where
  pub get-execute :
      (k : String)
      → get_proposal (mark_executed k c) pid
        ≡ (if k == pid then map_option execute_one (get_proposal c pid) else get_proposal c pid)
  unfolding get_proposal mark_executed
  get-execute k = elim (Option-cases (lookup k c.proposals)) [
    | inl missing ↦ ground (arith, eq_iff k pid)
    | inr (p, found) ↦
        ground
          (arith, eq_iff k pid, lookup-insert k pid (record p { status = executed }) c.proposals)
  ]

  pub get-tally :
      (seal : TallyData → String) (k : String)
      → get_proposal (tally seal k c).0 pid ≡ (
          if k == pid
          then map_option (tally_one seal c) (get_proposal c pid)
          else get_proposal c pid)
  unfolding get_proposal tally
  get-tally seal k = elim (Option-cases (lookup k c.proposals)) [
    | inl missing ↦ ground (arith, eq_iff k pid)
    | inr (p, found) ↦ ground (
      arith,
      eq_iff k pid,
      lookup-insert k pid (decide_tally seal p (count_votes c p.votes 0 0)) c.proposals,
    )
  ]

  pub get-vote :
      (service : Option Verifier) (b : Ballot)
      → get_proposal (vote service b c).0 pid ≡ (
          if b.proposal_id == pid
          then map_option (vote_one service c b) (get_proposal c pid)
          else get_proposal c pid)
  unfolding get_proposal vote
  get-vote service b = elim (Option-cases (lookup b.proposal_id c.proposals)) [
    | inl missing ↦ ground (arith, eq_iff b.proposal_id pid)
    | inr (p, found) ↦ ground (
      arith,
      eq_iff b.proposal_id pid,
      lookup-insert b.proposal_id pid (with_vote b p) c.proposals,
    )
  ]

  pub get-propose :
      (route : Router) (r : Request)
      → get_proposal (propose route r c).0 pid ≡ (
          if is_some (propose route r c).1 && (proposal_id c.next_proposal_num == pid)
          then some (new_proposal route c.next_proposal_num r)
          else get_proposal c pid)
  unfolding get_proposal propose
  get-propose route r = ground (
    arith,
    lookup-insert (proposal_id c.next_proposal_num) pid (new_proposal route c.next_proposal_num r)
        c.proposals,
  )
