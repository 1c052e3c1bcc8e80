-- ===== src/Council/Ballots.antt =====
-- What `vote` and `propose` accept and refuse, and what they change.
use agent_city.Prelude.{
  ◌≡◌, ◌↔◌, sym, ap, ◌∙◌, String, true, false, Option, none, some, List, [], ◌∷◌, ◌++◌, ◌&&◌, arith,
  eq_iff, if◌then◌else◌,
}
use agent_city.Prelude.Dict.{lookup-insert}
use agent_city.Prelude.Key.{◌==◌, text_key, ==-refl}
use agent_city.Council.{
  Council, Proposal, marketplace, VoteRecord, still_open, is_member, is_mayor, get_proposal,
}
use agent_city.Council.Proposals.{
  Verifier, Ballot, Router, Request, vote, propose, admits, is_signed, has_voted, vote_record,
  with_vote, proposal_id, new_proposal,
}
use agent_city.Council.Proposals.Fates.{is_some, get-propose}

module _ (service : Option Verifier) (b : Ballot) (c : Council) (p : Proposal) where
  -- A vote on a stored proposal is recorded exactly if the proposal is open, the voter holds a seat
  -- and has not voted on it, and its signature holds where there is one to check; a recorded vote
  -- stands, with its voter, choice and weight, behind the others in the stored proposal, which is otherwise
  -- the same but for its seal, and every other proposal stays as it was; a refused vote changes nothing.
  pub vote_recorded_iff :
      get_proposal c b.proposal_id ≡ some p
      → (((vote service b c).1 ≡ true) ↔ (
          (p.status ≡ still_open)
          × (is_member c b.voter ≡ true)
          × (has_voted b.voter p.votes ≡ false)
          × (is_signed service b ≡ true)))
        × ((vote service b c).1 ≡ true
            → get_proposal (vote service b c).0 b.proposal_id
              ≡ some (record p {
                votes =
                    p.votes
                    ++ record { voter = b.voter; choice = b.choice; prana_weight = b.prana_weight }
                      ∷ [];
                result_hash = "";
              }))
        × ((other : String)
            → (b.proposal_id == other) ≡ false
            → get_proposal (vote service b c).0 other ≡ get_proposal c other)
        × ((vote service b c).1 ≡ false → (vote service b c).0 ≡ c)
  unfolding vote get_proposal admits
  vote_recorded_iff found = (
    ground arith,
    ground (
      arith,
      lookup-insert b.proposal_id b.proposal_id (with_vote b p) c.proposals,
      ==-refl b.proposal_id,
    ),
    λ other apart.
        ground (arith, lookup-insert b.proposal_id other (with_vote b p) c.proposals, apart),
    ground arith,
  )

has_voted-append :
    (name : String) (votes : List VoteRecord) (v : VoteRecord)
    → v.voter ≡ name
    → has_voted name (votes ++ v ∷ []) ≡ true
unfolding has_voted
has_voted-append name [] v e = ground (arith, eq_iff v.voter name)
has_voted-append name (w ∷ votes) v e = ground (arith, has_voted-append name votes v e)

found_if_recorded :
    (service : Option Verifier) (b : Ballot) (c : Council)
    → (vote service b c).1 ≡ true
    → (p : Proposal) × (get_proposal c b.proposal_id ≡ some p)
unfolding vote get_proposal
found_if_recorded service b c h = ground arith

refused_if_voted :
    (service : Option Verifier) (b : Ballot) (c : Council) (p : Proposal)
    → get_proposal c b.proposal_id ≡ some p
    → has_voted b.voter p.votes ≡ true
    → vote service b c ≡ (c, false)
unfolding vote get_proposal admits
refused_if_voted service b c p found voted = ground arith

-- Once a vote is recorded, another vote of the same voter on the same proposal is refused and changes
-- nothing, whatever its choice, weight and signature, and whoever checks it.
pub second_vote_refused :
    (service service' : Option Verifier) (b b' : Ballot) (c : Council)
    → (vote service b c).1 ≡ true
    → b'.proposal_id ≡ b.proposal_id
    → b'.voter ≡ b.voter
    → vote service' b' (vote service b c).0 ≡ ((vote service b c).0, false)
second_vote_refused service service' b b' c recorded same_proposal same_voter =
    let (p, found) = found_if_recorded service b c recorded in
    let stored = (vote_recorded_iff service b c p found).1 recorded in
    let there = ap (get_proposal (vote service b c).0) same_proposal ∙ stored in
    refused_if_voted service' b' (vote service b c).0 (with_vote b p) there
      (has_voted-append b'.voter p.votes (vote_record b) (sym same_voter))

-- A proposal is accepted exactly if its proposer holds a seat and, where it concerns the market, is
-- the mayor; a refused one changes nothing; an accepted one is returned and stored under the next id,
-- and every other proposal stays as it is.
pub propose_accepted_iff :
    (route : Router) (r : Request) (c : Council)
    → (((propose route r c).1 ≡ some (new_proposal route c.next_proposal_num r)) ↔ (
        (is_member c r.proposer ≡ true)
        × (r.proposal_type ≡ marketplace → is_mayor c r.proposer ≡ true)))
      × ((propose route r c).1 ≡ none → (propose route r c).0 ≡ c)
      × ((other : String)
          → get_proposal (propose route r c).0 other ≡ (
              if is_some (propose route r c).1 && (proposal_id c.next_proposal_num == other)
              then (propose route r c).1
              else get_proposal c other))
unfolding propose
propose_accepted_iff route r c =
    (ground arith, ground arith, λ other. ground (arith, get-propose other c route r))
