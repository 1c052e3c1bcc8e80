-- ===== src/Council/Proposals.antt =====
-- city/council.py: `propose`, `vote`, `tally`, `mark_executed` and `expire_proposals`.
pub mod Tally
pub mod Fates
use Prim.Native.String.{◌++◌ as join}
use agent_city.Prelude.{
  ℕ, ◌+◌, ◌*◌, String, Bool, true, false, not, ◌&&◌, ◌||◌, Option, none, some, List, [], ◌∷◌, ◌++◌,
  ltb, leb, eqb, if◌then◌else◌,
}
use agent_city.Prelude.Dict.{Dict, lookup, insert}
use agent_city.Prelude.Key.{◌==◌, text_key}
use agent_city.Prelude.Json.{Json}
use agent_city.Prelude.Texts.{zero_padded}
use agent_city.Council.{
  Council, Proposal, ProposalType, marketplace, ProposalStatus, still_open, passed, rejected,
  executed, expired, VoteChoice, voted_yes, voted_no, abstain, VoteRecord, threshold, is_open,
  is_passed, is_member, is_mayor, trinity, proposal_expiry_heartbeats,
}

-- `f"GOV-{n:04d}"`
unfoldable pub proposal_id : ℕ → String
proposal_id n = join "GOV-" (zero_padded 4 n)

is_marketplace : ProposalType → Bool
is_marketplace marketplace = true
is_marketplace _ = false

-- The guardian router's best route for a title; `none` where it has no route or raises.
abbrev pub Router : Type 0
Router = String → Option (String × ℕ)

route_name : Option (String × ℕ) → String
route_name none = ""
route_name (some (name, score)) = name

route_score : Option (String × ℕ) → ℕ
route_score none = 0
route_score (some (name, score)) = score

-- The arguments of `propose`.
pub record Request : Type 0 where
  pub title : String
  pub description : String
  pub proposer : String
  pub proposal_type : ProposalType
  pub action : Dict String Json
  pub timestamp : ℕ
  pub heartbeat : ℕ

unfoldable pub new_proposal : Router → ℕ → Request → Proposal
unfolding route_name route_score
new_proposal route n r =
    let best = route r.title in
    record {
      id = proposal_id n;
      title = r.title;
      description = r.description;
      proposer = r.proposer;
      proposal_type = r.proposal_type;
      action = r.action;
      guardian_route = route_name best;
      route_score = route_score best;
      submitted_at = r.timestamp;
      submitted_heartbeat = r.heartbeat;
      status = still_open;
      votes = [];
      result_hash = "";
    }

unfoldable pub propose : Router → Request → Council → Council × Option Proposal
unfolding is_marketplace
propose route r c =
    if not (is_member c r.proposer)
    then (c, none)
    else if is_marketplace r.proposal_type && not (is_mayor c r.proposer)
    then (c, none)
    else let p = new_proposal route c.next_proposal_num r in
      (
        record c {
          next_proposal_num = c.next_proposal_num + 1;
          proposals = insert (proposal_id c.next_proposal_num) p c.proposals;
        },
        some p,
      )

-- `voter in {v["voter"] for v in votes}`
unfoldable pub has_voted : String → List VoteRecord → Bool
has_voted name [] = false
has_voted name (v ∷ votes) = v.voter == name || has_voted name votes

choice_value : VoteChoice → String
choice_value voted_yes = "yes"
choice_value voted_no = "no"
choice_value abstain = "abstain"

-- `identity_service.verify_agent`: the voter, the payload, and the signature.
abbrev pub Verifier : Type 0
Verifier = String → String → String → Bool

-- A vote is checked if it has a signature and there is a service to check it.
signature_holds : Option Verifier → String → String → Option String → Bool
signature_holds (some verify) voter payload (some signature) = verify voter payload signature
signature_holds (some verify) voter payload none = true
signature_holds none voter payload _ = true

-- The arguments of `vote`.
pub record Ballot : Type 0 where
  pub proposal_id : String
  pub voter : String
  pub choice : VoteChoice
  pub prana_weight : ℕ
  pub signature : Option String

payload : Ballot → String
unfolding choice_value
payload b = join b.proposal_id (join ":" (join b.voter (join ":" (choice_value b.choice))))

abbrev pub vote_record : Ballot → VoteRecord
vote_record b = record { voter = b.voter; choice = b.choice; prana_weight = b.prana_weight }

abbrev pub with_vote : Ballot → Proposal → Proposal
with_vote b p = record p { votes = p.votes ++ vote_record b ∷ []; result_hash = "" }

unfoldable pub is_signed : Option Verifier → Ballot → Bool
unfolding payload signature_holds
is_signed service b = signature_holds service b.voter (payload b) b.signature

-- The guards of `vote`, once the proposal is found.
unfoldable pub admits : Option Verifier → Council → Ballot → Proposal → Bool
unfolding is_signed
admits service c b p =
    is_open p.status
    && is_member c b.voter
    && not (has_voted b.voter p.votes)
    && is_signed service b

unfoldable pub vote : Option Verifier → Ballot → Council → Council × Bool
vote service b c = elim (lookup b.proposal_id c.proposals) [
  | none ↦ (c, false)
  | some p ↦
      if admits service c b p
      then (record c { proposals = insert b.proposal_id (with_vote b p) c.proposals }, true)
      else (c, false)
]

pub record TallyData : Type 0 where
  pub proposal_id : String
  pub yes_weight : ℕ
  pub no_weight : ℕ
  pub threshold : ℕ
  pub passed : Bool

unfoldable pub weight : Council → VoteRecord → ℕ
weight c v = if is_mayor c v.voter then v.prana_weight * trinity else v.prana_weight

-- The loop of `tally` over the votes.
unfoldable pub count_votes : Council → List VoteRecord → ℕ → ℕ → ℕ × ℕ
count_votes c [] yes_weight no_weight = (yes_weight, no_weight)
count_votes c (v ∷ votes) yes_weight no_weight =
    count_votes c votes (elim v.choice [ voted_yes ↦ yes_weight + weight c v | _ ↦ yes_weight ])
      (elim v.choice [ voted_no ↦ no_weight + weight c v | _ ↦ no_weight ])

-- `seal` is the SHA-256 of the tally data as JSON. The ratio test is written without the division.
unfoldable pub decide_tally : (TallyData → String) → Proposal → ℕ × ℕ → Proposal
decide_tally seal p (yes_weight, no_weight) =
    let wins = ltb (threshold p * (yes_weight + no_weight)) (100 * yes_weight) in
    record p {
      status = if wins then passed else rejected;
      result_hash = seal (record {
        proposal_id = p.id;
        yes_weight = yes_weight;
        no_weight = no_weight;
        threshold = threshold p;
        passed = wins;
      });
    }

abbrev pub total : ℕ × ℕ → ℕ
total (yes_weight, no_weight) = yes_weight + no_weight

unfoldable pub tally : (TallyData → String) → String → Council → Council × Option Proposal
tally seal pid c = elim (lookup pid c.proposals) [
  | none ↦ (c, none)
  | some p ↦
      let count = count_votes c p.votes 0 0 in
      if not (is_open p.status) then (c, none) else if eqb (total count) 0 then (c, some p) else (
        record c { proposals = insert pid (decide_tally seal p count) c.proposals },
        some (decide_tally seal p count),
      )
]

unfoldable pub mark_executed : String → Council → Council
mark_executed pid c = elim (lookup pid c.proposals) [
  | none ↦ c
  | some p ↦
      if is_passed p.status
      then record c { proposals = insert pid (record p { status = executed }) c.proposals }
      else c
]

-- `heartbeat - submitted_heartbeat >= PROPOSAL_EXPIRY_HEARTBEATS`, of an open proposal
abbrev pub is_stale : ℕ → Proposal → Bool
is_stale heartbeat p =
    is_open p.status && leb (p.submitted_heartbeat + proposal_expiry_heartbeats) heartbeat

-- The loop of `expire_proposals`: each entry is written back under its own key.
pub expire_entries : ℕ → Dict String Proposal → Dict String Proposal × ℕ
expire_entries heartbeat [] = ([], 0)
expire_entries heartbeat ((pid, p) ∷ ps) =
    let (rest, count) = expire_entries heartbeat ps in
    if is_stale heartbeat p
    then ((pid, record p { status = expired }) ∷ rest, count + 1)
    else ((pid, p) ∷ rest, count)

unfoldable pub expire_proposals : ℕ → Council → Council × ℕ
unfolding expire_entries
expire_proposals heartbeat c =
    let (rest, count) = expire_entries heartbeat c.proposals in
    (record c { proposals = rest }, count)
