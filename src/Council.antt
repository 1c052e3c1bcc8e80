-- ===== src/Council.antt =====
-- city/council.py: the data of the council, and what its queries read. The operations are in the
-- modules below.
pub mod Election
pub mod Disk
pub mod Proposals
pub mod Market
pub mod Ballots
pub mod Steps
use agent_city.Prelude.{
  ℕ, ◌+◌, ◌*◌, String, ◌≡◌, Bool, true, false, ◌||◌, Option, none, some, List, [], ◌∷◌, leb, keep,
  length, if◌then◌else◌,
}
use agent_city.Prelude.Key.{◌==◌, text_key}
use agent_city.Prelude.Dict.{Dict, lookup}
use agent_city.Prelude.Int.{ℤ, pos, negsuc, ◌-ℤ◌, leb_ℤ}
use agent_city.Prelude.Json.{Json}

-- SHARANAGATI and MALA, as the seed constants of the protocol have them
abbrev pub council_seats : ℕ
council_seats = 6

abbrev pub election_cycle : ℕ
election_cycle = 108

abbrev pub proposal_expiry_heartbeats : ℕ
proposal_expiry_heartbeats = 108

abbrev pub max_commission_percent : ℕ
max_commission_percent = 18

-- TRINITY, the weight of the mayor's vote
abbrev pub trinity : ℕ
trinity = 3

-- the thresholds of config/city.yaml, in percent
abbrev pub democratic_threshold : ℕ
democratic_threshold = 50

abbrev pub supermajority_threshold : ℕ
supermajority_threshold = 67

pub data ProposalStatus : Type 0 where
  still_open passed rejected executed expired : ProposalStatus

pub data ProposalType : Type 0 where
  policy constitutional marketplace : ProposalType

pub data VoteChoice : Type 0 where
  voted_yes voted_no abstain : VoteChoice

pub record VoteRecord : Type 0 where
  pub voter : String
  pub choice : VoteChoice
  pub prana_weight : ℕ

-- Times are ticks of a clock, and a route's score is counted in ten-thousandths.
pub record Proposal : Type 0 where
  pub id : String
  pub title : String
  pub description : String
  pub proposer : String
  pub proposal_type : ProposalType
  pub action : Dict String Json
  pub guardian_route : String
  pub route_score : ℕ
  pub submitted_at : ℕ
  pub submitted_heartbeat : ℕ
  pub status : ProposalStatus
  pub votes : List VoteRecord
  pub result_hash : String

abbrev pub percent : ProposalType → ℕ
percent constitutional = supermajority_threshold
percent _ = democratic_threshold

unfoldable pub threshold : Proposal → ℕ
threshold p = percent p.proposal_type

abbrev pub is_open : ProposalStatus → Bool
is_open still_open = true
is_open _ = false

abbrev pub is_passed : ProposalStatus → Bool
is_passed passed = true
is_passed _ = false

pub record Council : Type 0 where
  pub seats : Dict ℕ String
  pub elected_mayor : Option String
  pub proposals : Dict String Proposal
  pub next_proposal_num : ℕ
  pub last_election_heartbeat : ℤ
  pub market_frozen : Bool
  pub commission_override : Option ℤ

-- `CityCouncil()` with no state file
abbrev pub fresh : Council
fresh = record {
  seats = [];
  elected_mayor = none;
  proposals = [];
  next_proposal_num = 1;
  last_election_heartbeat = negsuc 107;
  market_frozen = false;
  commission_override = none;
}

-- `name in seats.values()`
unfoldable pub holds_seat : String → Dict ℕ String → Bool
holds_seat name [] = false
holds_seat name ((i, seated) ∷ rest) = seated == name || holds_seat name rest

unfoldable pub is_member : Council → String → Bool
unfolding holds_seat
is_member c name = holds_seat name c.seats

-- `name == self._elected_mayor`
unfoldable pub is_mayor : Council → String → Bool
is_mayor c name = elim c.elected_mayor [ none ↦ false | some mayor ↦ name == mayor ]

unfoldable pub election_due : Council → ℕ → Bool
election_due c heartbeat_count = elim c.seats [
  | [] ↦ true
  | _ ↦ leb_ℤ (pos election_cycle) (pos heartbeat_count -ℤ c.last_election_heartbeat)
]

unfoldable pub member_count : Council → ℕ
member_count c = length c.seats

abbrev pub values {ℓ} : {V : Type ℓ} → Dict String V → List V
values [] = []
values ((k, v) ∷ d) = v ∷ values d

unfoldable pub get_open_proposals : Council → List Proposal
get_open_proposals c = keep (λ p. is_open p.status) (values c.proposals)

unfoldable pub get_passed_proposals : Council → List Proposal
get_passed_proposals c = keep (λ p. is_passed p.status) (values c.proposals)

unfoldable pub get_proposal : Council → String → Option Proposal
get_proposal c proposal_id = lookup proposal_id c.proposals
