-- ===== src/Council/Disk.antt =====
-- city/council.py: the state file and its backups. `to_dict`, `_restore_from_dict`, the rotation of
-- the backups, `_atomic_write_json`, `_auto_save` and the load in `__post_init__`.
pub mod RoundTrip
pub mod Recovery
use agent_city.Prelude.{
  ◌>>=◌, ℕ, String, Bool, true, false, Option, none, some, List, [], ◌∷◌, eqb, if◌then◌else◌,
}
use agent_city.Prelude.Dict.{Dict, insert}
use agent_city.Prelude.Key.{◌==◌, text_key, number_key}
use agent_city.Prelude.Int.{ℤ, negsuc}
use agent_city.Prelude.Json.{Json}
use agent_city.Prelude.Texts.{decimal, parse_int}
use agent_city.Council.{
  Council, Proposal, ProposalStatus, still_open, passed, rejected, executed, expired, ProposalType,
  policy, constitutional, marketplace, VoteRecord, fresh,
}

-- A decoded `Proposal.to_dict()`: a key that is not in the file is `none`.
pub record SavedProposal : Type 0 where
  pub id : Option String
  pub title : Option String
  pub description : Option String
  pub proposer : Option String
  pub proposal_type : Option String
  pub action : Option (Dict String Json)
  pub guardian_route : Option String
  pub route_score : Option ℕ
  pub submitted_at : Option ℕ
  pub submitted_heartbeat : Option ℕ
  pub status : Option String
  pub votes : Option (List VoteRecord)
  pub result_hash : Option String

-- A decoded `CityCouncil.to_dict()`. JSON has only texts as keys. `null` counts as no entry where the
-- code makes no difference.
pub record Saved : Type 0 where
  pub seats : Option (Dict String String)
  pub elected_mayor : Option String
  pub proposals : Option (Dict String SavedProposal)
  pub next_proposal_num : Option ℕ
  pub last_election_heartbeat : Option ℤ
  pub market_frozen : Option Bool
  pub commission_override : Option ℤ

status_value : ProposalStatus → String
status_value still_open = "open"
status_value passed = "passed"
status_value rejected = "rejected"
status_value executed = "executed"
status_value expired = "expired"

-- `ProposalStatus(value)`; `none` is a `ValueError`.
status_of : String → Option ProposalStatus
status_of s =
    if s == "open"
    then some still_open
    else if s == "passed"
    then some passed
    else if s == "rejected"
    then some rejected
    else if s == "executed"
    then some executed
    else if s == "expired"
    then some expired
    else none

type_value : ProposalType → String
type_value policy = "policy"
type_value constitutional = "constitutional"
type_value marketplace = "marketplace"

type_of : String → Option ProposalType
type_of s =
    if s == "policy"
    then some policy
    else if s == "constitutional"
    then some constitutional
    else if s == "marketplace"
    then some marketplace
    else none

save_proposal : Proposal → SavedProposal
unfolding status_value type_value
save_proposal p = record {
  id = some p.id;
  title = some p.title;
  description = some p.description;
  proposer = some p.proposer;
  proposal_type = some (type_value p.proposal_type);
  action = some p.action;
  guardian_route = some p.guardian_route;
  route_score = some p.route_score;
  submitted_at = some p.submitted_at;
  submitted_heartbeat = some p.submitted_heartbeat;
  status = some (status_value p.status);
  votes = some p.votes;
  result_hash = some p.result_hash;
}

save_seats : Dict ℕ String → Dict String String
save_seats [] = []
save_seats ((i, name) ∷ seats) = (decimal i, name) ∷ save_seats seats

save_proposals : Dict String Proposal → Dict String SavedProposal
save_proposals [] = []
save_proposals ((k, p) ∷ ps) = (k, save_proposal p) ∷ save_proposals ps

unfoldable pub to_dict : Council → Saved
unfolding save_proposal save_seats save_proposals
to_dict c = record {
  seats = some (save_seats c.seats);
  elected_mayor = c.elected_mayor;
  proposals = some (save_proposals c.proposals);
  next_proposal_num = some c.next_proposal_num;
  last_election_heartbeat = some c.last_election_heartbeat;
  market_frozen = some c.market_frozen;
  commission_override = c.commission_override;
}

-- `data.get(key, default)`
abbrev get_default {ℓ} : {A : Type ℓ} → Option A → A → A
get_default none d = d
get_default (some a) d = a

-- `none` is a `KeyError` or a `ValueError`.
restore_proposal : SavedProposal → Option Proposal
unfolding status_of type_of
restore_proposal d = do
  id ← d.id
  title ← d.title
  proposer ← d.proposer
  type_text ← d.proposal_type
  proposal_type ← type_of type_text
  action ← d.action
  status_text ← d.status
  status ← status_of status_text
  some (record {
    id = id;
    title = title;
    description = get_default d.description "";
    proposer = proposer;
    proposal_type = proposal_type;
    action = action;
    guardian_route = get_default d.guardian_route "";
    route_score = get_default d.route_score 0;
    submitted_at = get_default d.submitted_at 0;
    submitted_heartbeat = get_default d.submitted_heartbeat 0;
    status = status;
    votes = get_default d.votes [];
    result_hash = get_default d.result_hash "";
  })

-- `{int(k): v for k, v in seats.items()}`
restore_seats : Dict String String → Dict ℕ String → Option (Dict ℕ String)
restore_seats [] acc = some acc
restore_seats ((k, name) ∷ seats) acc = elim (parse_int k) [
  | none ↦ none
  | some i ↦ restore_seats seats (insert i name acc)
]

-- The loop over the saved proposals: those before one that fails stay restored.
restore_proposals : Dict String SavedProposal → Dict String Proposal → Dict String Proposal × Bool
restore_proposals [] acc = (acc, true)
restore_proposals ((k, d) ∷ ds) acc = elim (restore_proposal d) [
  | none ↦ (acc, false)
  | some p ↦ restore_proposals ds (insert k p acc)
]

-- `_restore_from_dict`: the council as it is left, and whether the call returned. It writes field by
-- field, so that a failure leaves what was written before it.
unfoldable pub restore_from_dict : Saved → Council → Council × Bool
unfolding restore_proposal restore_seats restore_proposals
restore_from_dict d c = elim (restore_seats (get_default d.seats []) []) [
  | none ↦ (c, false)
  | some seats ↦
      let (proposals, done) = restore_proposals (get_default d.proposals []) [] in
      (
        record {
          seats = seats;
          elected_mayor = d.elected_mayor;
          proposals = proposals;
          next_proposal_num = get_default d.next_proposal_num 1;
          last_election_heartbeat = get_default d.last_election_heartbeat (negsuc 107);
          market_frozen = get_default d.market_frozen false;
          commission_override = d.commission_override;
        },
        done,
      )
]

-- What stands at a path: nothing, a file that does not decode, or a saved state.
pub data File : Type 0 where
  absent : File
  corrupt : File
  holds : Saved → File

-- The state file and its STATE_BACKUPS = 5 backups, newest first.
pub record Disk : Type 0 where
  pub primary : File
  pub bak : File
  pub bak_1 : File
  pub bak_2 : File
  pub bak_3 : File
  pub bak_4 : File

-- `newer.replace(older)` if `newer` exists: what `older` holds then, and what `newer` does.
older_after : File → File → File
older_after absent older = older
older_after newer older = newer

-- `_rotate_backups`: each slot moves to the next older one, the oldest is dropped, and the primary is
-- copied to the newest slot.
unfoldable pub rotate_backups : Disk → Disk
unfolding older_after
rotate_backups d = record {
  primary = d.primary;
  bak = older_after d.primary absent;
  bak_1 = older_after d.bak absent;
  bak_2 = older_after d.bak_1 absent;
  bak_3 = older_after d.bak_2 absent;
  bak_4 = older_after d.bak_3 d.bak_4;
}

-- `_atomic_write_json` where no call fails: the rotation, then the new primary in one replacement.
unfoldable pub auto_save : Council → Disk → Disk
unfolding rotate_backups
auto_save c d = record (rotate_backups d) { primary = holds (to_dict c) }

-- The loop of `__post_init__` over the candidates.
load_first : List File → Council → Council
load_first [] c = c
load_first (absent ∷ files) c = load_first files c
load_first (corrupt ∷ files) c = load_first files c
load_first (holds d ∷ files) c =
    let (c', done) = restore_from_dict d c in if done then c' else load_first files c'

unfoldable pub load : Disk → Council
unfolding load_first
load d = elim d.primary [
  | absent ↦ fresh
  | _ ↦ load_first (d.primary ∷ d.bak ∷ d.bak_1 ∷ d.bak_2 ∷ d.bak_3 ∷ d.bak_4 ∷ []) fresh
]
