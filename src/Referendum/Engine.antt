-- ===== src/Referendum/Engine.antt =====
-- The ReferendumEngine: every operation that changes a referendum, and the two triggers.
use Prim.Native.String.{◌++◌ as join}
use agent_city.Prelude.{
  ℕ, ◌+◌, ◌*◌, String, Bool, true, false, not, ◌&&◌, Option, none, some, List, [], ◌∷◌, ◌++◌, ltb,
  leb, map, keep, length, if◌then◌else◌,
}
use agent_city.Prelude.Key.{◌==◌, text_key}
use agent_city.Prelude.Dict.{Dict, lookup, insert}
use agent_city.Prelude.Texts.{zero_padded}
use agent_city.Referendum.{
  Referendum, ReferendumConfig, ReferendumTrigger, council_referral, automatic_trigger,
  ReferendumStatus, draft, petitioning, active, passed, rejected, CitizenSignature, VoteChoice,
  Results, default_config, is_draft, is_petitioning, is_active, is_passed, is_rejected, hour,
  is_voting_expired, can_vote, calculate_results,
}

pub record Engine : Type 0 where
  pub config : ReferendumConfig
  pub referendums : Dict String Referendum
  pub next_id : ℕ

unfoldable pub new_engine : Option ReferendumConfig → Engine
new_engine c = record {
  config = elim c [ none ↦ default_config | some x ↦ x ];
  referendums = [];
  next_id = 1;
}

unfoldable pub referendum_id : ℕ → String
referendum_id n = join "ref_" (zero_padded 4 n)

-- A Referendum that is made with the other fields left out.
abbrev pub drafted :
    ReferendumConfig → ℕ → String → String → String → String → ReferendumTrigger → Referendum
drafted config now id title description proposer trigger = record {
  id = id;
  title = title;
  description = description;
  proposer = proposer;
  trigger = trigger;
  status = draft;
  config = config;
  created_at = now;
  petition_started_at = none;
  voting_started_at = none;
  voting_ends_at = none;
  petition_signatures = [];
  votes = [];
  yes_weight = 0;
  no_weight = 0;
  abstain_weight = 0;
  total_turnout = (0, 1);
  result_hash = none;
}

abbrev pub put : String → Referendum → Engine → Engine
put id r e = record e { referendums = insert id r e.referendums }

unfoldable pub create_referendum :
    ℕ → String → String → String → ReferendumTrigger → Engine → Engine × Referendum
unfolding referendum_id
create_referendum now title description proposer trigger e =
    let id = referendum_id e.next_id in
    let r = drafted e.config now id title description proposer trigger in
    (put id r (record e { next_id = e.next_id + 1 }), r)

-- The fields that `start_petition` copies, and those that it leaves to their defaults.
abbrev pub petition_started : ℕ → Referendum → Referendum
petition_started now r =
    record (drafted r.config r.created_at r.id r.title r.description r.proposer r.trigger) {
      status = petitioning;
      petition_started_at = some now;
    }

unfoldable pub start_petition : ℕ → String → Engine → Engine × Bool
start_petition now id e = elim (lookup id e.referendums) [
  | none ↦ (e, false)
  | some r ↦
      if not (is_draft r.status) then (e, false) else (put id (petition_started now r) e, true)
]

abbrev pub voting_started : ℕ → Referendum → Referendum
voting_started now r =
    record (drafted r.config r.created_at r.id r.title r.description r.proposer r.trigger) {
      status = active;
      petition_started_at = r.petition_started_at;
      voting_started_at = some now;
      voting_ends_at = some (now + r.config.voting_duration_hours * hour);
      petition_signatures = r.petition_signatures;
    }

unfoldable pub start_voting : ℕ → String → Engine → Engine × Bool
start_voting now id e = elim (lookup id e.referendums) [
  | none ↦ (e, false)
  | some r ↦ (put id (voting_started now r) e, true)
]

unfoldable pub has_signed : String → List CitizenSignature → Bool
has_signed name [] = false
has_signed name (s ∷ ss) =
    let rest = has_signed name ss in if s.citizen_name == name then true else rest

-- The list that holds the new signature is only measured: the engine does not keep it.
unfoldable pub sign_petition : (String → String) → ℕ → String → String → ℕ → Engine → Engine × Bool
unfolding has_signed start_voting
sign_petition digest now id name prana e = elim (lookup id e.referendums) [
  | none ↦ (e, false)
  | some r ↦
      let new_signature : CitizenSignature = record {
        citizen_name = name;
        signed_at = now;
        prana_at_signing = prana;
        signature_hash = digest (join id (join ":" (join name ":petition")));
      } in
      let signatures = r.petition_signatures ++ new_signature ∷ [] in
      if not (is_petitioning r.status)
      then (e, false)
      else if has_signed name r.petition_signatures
      then (e, false)
      else if leb r.config.petition_signatures_required (length signatures)
      then start_voting now id e
      else (e, true)
]

-- The vote is made and put behind the others in a list that nothing refers to afterwards: the
-- referendum in the engine stays as it is.
unfoldable pub cast_vote : ℕ → String → String → VoteChoice → ℕ → Engine → Engine × Bool
unfolding can_vote
cast_vote now id name choice prana e = elim (lookup id e.referendums) [
  | none ↦ (e, false)
  | some r ↦ if not (can_vote now name r) then (e, false) else (e, true)
]

abbrev pub finalized : (Results → String) → Results → Referendum → Referendum
finalized digest results r = record r {
  status = if results.has_passed then passed else rejected;
  yes_weight = results.yes_weight;
  no_weight = results.no_weight;
  abstain_weight = results.abstain_weight;
  total_turnout = results.turnout;
  result_hash = some (digest results);
}

-- One turn of the loop in `finalize_expired_referendums`.
unfoldable pub finalize : (Results → String) → ℕ → Referendum → Option Referendum
unfolding calculate_results
finalize digest now r =
    if is_voting_expired now r && is_active r.status
    then elim (calculate_results now r) [
      | none ↦ none
      | some results ↦ some (finalized digest results r)
    ]
    else none

unfoldable pub finalize_all :
    (Results → String) → ℕ → Dict String Referendum → Dict String Referendum × List Referendum
unfolding finalize
finalize_all digest now [] = ([], [])
finalize_all digest now ((id, r) ∷ d) =
    let rest = finalize_all digest now d in
    elim (finalize digest now r) [
      | none ↦ ((id, r) ∷ rest.0, rest.1)
      | some r' ↦ ((id, r') ∷ rest.0, r' ∷ rest.1)
    ]

unfoldable pub finalize_expired_referendums :
    (Results → String) → ℕ → Engine → Engine × List Referendum
unfolding finalize_all
finalize_expired_referendums digest now e =
    let done = finalize_all digest now e.referendums in (record e { referendums = done.0 }, done.1)

unfoldable pub get_referendum : String → Engine → Option Referendum
get_referendum id e = lookup id e.referendums

abbrev with_status : (ReferendumStatus → Bool) → Engine → List Referendum
with_status test e = keep (λ r. test r.status) (map (λ p. p.1) e.referendums)

unfoldable pub list_active_referendums : Engine → List Referendum
list_active_referendums e = with_status is_active e

unfoldable pub list_petitioning_referendums : Engine → List Referendum
list_petitioning_referendums e = with_status is_petitioning e

-- `success_rate` is a fraction.
pub record Stats : Type 0 where
  pub total : ℕ
  pub active_count : ℕ
  pub petitioning_count : ℕ
  pub passed_count : ℕ
  pub rejected_count : ℕ
  pub success_rate : ℕ × ℕ

unfoldable pub get_stats : Engine → Stats
unfolding list_active_referendums list_petitioning_referendums
get_stats e =
    let passed_count = length (with_status is_passed e) in
    let rejected_count = length (with_status is_rejected e) in
    record {
      total = length e.referendums;
      active_count = length (list_active_referendums e);
      petitioning_count = length (list_petitioning_referendums e);
      passed_count = passed_count;
      rejected_count = rejected_count;
      success_rate =
          if ltb 0 (passed_count + rejected_count)
          then (passed_count, passed_count + rejected_count)
          else (0, 1);
    }

-- A referral of the council goes straight to the vote.
unfoldable pub trigger_council_referral : ℕ → String → String → String → Engine → Engine × String
unfolding create_referendum start_voting
trigger_council_referral now title description proposer e =
    let made = create_referendum now title description proposer council_referral e in
    ((start_voting now made.1.id made.0).0, made.1.id)

unfoldable pub trigger_automatic_referendum : ℕ → String → String → Engine → Engine × String
unfolding create_referendum start_voting
trigger_automatic_referendum now reason description e =
    let made =
      create_referendum now (join "Automatic Referendum: " reason) description "system"
        automatic_trigger e in
    ((start_voting now made.1.id made.0).0, made.1.id)
