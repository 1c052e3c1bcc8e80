-- ===== src/Referendum.antt =====
-- city/referendum_system.py: referendums, from the draft over the petition and the vote to the result.
-- Times are milliseconds; a weight is counted in 2000ths of a vote, the largest multiplier of prana in
-- thousandths, the turnout and the threshold of the configuration in hundredths. The digest that stands
-- for the results is the argument `digest`.
pub mod Engine
pub mod Reached
use agent_city.Prelude.{
  ℕ, ◌+◌, ◌*◌, String, Bool, true, false, not, ◌&&◌, Option, none, some, List, [], ◌∷◌, ◌++◌, ltb,
  leb, min, length, if◌then◌else◌,
}
use agent_city.Prelude.Key.{◌==◌, text_key}

pub data ReferendumStatus : Type 0 where
  draft petitioning active passed rejected expired : ReferendumStatus

pub data ReferendumTrigger : Type 0 where
  council_referral citizen_petition automatic_trigger mayor_initiative : ReferendumTrigger

pub data VoteChoice : Type 0 where
  aye nay abstain : VoteChoice

pub record ReferendumConfig : Type 0 where
  pub petition_signatures_required : ℕ
  pub petition_duration_hours : ℕ
  pub voting_duration_hours : ℕ
  pub minimum_turnout : ℕ
  pub passing_threshold : ℕ
  pub prana_weighting_enabled : Bool
  pub max_prana_weight : ℕ

abbrev pub default_config : ReferendumConfig
default_config = record {
  petition_signatures_required = 5;
  petition_duration_hours = 24;
  voting_duration_hours = 48;
  minimum_turnout = 30;
  passing_threshold = 60;
  prana_weighting_enabled = true;
  max_prana_weight = 3000;
}

pub record CitizenSignature : Type 0 where
  pub citizen_name : String
  pub signed_at : ℕ
  pub prana_at_signing : ℕ
  pub signature_hash : String

pub record CitizenVote : Type 0 where
  pub citizen_name : String
  pub choice : VoteChoice
  pub voted_at : ℕ
  pub prana_at_vote : ℕ
  pub vote_hash : String

-- What `calculate_results` computes, and what is stored of it. The turnout and the share of the ayes
-- are fractions: the numbers here are their numerators and denominators.
pub record Results : Type 0 where
  pub yes_weight : ℕ
  pub no_weight : ℕ
  pub abstain_weight : ℕ
  pub total_weight : ℕ
  pub turnout : ℕ × ℕ
  pub yes_ratio : ℕ × ℕ
  pub has_passed : Bool
  pub total_voters : ℕ

pub record Referendum : Type 0 where
  pub id : String
  pub title : String
  pub description : String
  pub proposer : String
  pub trigger : ReferendumTrigger
  pub status : ReferendumStatus
  pub config : ReferendumConfig
  pub created_at : ℕ
  pub petition_started_at : Option ℕ
  pub voting_started_at : Option ℕ
  pub voting_ends_at : Option ℕ
  pub petition_signatures : List CitizenSignature
  pub votes : List CitizenVote
  pub yes_weight : ℕ
  pub no_weight : ℕ
  pub abstain_weight : ℕ
  pub total_turnout : ℕ × ℕ
  pub result_hash : Option String

abbrev pub is_draft : ReferendumStatus → Bool
is_draft draft = true
is_draft _ = false

abbrev pub is_petitioning : ReferendumStatus → Bool
is_petitioning petitioning = true
is_petitioning _ = false

abbrev pub is_active : ReferendumStatus → Bool
is_active active = true
is_active _ = false

abbrev pub is_passed : ReferendumStatus → Bool
is_passed passed = true
is_passed _ = false

abbrev pub is_rejected : ReferendumStatus → Bool
is_rejected rejected = true
is_rejected _ = false

abbrev pub hour : ℕ
hour = 3600000

abbrev pub is_petition_complete : ℕ → Referendum → Bool
is_petition_complete now r =
    leb r.config.petition_signatures_required (length r.petition_signatures)
    && elim r.petition_started_at [
      | none ↦ false
      | some t ↦ leb now (t + r.config.petition_duration_hours * hour)
    ]

abbrev pub is_voting_active : ℕ → Referendum → Bool
is_voting_active now r =
    is_active r.status
    && elim r.voting_started_at [ none ↦ false | some _ ↦ true ]
    && elim r.voting_ends_at [ none ↦ false | some t ↦ ltb now t ]

abbrev pub is_voting_expired : ℕ → Referendum → Bool
is_voting_expired now r = elim r.voting_ends_at [ none ↦ false | some t ↦ leb t now ]

unfoldable pub has_voted : String → List CitizenVote → Bool
has_voted name [] = false
has_voted name (v ∷ vs) =
    let rest = has_voted name vs in if v.citizen_name == name then true else rest

unfoldable pub can_vote : ℕ → String → Referendum → Bool
unfolding has_voted
can_vote now name r = is_voting_active now r && not (has_voted name r.votes)

-- 1 + (min(prana / 1000, max) - 1) * 0.5, in 2000ths.
abbrev pub vote_weight : ReferendumConfig → CitizenVote → ℕ
vote_weight c v =
    if c.prana_weighting_enabled then 1000 + min v.prana_at_vote c.max_prana_weight else 2000

abbrev pub chose : VoteChoice → VoteChoice → Bool
chose aye aye = true
chose nay nay = true
chose abstain abstain = true
chose _ _ = false

unfoldable pub weight_of : ReferendumConfig → VoteChoice → List CitizenVote → ℕ
weight_of c choice [] = 0
weight_of c choice (v ∷ vs) =
    (if chose v.choice choice then vote_weight c v else 0) + weight_of c choice vs

abbrev at_least_one : ℕ → ℕ → ℕ
at_least_one one n = if ltb n one then one else n

unfoldable pub calculate_results : ℕ → Referendum → Option Results
unfolding weight_of
calculate_results now r =
    let yes_weight = weight_of r.config aye r.votes in
    let no_weight = weight_of r.config nay r.votes in
    let abstain_weight = weight_of r.config abstain r.votes in
    let total_weight = yes_weight + no_weight + abstain_weight in
    let citizens = length r.votes in
    if not (is_voting_expired now r)
    then none
    else some (record {
      yes_weight = yes_weight;
      no_weight = no_weight;
      abstain_weight = abstain_weight;
      total_weight = total_weight;
      turnout = (citizens, at_least_one 1 citizens);
      yes_ratio = (yes_weight, at_least_one 2000 total_weight);
      has_passed =
          leb (r.config.minimum_turnout * at_least_one 1 citizens) (citizens * 100)
          && ltb (r.config.passing_threshold * at_least_one 2000 total_weight) (yes_weight * 100);
      total_voters = citizens;
    })
