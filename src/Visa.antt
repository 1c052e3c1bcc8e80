-- ===== src/Visa.antt =====
-- city/visa.py: visa documents, their classes, and how they are issued, revoked and upgraded. A time is a
-- number of microseconds. SHA-256 and the texts of times are the standard library's, kept abstract: what
-- a record of type Digests gives.
pub mod Lifecycle
pub mod Storage
use Prim.Native.String.{◌++◌ as join}
use agent_city.Prelude.{
  ℕ, ◌+◌, ◌-◌, ◌*◌, ◌/◌, String, Bool, true, false, ◌&&◌, Option, none, some, leb, if◌then◌else◌,
}
use agent_city.Prelude.Int.{ℤ, pos, negsuc}
use agent_city.Prelude.Key.{◌==◌, text_key}

pub data VisaClass : Type 0 where
  temporary worker resident citizen revoked : VisaClass

-- `in_force` is the status 'active', and `withdrawn` is 'revoked'.
pub data VisaStatus : Type 0 where
  in_force expired withdrawn suspended : VisaStatus

-- The voting power is in percent.
pub record VisaRestrictions : Type 0 where
  pub read_only : Bool
  pub max_proposals_per_month : ℕ
  pub max_credits_per_day : ℕ
  pub voting_power : ℕ
  pub can_propose : Bool
  pub can_vote : Bool
  pub can_earn_credits : Bool

abbrev no_access : VisaRestrictions
no_access = record {
  read_only = true;
  max_proposals_per_month = 0;
  max_credits_per_day = 0;
  voting_power = 0;
  can_propose = false;
  can_vote = false;
  can_earn_credits = false;
}

-- The table VISA_RESTRICTIONS.
unfoldable pub restrictions_of : VisaClass → VisaRestrictions
restrictions_of temporary = no_access
restrictions_of worker = record {
  read_only = false;
  max_proposals_per_month = 2;
  max_credits_per_day = 50;
  voting_power = 0;
  can_propose = false;
  can_vote = false;
  can_earn_credits = true;
}
restrictions_of resident = record {
  read_only = false;
  max_proposals_per_month = 4;
  max_credits_per_day = 1000;
  voting_power = 100;
  can_propose = true;
  can_vote = true;
  can_earn_credits = true;
}
restrictions_of citizen = record {
  read_only = false;
  max_proposals_per_month = 0;
  max_credits_per_day = 0;
  voting_power = 100;
  can_propose = true;
  can_vote = true;
  can_earn_credits = true;
}
restrictions_of revoked = no_access

-- The digests: MAHAMANTRA_VISA_ID, a visa's id from agent, time of issue and sponsor, and an
-- application's id from agent and time.
pub record Digests : Type 0 where
  pub mahamantra : String
  pub visa_digest : String → ℕ → String → String
  pub application_digest : String → ℕ → String

pub record Visa : Type 0 where
  pub agent_name : String
  pub visa_class : VisaClass
  pub issued_at : ℕ
  pub expires_at : ℕ
  pub sponsor : String
  pub status : VisaStatus
  pub restrictions : VisaRestrictions
  pub visa_id : String
  pub sponsor_visa_id : String
  pub lineage_depth : ℕ
  pub remarks : String

-- `__post_init__`: an empty id is replaced by the digest.
unfoldable pub post_init : Digests → Visa → Visa
post_init ds v =
    if v.visa_id == ""
    then record v { visa_id = ds.visa_digest v.agent_name v.issued_at v.sponsor }
    else v

abbrev is_in_force : VisaStatus → Bool
is_in_force in_force = true
is_in_force _ = false

unfoldable pub is_valid : ℕ → Visa → Bool
is_valid now v = is_in_force v.status && leb v.issued_at now && leb now v.expires_at

abbrev pub day : ℕ
day = 86400000000

-- `delta.days` rounds down: a microsecond after the end is day -1.
unfoldable pub days_remaining : ℕ → Visa → ℤ
days_remaining now v =
    if leb now v.expires_at
    then pos ((v.expires_at - now) / day)
    else negsuc ((now - v.expires_at - 1) / day)

-- `_duration_map`
abbrev pub duration_of : VisaClass → ℕ
duration_of temporary = 7
duration_of worker = 90
duration_of resident = 365
duration_of citizen = 36500
duration_of revoked = 0

abbrev first_status : VisaClass → VisaStatus
first_status revoked = withdrawn
first_status _ = in_force

-- The arguments of `issue_visa`, with `issued_at` filled in: a caller that gives none gets the clock.
pub record Issue : Type 0 where
  pub agent_name : String
  pub visa_class : VisaClass
  pub sponsor : String
  pub issued_at : ℕ
  pub duration_days : Option ℕ
  pub sponsor_visa_id : Option String
  pub lineage_depth : ℕ
  pub remarks : String

abbrev or_default {ℓ} : {A : Type ℓ} → Option A → A → A
or_default none d = d
or_default (some a) d = a

-- `sponsor_visa_id or MAHAMANTRA_VISA_ID`: an empty text counts as none.
abbrev or_mahamantra : Digests → Option String → String
or_mahamantra ds none = ds.mahamantra
or_mahamantra ds (some id) = if id == "" then ds.mahamantra else id

unfoldable pub issue_visa : Digests → Issue → Visa
unfolding post_init
issue_visa ds i = post_init ds (record {
  agent_name = i.agent_name;
  visa_class = i.visa_class;
  issued_at = i.issued_at;
  expires_at = i.issued_at + day * or_default i.duration_days (duration_of i.visa_class);
  sponsor = i.sponsor;
  status = first_status i.visa_class;
  restrictions = restrictions_of i.visa_class;
  visa_id = "";
  sponsor_visa_id = or_mahamantra ds i.sponsor_visa_id;
  lineage_depth = i.lineage_depth;
  remarks = i.remarks;
})

unfoldable pub revoke_visa : Digests → ℕ → String → Visa → Visa
unfolding post_init
revoke_visa ds now reason v = post_init ds (record {
  agent_name = v.agent_name;
  visa_class = revoked;
  issued_at = v.issued_at;
  expires_at = now;
  sponsor = v.sponsor;
  status = withdrawn;
  restrictions = restrictions_of revoked;
  visa_id = v.visa_id;
  sponsor_visa_id = v.sponsor_visa_id;
  lineage_depth = v.lineage_depth;
  remarks = if reason == "" then "Revoked" else join "Revoked: " reason;
})

abbrev pub class_value : VisaClass → String
class_value temporary = "temporary"
class_value worker = "worker"
class_value resident = "resident"
class_value citizen = "citizen"
class_value revoked = "revoked"

abbrev or_else : Option String → String → Option String
or_else none id = some id
or_else (some given) id = if given == "" then some id else some given

unfoldable pub upgrade_visa : Digests → ℕ → VisaClass → String → Option String → Visa → Visa
unfolding issue_visa revoke_visa
upgrade_visa ds now revoked sponsor sponsor_visa_id v = revoke_visa ds now "Upgraded to revoked" v
upgrade_visa ds now new_class sponsor sponsor_visa_id v = issue_visa ds (record {
  agent_name = v.agent_name;
  visa_class = new_class;
  sponsor = sponsor;
  issued_at = now;
  duration_days = none;
  sponsor_visa_id = or_else sponsor_visa_id v.sponsor_visa_id;
  lineage_depth = v.lineage_depth;
  remarks = join "Upgraded from " (class_value v.visa_class);
})
