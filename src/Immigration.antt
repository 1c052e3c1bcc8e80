-- ===== src/Immigration.antt =====
-- city/immigration.py: the immigration office, two tables and the genesis visa. Flags are columns of 0 and
-- 1, and the dicts and lists of texts are columns of JSON, which are read back as they were written. A
-- community score is in thousandths; `now` is the clock at the call.
pub mod Process
pub mod Lineage
pub mod Steps
pub mod Grants
use agent_city.Prelude.{
  ℕ, ◌+◌, String, Bool, true, false, not, ◌&&◌, Option, none, some, List, [], ◌∷◌, ◌++◌, ltb, eqb,
  length, if◌then◌else◌, keep,
}
use agent_city.Prelude.Key.{◌==◌, text_key}
use agent_city.Prelude.Dict.{Dict, lookup, replace}
use agent_city.Visa.{
  Visa, VisaClass, VisaStatus, citizen, Digests, Issue, issue_visa, revoke_visa, restrictions_of,
  post_init,
}

pub data ApplicationStatus : Type 0 where
  pending under_review approved rejected council_pending council_approved council_rejected
        citizenship_granted revoked :
      ApplicationStatus

-- The place of a status in the enumeration.
abbrev pub place : ApplicationStatus → ℕ
place pending = 0
place under_review = 1
place approved = 2
place rejected = 3
place council_pending = 4
place council_approved = 5
place council_rejected = 6
place citizenship_granted = 7
place revoked = 8

abbrev pub same_status : ApplicationStatus → ApplicationStatus → Bool
same_status a b = eqb (place a) (place b)

pub data ApplicationReason : Type 0 where
  resident_renewal citizen_application worker_to_resident refugee temporary_visitor :
      ApplicationReason

-- The text of a remark, by what it is made of.
pub data Remark : Type 0 where
  review_rejected : Bool → Bool → Remark
  vote_rejected : Dict String ℕ → Remark

pub record Application : Type 0 where
  pub application_id : String
  pub agent_name : String
  pub applied_at : ℕ
  pub reason : ApplicationReason
  pub requested_visa_class : VisaClass
  pub status : ApplicationStatus
  pub reviewed_at : Option ℕ
  pub reviewer : String
  pub kyc_passed : Bool
  pub contracts_passed : Bool
  pub community_score : ℕ
  pub review_notes : String
  pub council_vote_id : Option String
  pub council_approved : Option Bool
  pub council_vote_count : Dict String ℕ
  pub issued_visa : Option Visa
  pub remarks : List (ℕ × Remark)

abbrev pub add_remark : ℕ → Remark → Application → Application
add_remark now remark app = record app { remarks = app.remarks ++ (now, remark) ∷ [] }

unfoldable pub can_proceed_to_council : Application → Bool
can_proceed_to_council app =
    same_status app.status approved && app.kyc_passed && app.contracts_passed

-- A row of `visas`: the restrictions are not stored.
pub record VisaRow : Type 0 where
  pub visa_id : String
  pub agent_name : String
  pub visa_class : VisaClass
  pub issued_at : ℕ
  pub expires_at : ℕ
  pub sponsor : String
  pub status : VisaStatus
  pub sponsor_visa_id : String
  pub lineage_depth : ℕ
  pub remarks : String

-- A row of `immigration_applications`: of the visa the id.
pub record ApplicationRow : Type 0 where
  pub application_id : String
  pub agent_name : String
  pub applied_at : ℕ
  pub reason : ApplicationReason
  pub requested_visa_class : VisaClass
  pub status : ApplicationStatus
  pub reviewed_at : Option ℕ
  pub reviewer : String
  pub kyc_passed : Bool
  pub contracts_passed : Bool
  pub community_score : ℕ
  pub review_notes : String
  pub council_vote_id : Option String
  pub council_approved : Option Bool
  pub council_vote_count : Dict String ℕ
  pub issued_visa_id : Option String
  pub remarks : List (ℕ × Remark)

pub record Office : Type 0 where
  pub visas : Dict String VisaRow
  pub applications : Dict String ApplicationRow
  pub genesis_visa : Visa

abbrev pub visa_row : Visa → VisaRow
visa_row v = record {
  visa_id = v.visa_id;
  agent_name = v.agent_name;
  visa_class = v.visa_class;
  issued_at = v.issued_at;
  expires_at = v.expires_at;
  sponsor = v.sponsor;
  status = v.status;
  sponsor_visa_id = v.sponsor_visa_id;
  lineage_depth = v.lineage_depth;
  remarks = v.remarks;
}

unfoldable pub save_visa : Visa → Office → Office
save_visa v s = record s { visas = replace v.visa_id (visa_row v) s.visas }

abbrev id_of : Option Visa → Option String
id_of none = none
id_of (some v) = some v.visa_id

abbrev pub application_row : Application → ApplicationRow
application_row app = record {
  application_id = app.application_id;
  agent_name = app.agent_name;
  applied_at = app.applied_at;
  reason = app.reason;
  requested_visa_class = app.requested_visa_class;
  status = app.status;
  reviewed_at = app.reviewed_at;
  reviewer = app.reviewer;
  kyc_passed = app.kyc_passed;
  contracts_passed = app.contracts_passed;
  community_score = app.community_score;
  review_notes = app.review_notes;
  council_vote_id = app.council_vote_id;
  council_approved = app.council_approved;
  council_vote_count = app.council_vote_count;
  issued_visa_id = id_of app.issued_visa;
  remarks = app.remarks;
}

unfoldable pub save_application : Application → Office → Office
save_application app s = record s {
  applications = replace app.application_id (application_row app) s.applications;
}

-- `SELECT … WHERE agent_name = ? LIMIT 1`
unfoldable pub first_visa_of : String → Dict String VisaRow → Option VisaRow
first_visa_of name [] = none
first_visa_of name ((id, r) ∷ d) = if r.agent_name == name then some r else first_visa_of name d

-- `ORDER BY issued_at DESC LIMIT 1`: of two of one time the earlier row.
unfoldable pub latest_visa_of : String → Dict String VisaRow → Option VisaRow
latest_visa_of name [] = none
latest_visa_of name ((id, r) ∷ d) =
    let rest = latest_visa_of name d in
    if r.agent_name == name
    then elim rest [
      | none ↦ some r
      | some q ↦ if ltb r.issued_at q.issued_at then some q else some r
    ]
    else rest

unfoldable pub latest_application_of : String → Dict String ApplicationRow → Option ApplicationRow
latest_application_of name [] = none
latest_application_of name ((id, r) ∷ d) =
    let rest = latest_application_of name d in
    if r.agent_name == name
    then elim rest [
      | none ↦ some r
      | some q ↦ if ltb r.applied_at q.applied_at then some q else some r
    ]
    else rest

abbrev map_option {ℓ} : {A B : Type ℓ} → (A → B) → Option A → Option B
map_option f none = none
map_option f (some a) = some (f a)

module _ (ds : Digests) where
  unfoldable pub row_to_visa : VisaRow → Visa
  unfolding post_init
  row_to_visa r = post_init ds (record {
    agent_name = r.agent_name;
    visa_class = r.visa_class;
    issued_at = r.issued_at;
    expires_at = r.expires_at;
    sponsor = r.sponsor;
    status = r.status;
    restrictions = restrictions_of r.visa_class;
    visa_id = r.visa_id;
    sponsor_visa_id = r.sponsor_visa_id;
    lineage_depth = r.lineage_depth;
    remarks = r.remarks;
  })

  unfoldable pub load_visa_by_id : String → Office → Option Visa
  unfolding row_to_visa
  load_visa_by_id id s = map_option row_to_visa (lookup id s.visas)

  unfoldable pub load_visa_by_agent : String → Office → Option Visa
  unfolding row_to_visa
  load_visa_by_agent name s = map_option row_to_visa (latest_visa_of name s.visas)

  abbrev load_issued : Option String → Office → Option Visa
  load_issued none s = none
  load_issued (some id) s = if id == "" then none else load_visa_by_id id s

  unfoldable pub row_to_application : Office → ApplicationRow → Application
  unfolding load_visa_by_id
  row_to_application s r = record {
    application_id = r.application_id;
    agent_name = r.agent_name;
    applied_at = r.applied_at;
    reason = r.reason;
    requested_visa_class = r.requested_visa_class;
    status = r.status;
    reviewed_at = r.reviewed_at;
    reviewer = r.reviewer;
    kyc_passed = r.kyc_passed;
    contracts_passed = r.contracts_passed;
    community_score = r.community_score;
    review_notes = r.review_notes;
    council_vote_id = r.council_vote_id;
    council_approved = r.council_approved;
    council_vote_count = r.council_vote_count;
    issued_visa = load_issued r.issued_visa_id s;
    remarks = r.remarks;
  }

  unfoldable pub load_application : String → Office → Option Application
  unfolding row_to_application
  load_application id s = map_option (row_to_application s) (lookup id s.applications)

  unfoldable pub genesis : ℕ → Visa
  unfolding issue_visa
  genesis now = issue_visa ds (record {
    agent_name = "city_genesis";
    visa_class = citizen;
    sponsor = "MAHAMANTRA";
    issued_at = now;
    duration_days = none;
    sponsor_visa_id = some ds.mahamantra;
    lineage_depth = 0;
    remarks = "City Genesis — founding document of Agent City";
  })

  -- `__init__` over the tables of the file.
  unfoldable pub open_office : ℕ → Dict String VisaRow → Dict String ApplicationRow → Office
  unfolding genesis row_to_visa
  open_office now visas applications = elim (first_visa_of "city_genesis" visas) [
    | some r ↦ record { visas = visas; applications = applications; genesis_visa = row_to_visa r }
    | none ↦
        save_visa (genesis now)
          (record { visas = visas; applications = applications; genesis_visa = genesis now })
  ]
