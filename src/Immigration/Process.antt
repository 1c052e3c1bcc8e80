-- ===== src/Immigration/Process.antt =====
-- city/immigration.py: the operations of the office, from the application to the visa and its revocation.
use Prim.Native.String.{◌++◌ as join}
use agent_city.Prelude.{
  ℕ, ◌+◌, String, Bool, true, false, not, ◌&&◌, Option, none, some, List, [], length, if◌then◌else◌,
  keep, map,
}
use agent_city.Prelude.Dict.{Dict}
use agent_city.Visa.{Visa, VisaClass, citizen, Digests, issue_visa, revoke_visa}
use agent_city.Immigration.{
  Application, ApplicationStatus, ApplicationReason, ApplicationRow, review_rejected, vote_rejected,
  pending, under_review, approved, rejected, council_pending, council_approved, council_rejected,
  citizenship_granted, same_status, add_remark, Office, save_visa, save_application,
  load_visa_by_agent, load_application, row_to_application, latest_application_of,
}

-- The arguments of `complete_review`.
pub record Review : Type 0 where
  pub kyc_passed : Bool
  pub contracts_passed : Bool
  pub community_score : ℕ
  pub notes : String

pub record Stats : Type 0 where
  pub total_applications : ℕ
  pub total_visas : ℕ
  pub pending_applications : ℕ
  pub citizenship_granted_count : ℕ

abbrev pub reviewing : ℕ → String → Application → Application
reviewing now reviewer app = record app {
  status = under_review;
  reviewer = reviewer;
  reviewed_at = some now;
}

unfoldable pub judge : ℕ → Review → Application → Application
judge now r app =
    let judged = record app {
      kyc_passed = r.kyc_passed;
      contracts_passed = r.contracts_passed;
      community_score = r.community_score;
      review_notes = r.notes;
    } in
    if r.kyc_passed && r.contracts_passed
    then record judged { status = approved }
    else add_remark now (review_rejected r.kyc_passed r.contracts_passed)
        (record judged { status = rejected })

abbrev pub putting_to_vote : String → Application → Application
putting_to_vote council_vote_id app = record app {
  status = council_pending;
  council_vote_id = some council_vote_id;
}

unfoldable pub decide : ℕ → Bool → Dict String ℕ → Application → Application
decide now said vote_tally app =
    let voted = record app { council_approved = some said; council_vote_count = vote_tally } in
    if said
    then record voted { status = council_approved }
    else add_remark now (vote_rejected vote_tally) (record voted { status = council_rejected })

module _ (ds : Digests) where
  -- The id is made of one reading of the clock, and `applied_at` is the next.
  unfoldable pub submit_application :
      ℕ → ℕ → String → ApplicationReason → VisaClass → Office → Office × Application
  submit_application now now' agent_name reason requested_visa_class s =
      let app : Application = record {
        application_id = ds.application_digest agent_name now;
        agent_name = agent_name;
        applied_at = now';
        reason = reason;
        requested_visa_class = requested_visa_class;
        status = pending;
        reviewed_at = none;
        reviewer = "";
        kyc_passed = false;
        contracts_passed = false;
        community_score = 0;
        review_notes = "";
        council_vote_id = none;
        council_approved = none;
        council_vote_count = [];
        issued_visa = none;
        remarks = [];
      } in
      (save_application app s, app)

  -- What four of the operations share: the application is loaded, is in the status that the operation
  -- asks for, is changed and saved; else the call returns false.
  unfoldable pub process :
      ApplicationStatus → (Application → Application) → String → Office → Office × Bool
  process expected change app_id s = elim (load_application ds app_id s) [
    | none ↦ (s, false)
    | some app ↦
        if not (same_status app.status expected)
        then (s, false)
        else (save_application (change app) s, true)
  ]

  unfoldable pub start_review : ℕ → String → String → Office → Office × Bool
  unfolding process
  start_review now app_id reviewer = process pending (reviewing now reviewer) app_id

  unfoldable pub complete_review : ℕ → String → Review → Office → Office × Bool
  unfolding process judge
  complete_review now app_id r = process under_review (judge now r) app_id

  unfoldable pub move_to_council : String → String → Office → Office × Bool
  unfolding process
  move_to_council app_id council_vote_id = process approved (putting_to_vote council_vote_id) app_id

  unfoldable pub record_council_vote : ℕ → String → Bool → Dict String ℕ → Office → Office × Bool
  unfolding process decide
  record_council_vote now app_id said vote_tally =
      process council_pending (decide now said vote_tally) app_id

  unfoldable pub mahajan : ℕ → String → Office → Visa
  unfolding issue_visa
  mahajan now agent_name s = issue_visa ds (record {
    agent_name = agent_name;
    visa_class = citizen;
    sponsor = "city_genesis";
    issued_at = now;
    duration_days = none;
    sponsor_visa_id = some s.genesis_visa.visa_id;
    lineage_depth = 1;
    remarks = "Mahajan — founding agent";
  })

  unfoldable pub register_mahajan : ℕ → String → Office → Office × Visa
  unfolding mahajan
  register_mahajan now agent_name s =
      (save_visa (mahajan now agent_name s) s, mahajan now agent_name s)

  -- The sponsor's name, the id of its visa, and the depth of the new visa: without a visa of the
  -- sponsor, those of the genesis.
  unfoldable pub sponsorship : String → Office → String × String × ℕ
  sponsorship sponsor s = elim (load_visa_by_agent ds sponsor s) [
    | some v ↦ (sponsor, v.visa_id, v.lineage_depth + 1)
    | none ↦ ("city_genesis", s.genesis_visa.visa_id, 1)
  ]

  unfoldable pub citizen_visa : ℕ → String → String → Application → Office → Visa
  unfolding sponsorship issue_visa
  citizen_visa now app_id sponsor app s =
      let (name, sponsor_visa_id, lineage_depth) = sponsorship sponsor s in
      issue_visa ds (record {
        agent_name = app.agent_name;
        visa_class = app.requested_visa_class;
        sponsor = name;
        issued_at = now;
        duration_days = none;
        sponsor_visa_id = some sponsor_visa_id;
        lineage_depth = lineage_depth;
        remarks = join "Immigration application " app_id;
      })

  unfoldable pub grant_citizenship : ℕ → String → String → Office → Office × Option Visa
  unfolding citizen_visa
  grant_citizenship now app_id sponsor s = elim (load_application ds app_id s) [
    | none ↦ (s, none)
    | some app ↦
        if not (same_status app.status council_approved)
        then (s, none)
        else let visa = citizen_visa now app_id sponsor app s in
          let granted = record app { issued_visa = some visa; status = citizenship_granted } in
          (save_application granted (save_visa visa s), some visa)
  ]

  unfoldable pub get_visa : String → Office → Option Visa
  get_visa = load_visa_by_agent ds

  unfoldable pub revoke_citizenship : ℕ → String → String → Office → Office × Bool
  unfolding revoke_visa
  revoke_citizenship now agent_name reason s = elim (load_visa_by_agent ds agent_name s) [
    | none ↦ (s, false)
    | some v ↦ (save_visa (revoke_visa ds now reason v) s, true)
  ]

  unfoldable pub get_application : String → Office → Option Application
  get_application = load_application ds

  unfoldable pub get_application_by_agent : String → Office → Option Application
  get_application_by_agent name s = elim (latest_application_of name s.applications) [
    | none ↦ none
    | some r ↦ some (row_to_application ds s r)
  ]

  abbrev rows : Dict String ApplicationRow → List ApplicationRow
  rows d = map (λ entry. entry.1) d

  unfoldable pub list_applications : Option ApplicationStatus → Office → List Application
  list_applications none s = map (row_to_application ds s) (rows s.applications)
  list_applications (some status) s =
      map (row_to_application ds s) (keep (λ r. same_status r.status status) (rows s.applications))

  unfoldable pub stats : Office → Stats
  stats s = record {
    total_applications = length s.applications;
    total_visas = length s.visas;
    pending_applications = length (keep (λ r. same_status r.status pending) (rows s.applications));
    citizenship_granted_count =
        length (keep (λ r. same_status r.status citizenship_granted) (rows s.applications));
  }
