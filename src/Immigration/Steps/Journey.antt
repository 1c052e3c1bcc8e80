-- ===== src/Immigration/Steps/Journey.antt =====
-- The journey of an application through the statuses, and what each status stands for.
pub mod Changes
pub mod Kept
use agent_city.Prelude.{
  ℕ, ◌≡◌, ◌≢◌, refl, sym, ap, ◌∙◌, String, Bool, true, false, ◌&&◌, Option, none, some, List, [],
  ◌∷◌, arith, eq_iff, eqb, if◌then◌else◌, Bool-cases, Option-cases, inl, inr,
}
use mathlib.Core.Path.{subst}
use mathlib.Core.Option.{some-injective}
use agent_city.Prelude.Key.{◌==◌, text_key, ==-refl}
use agent_city.Prelude.Dict.{Dict, lookup, replace, lookup-replace, Every, Every-replace}
use agent_city.Visa.{Visa, VisaClass, Digests}
use agent_city.Immigration.{
  Office, Application, ApplicationRow, ApplicationReason, ApplicationStatus, pending, under_review,
  approved, rejected, council_pending, council_approved, council_rejected, citizenship_granted,
  revoked, place, same_status, application_row, save_application, save_visa, load_application,
  row_to_application, open_office, load_visa_by_agent,
}
use agent_city.Immigration.Process.{
  Review, process, reviewing, judge, putting_to_vote, decide, submit_application, start_review,
  complete_review, move_to_council, record_council_vote, register_mahajan, grant_citizenship,
  citizen_visa, revoke_citizenship,
}
use agent_city.Immigration.Steps.{
  Step, Reach, opened, stepped, submit, review, complete, convene, conclude, found, grant, revoke,
}

status_at : ℕ → ApplicationStatus
status_at n =
    if eqb n 0
    then pending
    else if eqb n 1
    then under_review
    else if eqb n 2
    then approved
    else if eqb n 3
    then rejected
    else if eqb n 4
    then council_pending
    else if eqb n 5
    then council_approved
    else if eqb n 6
    then council_rejected
    else if eqb n 7
    then citizenship_granted
    else revoked

status_at-place : (a : ApplicationStatus) → status_at (place a) ≡ a
unfolding status_at
status_at-place pending = refl
status_at-place under_review = refl
status_at-place approved = refl
status_at-place rejected = refl
status_at-place council_pending = refl
status_at-place council_approved = refl
status_at-place council_rejected = refl
status_at-place citizenship_granted = refl
status_at-place revoked = refl

pub same_status-eq : (a b : ApplicationStatus) → same_status a b ≡ true → a ≡ b
same_status-eq a b h =
    let places : place a ≡ place b = ground arith in
    sym (status_at-place a) ∙ ap status_at places ∙ status_at-place b

-- One move of the journey.
pub data Moves : ApplicationStatus → ApplicationStatus → Type 0 where
  stays : {a : ApplicationStatus} → Moves a a
  opens : Moves pending under_review
  passes : Moves under_review approved
  fails : Moves under_review rejected
  convenes : Moves approved council_pending
  elects : Moves council_pending council_approved
  declines : Moves council_pending council_rejected
  grants : Moves council_approved citizenship_granted

-- The statuses behind a review that was passed, and behind a vote that was won.
abbrev pub was_checked : ApplicationStatus → Bool
was_checked approved = true
was_checked council_pending = true
was_checked council_approved = true
was_checked council_rejected = true
was_checked citizenship_granted = true
was_checked _ = false

abbrev pub was_elected : ApplicationStatus → Bool
was_elected council_approved = true
was_elected citizenship_granted = true
was_elected _ = false

-- A row under its id, with the flags that its status stands for.
pub record IsSound (id : String) (r : ApplicationRow) : Type 0 where
  pub own : r.application_id ≡ id
  pub checked : was_checked r.status ≡ true → (r.kyc_passed ≡ true) × (r.contracts_passed ≡ true)
  pub elected : was_elected r.status ≡ true → r.council_approved ≡ some true

-- What a step makes of a row.
pub record Continues (r r' : ApplicationRow) : Type 0 where
  pub moves : Moves r.status r'.status
  pub agent : r'.agent_name ≡ r.agent_name
  pub asked : r'.requested_visa_class ≡ r.requested_visa_class

pub Continues-refl : (r : ApplicationRow) → Continues r r
Continues-refl r = record { moves = stays; agent = refl; asked = refl }
