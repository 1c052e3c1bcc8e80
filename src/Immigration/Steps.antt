-- ===== src/Immigration/Steps.antt =====
-- The office as a state machine: one step is one call of an operation, with any arguments and clock. A
-- digest that an operation makes is of no document on file, as digests of different texts are taken to
-- be different.
pub mod Filing
pub mod Registry
pub mod Journey
use agent_city.Prelude.{ℕ, String, Bool, Option, none, some, [], ◌≡◌}
use agent_city.Prelude.Key.{text_key}
use agent_city.Prelude.Dict.{Dict, lookup}
use agent_city.Visa.{VisaClass, Digests}
use agent_city.Immigration.{Office, Application, ApplicationReason, open_office, load_application}
use agent_city.Immigration.Process.{
  Review, submit_application, start_review, complete_review, move_to_council, record_council_vote,
  register_mahajan, mahajan, grant_citizenship, citizen_visa, revoke_citizenship,
}

module _ (ds : Digests) where
  pub data Step (s : Office) : Office → Type 0 where
    submit :
        (now now' : ℕ) (name : String) (reason : ApplicationReason) (c : VisaClass)
        → lookup (ds.application_digest name now) s.applications ≡ none
        → Step s (submit_application ds now now' name reason c s).0
    review : (now : ℕ) (app_id reviewer : String) → Step s (start_review ds now app_id reviewer s).0
    complete :
        (now : ℕ) (app_id : String) (r : Review) → Step s (complete_review ds now app_id r s).0
    convene : (app_id vote_id : String) → Step s (move_to_council ds app_id vote_id s).0
    conclude :
        (now : ℕ) (app_id : String) (approved : Bool) (vote_tally : Dict String ℕ)
        → Step s (record_council_vote ds now app_id approved vote_tally s).0
    found :
        (now : ℕ) (name : String)
        → lookup (ds.visa_digest name now "city_genesis") s.visas ≡ none
        → Step s (register_mahajan ds now name s).0
    grant :
        (now : ℕ) (app_id sponsor : String)
        → ((app : Application)
            → load_application ds app_id s ≡ some app
            → lookup (citizen_visa ds now app_id sponsor app s).visa_id s.visas ≡ none)
        → Step s (grant_citizenship ds now app_id sponsor s).0
    revoke : (now : ℕ) (name reason : String) → Step s (revoke_citizenship ds now name reason s).0

  -- From the office of an empty file.
  pub data Reach : Office → Type 0 where
    opened : (now : ℕ) → Reach (open_office ds now [] [])
    stepped : {s s' : Office} → Reach s → Step s s' → Reach s'
