-- ===== src/MergeAuthority/Entries.antt =====
-- What city/review_governance/merge_authority.py writes to the ledger, and `_record_external_merge`.
use Prim.Native.Char.{code}
use Prim.Native.String.{◌++◌ as join}
use agent_city.Prelude.{
  String, Bool, true, false, not, Option, none, some, [], ◌∷◌, eqb, if◌then◌else◌,
}
use agent_city.Prelude.Int.{pos}
use agent_city.Prelude.Key.{text_key}
use agent_city.Prelude.Texts.{decimal}
use agent_city.Prelude.Json.{Json, text, null, number, boolean}
use agent_city.ReviewLedger.{Payload, append, find_event}
use agent_city.MergeAuthority.{
  Authority, Evaluation, FinalMergeSnapshot, MergeRunResult, Outside, Action, ◌>>=◌, give, refuse,
  timestamp, write, consult, ledger_error,
}

abbrev optional : Option String → Json
optional none = null
optional (some s) = text s

has_colon : String → Bool
has_colon String.[] = false
has_colon (String.◌∷◌ c s) = let rest = has_colon s in if eqb (code c) 58 then true else rest

-- `s.rsplit(":", 1)[-1]`
unfoldable pub last_part : String → String
unfolding has_colon
last_part String.[] = ""
last_part (String.◌∷◌ c s) =
    let rest = last_part s in
    if has_colon s then rest else if eqb (code c) 58 then s else String.◌∷◌ c s

unfoldable pub reserved_payload : Outside → Evaluation → String → String → String → Payload
reserved_payload o e actor reason time =
    ("attempt_id", text (join "merge-attempt:" (join e.evaluation_id (join ":" o.nonce))))
    ∷ ("attempt_nonce", text o.nonce)
    ∷ ("worker_identity", text o.worker_identity)
    ∷ ("repository", text e.repository)
    ∷ ("pull_request_number", number (pos e.pull_request_number))
    ∷ ("evaluation_id", text e.evaluation_id)
    ∷ ("verdict_id", text e.verdict_id)
    ∷ ("reviewed_head_sha", text e.reviewed_head_sha)
    ∷ ("validated_current_base_sha", text e.validated_current_base_sha)
    ∷ ("integration_check_sha", text e.integration_check_sha)
    ∷ ("merge_expected_head_sha", text e.merge_expected_head_sha)
    ∷ ("actor", text actor)
    ∷ ("reason", text reason)
    ∷ ("timestamp", text time)
    ∷ ("state", text "reserved")
    ∷ []

unfoldable pub succeeded_payload : Outside → Evaluation → String → String → MergeRunResult → Payload
succeeded_payload o e actor attempt r =
    ("attempt_id", text attempt)
    ∷ ("attempt_nonce", text (last_part attempt))
    ∷ ("evaluation_id", text e.evaluation_id)
    ∷ ("repository", text e.repository)
    ∷ ("pull_request_number", number (pos e.pull_request_number))
    ∷ ("expected_head_sha", text r.expected_head_sha)
    ∷ ("actor", text actor)
    ∷ ("worker_identity", text o.worker_identity)
    ∷ ("runner_started_at", text r.runner_started_at)
    ∷ ("runner_completed_at", text r.runner_completed_at)
    ∷ []

unfoldable pub completed_payload :
    Evaluation → String → FinalMergeSnapshot → String → Json → String → String → String → Payload
completed_payload e attempt s actor worker request_base_sha reason time =
    ("attempt_id", text attempt)
    ∷ ("attempt_nonce", text (last_part attempt))
    ∷ ("repository", text e.repository)
    ∷ ("pull_request_number", number (pos e.pull_request_number))
    ∷ ("verdict_id", text e.verdict_id)
    ∷ ("evaluation_id", text e.evaluation_id)
    ∷ ("reviewed_head_sha", text e.reviewed_head_sha)
    ∷ ("review_request_base_sha", text request_base_sha)
    ∷ ("validated_current_base_sha", text e.validated_current_base_sha)
    ∷ ("integration_check_sha", text e.integration_check_sha)
    ∷ ("merge_expected_head_sha", text e.merge_expected_head_sha)
    ∷ ("final_merge_sha", optional s.final_merge_sha)
    ∷ ("actor", text actor)
    ∷ ("worker_identity", worker)
    ∷ ("reason", text reason)
    ∷ ("timestamp", text time)
    ∷ []

unfoldable pub external_payload : FinalMergeSnapshot → String → String → String → Payload
external_payload s sha reason time =
    ("repository", text s.repository)
    ∷ ("pull_request_number", number (pos s.pull_request_number))
    ∷ ("observed_head_sha", text s.current_head_sha)
    ∷ ("final_merge_sha", text sha)
    ∷ ("actor", optional s.merged_by)
    ∷ ("readiness_current", boolean (not s.readiness_invalidated))
    ∷ ("reason", text reason)
    ∷ ("observed_at", text time)
    ∷ []

unfoldable pub record_external_merge :
    Authority → Outside → FinalMergeSnapshot → String → Action Bool
record_external_merge a o s reason =
    if not a.has_ledger
    then give false
    else elim s.final_merge_sha [ none ↦ give false | some sha ↦ write_external sha ]
  where
    write_external : String → Action Bool
    write_external sha = do
      let event_id =
          join "external:"
            (join s.repository (join ":" (join (decimal s.pull_request_number) (join ":" sha))))
      found ← consult ledger_error (find_event o.coding event_id)
      elim found [
        | some _ ↦ give false
        | none ↦ do
          time ← timestamp o
          _ ← write ledger_error (
              append o.coding "external_merge_observed" event_id
                (external_payload s sha reason time))
          give true
      ]

-- A merge that is not this worker's own is written down, and the call is refused.
unfoldable pub observe_external :
    Authority → Outside → FinalMergeSnapshot → String → Action FinalMergeSnapshot
observe_external a o s reason = do
  _ ← record_external_merge a o s reason
  refuse "EXTERNAL_MERGE_OBSERVED"
