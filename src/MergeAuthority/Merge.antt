-- ===== src/MergeAuthority/Merge.antt =====
-- `_merge` of city/review_governance/merge_authority.py: the reservation, the command, and the completion.
use Prim.Native.String.{◌++◌ as join}
use agent_city.Prelude.{
  String, Bool, true, false, not, ◌&&◌, Option, none, some, List, [], ◌∷◌, leb, length,
  if◌then◌else◌,
}
use agent_city.Prelude.Key.{◌==◌, text_key}
use agent_city.Prelude.Texts.{text_le, decimal}
use agent_city.Prelude.Json.{text}
use agent_city.Prelude.Dict.{lookup}
use agent_city.ReviewPolicy.Scope.{chars, is_sha}
use agent_city.ReviewLedger.{
  Event, append, find_event_by_payload, reserve_merge_attempt, attempt_id, has_text,
}
use agent_city.MergeAuthority.{
  Authority, Evaluation, FinalMergeSnapshot, MergeRunResult, RunAnswer, nothing, output, result,
  Outside, Action, ◌>>=◌, give, refuse, require, resolve, timestamp, run, write, audit_pending,
  consult, ledger_error,
}
use agent_city.MergeAuthority.Checks.{validate_final_state, is_actor, is_text}
use agent_city.MergeAuthority.Entries.{
  reserved_payload, succeeded_payload, completed_payload, observe_external,
}
use agent_city.MergeAuthority.Reconcile.{reconcile, has_merge_sha, is_value}

abbrev pub command : Evaluation → List String
command e =
    "pr"
    ∷ "merge"
    ∷ decimal e.pull_request_number
    ∷ "--repo"
    ∷ e.repository
    ∷ "--squash"
    ∷ "--match-head-commit"
    ∷ e.merge_expected_head_sha
    ∷ []

-- A result that the runner answers with, or the one that is made of its text.
unfoldable pub run_result :
    Evaluation → String → RunAnswer → String → String → Action MergeRunResult
run_result e attempt nothing started completed = refuse "MERGE_FAILED"
run_result e attempt (result r) started completed = give r
run_result e attempt output started completed = do
  _ ← require (text_le started completed) "INVALID_TIMESTAMP"
  give (record {
    attempt_id = attempt;
    runner_started_at = started;
    runner_completed_at = completed;
    expected_head_sha = e.merge_expected_head_sha;
    command_succeeded = true;
  })

abbrev pub is_attributable : Evaluation → String → MergeRunResult → Bool
is_attributable e attempt r =
    r.command_succeeded
    && (r.attempt_id == attempt)
    && (r.expected_head_sha == e.merge_expected_head_sha)

-- The one who asked has merged it, while the command ran.
abbrev pub is_own_merge : String → MergeRunResult → FinalMergeSnapshot → Bool
is_own_merge actor r s = is_text actor s.merged_by && elim s.merged_at [
  | none ↦ false
  | some time ↦ text_le r.runner_started_at time && text_le time r.runner_completed_at
]

-- After the command: its success is written down, the host is asked once more, and the merge is completed.
unfoldable pub confirm :
    Authority
    → Outside
    → Evaluation
    → String
    → MergeRunResult
    → String
    → String
    → String
    → Action FinalMergeSnapshot
confirm a o e attempt r actor request_base_sha reason = do
  _ ← write audit_pending (
      append o.coding "merge_attempt_succeeded" (join "merge-success:" attempt)
        (succeeded_payload o e actor attempt r))
  s ← resolve o
  _ ← validate_final_state a o e s true
  _ ← require (s.merged && has_merge_sha s) "MERGE_CONFIRMATION_UNAVAILABLE"
  if not (is_own_merge actor r s) then observe_external a o s "MERGE_CAUSALITY_MISMATCH" else do
    time ← timestamp o
    _ ← write audit_pending (
        append o.coding "merge_completed" (join "merge:" attempt) (
          completed_payload e attempt s actor (text o.worker_identity) request_base_sha reason
            time))
    give s

unfoldable pub execute :
    Authority → Outside → Evaluation → String → String → String → String → Action FinalMergeSnapshot
execute a o e attempt actor request_base_sha reason = do
  started ← timestamp o
  answer ← run o (command e)
  completed ← timestamp o
  r ← run_result e attempt answer started completed
  _ ← require (is_attributable e attempt r) "MERGE_RUN_UNATTRIBUTABLE"
  confirm a o e attempt r actor request_base_sha reason

-- A merge that is there by now is only reconciled.
unfoldable pub execute_unless :
    Bool
    → Authority
    → Outside
    → Evaluation
    → String
    → String
    → String
    → String
    → Action FinalMergeSnapshot
execute_unless merged a o e attempt actor request_base_sha reason =
    if merged
    then reconcile a o e request_base_sha actor reason
    else execute a o e attempt actor request_base_sha reason

-- With the reservation: it must be this worker's, and the host is asked again before the command is run.
unfoldable pub attempt_merge :
    Authority → Outside → Evaluation → Event → String → String → String → Action FinalMergeSnapshot
attempt_merge a o e reservation actor request_base_sha reason =
    elim (attempt_id reservation.unsigned.payload) [
      | none ↦ refuse "LEDGER_CORRUPTION"
      | some attempt ↦ do
        _ ←
            require
              (has_text "merge_expected_head_sha" e.merge_expected_head_sha
                reservation.unsigned.payload)
              "MERGE_ATTEMPT_CONFLICT"
        _ ←
            require (has_text "worker_identity" o.worker_identity reservation.unsigned.payload)
              "MERGE_ATTEMPT_OWNERSHIP_CONFLICT"
        s ← resolve o
        _ ← validate_final_state a o e s s.merged
        execute_unless s.merged a o e attempt actor request_base_sha reason
    ]

-- The completion of the evaluation, if there is one: what the reservation answered with, or one in the ledger.
unfoldable pub completion_of : Outside → Evaluation → Event → Action (Option Event)
completion_of o e committed =
    if committed.unsigned.event_type == "merge_completed"
    then give (some committed)
    else consult ledger_error
        (find_event_by_payload o.coding "merge_completed" "evaluation_id" e.evaluation_id)

-- The time of a new reservation is read from the clock also where the ledger holds one already.
unfoldable pub merge :
    Authority → Outside → Evaluation → String → String → String → Action FinalMergeSnapshot
merge a o e actor request_base_sha reason = do
  _ ← require a.enabled "MERGE_AUTHORITY_DISABLED"
  _ ← require (is_actor actor) "INVALID_ACTOR"
  _ ← require (leb (length (chars reason)) 2000) "INVALID_REASON"
  _ ← require (is_sha request_base_sha) "INVALID_SHA"
  _ ← require (e.readiness_state == "ready") "READINESS_NOT_READY"
  _ ← require a.has_ledger "LEDGER_REQUIRED"
  s ← resolve o
  _ ← validate_final_state a o e s true
  time ← timestamp o
  committed ←
      write ledger_error
        (reserve_merge_attempt o.coding e.evaluation_id (reserved_payload o e actor reason time))
  completion ← completion_of o e committed
  elim completion [
    | some c ↦ do
      _ ←
          require
            (s.merged && is_value (lookup "final_merge_sha" c.unsigned.payload) s.final_merge_sha)
            "MERGE_CONFIRMATION_MISMATCH"
      give s
    | none ↦ attempt_merge a o e committed actor request_base_sha reason
  ]
