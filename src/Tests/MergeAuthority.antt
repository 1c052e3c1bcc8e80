-- ===== src/Tests/MergeAuthority.antt =====
-- A worker who merges a pull request that was evaluated as ready.
use agent_city.Prelude.{
  ℕ, zero, suc, ◌≡◌, refl, String, true, false, Option, none, some, [], ◌∷◌, length,
}
use agent_city.Prelude.Int.{pos}
use agent_city.Prelude.Key.{text_key}
use agent_city.Prelude.Json.{text, number}
use agent_city.Prelude.Dict.{lookup, contains}
use agent_city.Prelude.Texts.{text_le, decimal}
use agent_city.ReviewPolicy.Scope.{chars, holds_any, is_sha}
use agent_city.ReviewLedger.Lineage.{
  has_number, is_malformed, take_in, standing_of, readiness_lineage, evaluations_of,
  latest_readiness_record,
}
use agent_city.MergeAuthority.Checks.{is_actor, validate_final_state}
use agent_city.MergeAuthority.Entries.{reserved_payload, succeeded_payload, completed_payload}
use agent_city.ReviewLedger.{
  Coding, Event, event, ledger_schema, is_next, is_one_of, read_lines, read_unlocked, has_text,
  last_digest, is_taken, write_event, append, events_for, attempt_id, reserve_merge_attempt,
  find_event_by_payload, first_where,
}
use agent_city.MergeAuthority.{
  Authority, Evaluation, FinalMergeSnapshot, Outside, World, output, continue, ◌>>=◌, require,
  resolve, timestamp, run, write, consult,
}
use agent_city.MergeAuthority.Merge.{
  merge, command, completion_of, attempt_merge, execute_unless, execute, run_result, confirm,
}

abbrev coding : Coding
coding = record { digest = λ u. u.event_id; size = length; max_bytes = 100 }

abbrev head : String
head = "0123456789abcdef0123456789abcdef01234567"

abbrev base : String
base = "1123456789abcdef0123456789abcdef01234567"

abbrev check : String
check = "2123456789abcdef0123456789abcdef01234567"

abbrev final : String
final = "3123456789abcdef0123456789abcdef01234567"

abbrev evaluation : Evaluation
evaluation = record {
  evaluation_id = "ev1";
  verdict_id = "v1";
  repository = "kimeisele/agent-city";
  pull_request_number = 7;
  reviewed_head_sha = head;
  validated_current_base_sha = base;
  integration_check_sha = check;
  core_gate_state = "non_core";
  merge_expected_head_sha = head;
  readiness_state = "ready";
}

abbrev readiness : Event
readiness = record {
  unsigned = record {
    schema = ledger_schema;
    sequence = 1;
    event_id = "r1";
    event_type = "merge_readiness_evaluated";
    payload =
        ("repository", text "kimeisele/agent-city")
        ∷ ("pull_request_number", number (pos 7))
        ∷ ("reviewed_head_sha", text head)
        ∷ ("evaluation_id", text "ev1")
        ∷ ("head_evidence_identity", text "h1")
        ∷ ("integration_evidence_identity", text "i1")
        ∷ [];
    previous_digest = "";
  };
  event_digest = "r1";
}

-- The pull request, with the head of the ledger as it was looked at.
abbrev open_request : String → FinalMergeSnapshot
open_request ledger_head = record {
  repository = "kimeisele/agent-city";
  pull_request_number = 7;
  current_head_sha = head;
  current_base_sha = base;
  current_integration_check_sha = check;
  pr_state = "open";
  mergeability_state = "mergeable";
  head_evidence_state = "verified";
  head_evidence_identity = "h1";
  integration_evidence_state = "verified";
  integration_evidence_identity = "i1";
  council_state = "not_required";
  latest_readiness_evaluation_id = some "ev1";
  readiness_invalidated = false;
  ledger_head_identity = some ledger_head;
  merged = false;
  final_merge_sha = none;
  merged_by = none;
  merged_at = none;
}

abbrev merged_request : FinalMergeSnapshot
merged_request = record (open_request "merge-success:merge-attempt:ev1:n1") {
  pr_state = "closed";
  mergeability_state = "unknown";
  merged = true;
  final_merge_sha = some final;
  merged_by = some "ada";
  merged_at = some "t1";
}

abbrev answers : ℕ → Option FinalMergeSnapshot
answers zero = some (open_request "r1")
answers (suc zero) = some (open_request "merge-attempt:ev1:n1")
answers (suc (suc _)) = some merged_request

abbrev outside : Outside
outside = record {
  coding = coding;
  resolve = answers;
  clock = λ _. "t1";
  run = λ _. output;
  worker_identity = "ada@pid:1@thread:1";
  nonce = "n1";
}

abbrev authority : Authority
authority = record { enabled = true; has_ledger = true }

abbrev world : World
world = record { file = some (event readiness ∷ []); resolved = 0; ticks = 0; runs = [] }

-- The whole call, on these answers: the command is run, and the merge returned.
merges : (merge authority outside evaluation "ada" base "" world).0.runs ≡ command evaluation ∷ []
unfolding merge completion_of attempt_merge execute_unless execute run_result confirm continue ◌>>=◌
    require resolve timestamp run write consult is_actor validate_final_state reserved_payload
    succeeded_payload completed_payload is_next is_one_of read_lines read_unlocked has_text
    last_digest is_taken write_event append events_for attempt_id reserve_merge_attempt
    find_event_by_payload first_where has_number is_malformed take_in standing_of readiness_lineage
    evaluations_of latest_readiness_record chars holds_any is_sha text_le decimal lookup contains
merges = refl
