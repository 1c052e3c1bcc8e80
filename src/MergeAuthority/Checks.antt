-- ===== src/MergeAuthority/Checks.antt =====
-- `_validate_final_state` of city/review_governance/merge_authority.py.
use agent_city.Prelude.{
  ℕ, String, Bool, true, false, not, ◌&&◌, ◌||◌, Option, none, some, leb, eqb, length,
}
use agent_city.Prelude.Key.{◌==◌, text_key}
use agent_city.Prelude.Json.{Json, text}
use agent_city.ReviewPolicy.Scope.{chars, holds_any}
use agent_city.ReviewLedger.{LedgerError, readiness_not_found, Payload, has_text}
use agent_city.ReviewLedger.Lineage.{Subject, Lineage, readiness_lineage, latest_readiness_record}
use agent_city.MergeAuthority.{
  Authority, Evaluation, FinalMergeSnapshot, Outside, Failure, Action, ◌>>=◌, require, consult,
  refused, ledger_error,
}

-- Whether the value is this text; there may be none.
abbrev pub is_text : String → Option String → Bool
is_text s none = false
is_text s (some t) = t == s

abbrev pub is_json_text : String → Option Json → Bool
is_json_text s (some (text t)) = t == s
is_json_text s _ = false

abbrev pub same_option : Option String → Option String → Bool
same_option none none = true
same_option (some a) (some b) = a == b
same_option _ _ = false

-- ACTOR_RE: letters, digits, and _.@:/-
abbrev is_actor_char : ℕ → Bool
is_actor_char c =
    (leb 65 c && leb c 90)
    || (leb 97 c && leb c 122)
    || (leb 45 c && leb c 58)
    || eqb c 64
    || eqb c 95

unfoldable pub is_actor : String → Bool
is_actor s =
    let cs = chars s in
    leb 1 (length cs) && leb (length cs) 256 && not (holds_any (λ c. not (is_actor_char c)) cs)

abbrev pub subject : Evaluation → Subject
subject e = record {
  repository = e.repository;
  pull_request_number = e.pull_request_number;
  reviewed_head_sha = e.reviewed_head_sha;
  evaluation_id = e.evaluation_id;
}

abbrev pub is_same_request : Evaluation → FinalMergeSnapshot → Bool
is_same_request e s =
    (s.repository == e.repository) && eqb s.pull_request_number e.pull_request_number

abbrev pub is_mergeable : FinalMergeSnapshot → Bool
is_mergeable s = (s.pr_state == "open") && (s.mergeability_state == "mergeable")

abbrev pub is_closed_by_merge : FinalMergeSnapshot → Bool
is_closed_by_merge s = s.merged && (s.pr_state == "closed")

abbrev pub has_evidence : FinalMergeSnapshot → Bool
has_evidence s =
    (s.head_evidence_state == "verified") && (s.integration_evidence_state == "verified")

abbrev pub agrees_with_council : Evaluation → FinalMergeSnapshot → Bool
agrees_with_council e s =
    not (e.core_gate_state == "core_approved") || (s.council_state == "approved")

abbrev pub needs_no_council : Evaluation → FinalMergeSnapshot → Bool
needs_no_council e s = not (e.core_gate_state == "non_core") || (s.council_state == "not_required")

abbrev pub is_current : Evaluation → FinalMergeSnapshot → Lineage → Bool
is_current e s l =
    is_json_text e.evaluation_id l.latest
    && not l.is_invalidated
    && same_option l.ledger_head s.ledger_head_identity

abbrev pub has_identities : FinalMergeSnapshot → Payload → Bool
has_identities s p =
    has_text "head_evidence_identity" s.head_evidence_identity p
    && has_text "integration_evidence_identity" s.integration_evidence_identity p

-- What `latest_readiness_record` raises, passed on with its code.
abbrev as_refusal : LedgerError → Failure
as_refusal readiness_not_found = refused "READINESS_NOT_FOUND"
as_refusal _ = refused "LEDGER_CORRUPTION"

unfoldable pub validate_final_state :
    Authority → Outside → Evaluation → FinalMergeSnapshot → Bool → Action Bool
validate_final_state a o e s allow_merged_confirmation = do
  _ ← require (is_same_request e s) "PR_IDENTITY_CHANGED"
  _ ←
      require (is_mergeable s || (allow_merged_confirmation && is_closed_by_merge s))
        "PR_NOT_MERGEABLE"
  _ ← require (s.current_head_sha == e.merge_expected_head_sha) "HEAD_CHANGED"
  _ ← require (s.current_base_sha == e.validated_current_base_sha) "BASE_CHANGED"
  _ ← require (s.current_integration_check_sha == e.integration_check_sha) "INTEGRATION_CHANGED"
  _ ← require (has_evidence s) "EVIDENCE_NOT_VERIFIED"
  _ ← require (agrees_with_council e s) "COUNCIL_REQUIRED"
  _ ← require (needs_no_council e s) "COUNCIL_STATE_CHANGED"
  _ ← require (is_text e.evaluation_id s.latest_readiness_evaluation_id) "READINESS_SUPERSEDED"
  _ ← require (not s.readiness_invalidated) "READINESS_INVALIDATED"
  _ ← require a.has_ledger "LEDGER_REQUIRED"
  lineage ← consult ledger_error (readiness_lineage o.coding (subject e))
  _ ← require (is_current e s lineage) "READINESS_LINEAGE_INVALID"
  payload ← consult as_refusal (latest_readiness_record o.coding (subject e))
  require (has_identities s payload) "EVIDENCE_IDENTITY_CHANGED"
