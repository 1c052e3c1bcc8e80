-- ===== src/MergeAuthority/Reconcile.antt =====
-- `reconcile` of city/review_governance/merge_authority.py: a merge that the host shows is completed in the
-- ledger, if the ledger proves that it is the worker's own. The workers of two entries are compared as texts,
-- which is what the authority writes there.
use Prim.Native.String.{◌++◌ as join}
use agent_city.Prelude.{
  String, Bool, true, false, not, ◌&&◌, ◌||◌, Option, none, some, if◌then◌else◌,
}
use agent_city.Prelude.Key.{◌==◌, text_key}
use agent_city.Prelude.Texts.{text_le}
use agent_city.Prelude.Json.{Json, text, null}
use agent_city.Prelude.Dict.{lookup}
use agent_city.ReviewPolicy.Scope.{is_sha}
use agent_city.ReviewLedger.{Payload, append, find_event_by_payload, attempt_id, has_text}
use agent_city.MergeAuthority.{
  Authority, Evaluation, FinalMergeSnapshot, Outside, Action, ◌>>=◌, give, refuse, require, resolve,
  timestamp, write, consult, audit_pending, ledger_error, raised, type_error,
}
use agent_city.MergeAuthority.Checks.{is_same_request}
use agent_city.MergeAuthority.Entries.{completed_payload, observe_external}

-- `payload.get(…)` against a value that may be None.
abbrev pub is_value : Option Json → Option String → Bool
is_value none none = true
is_value (some null) none = true
is_value (some (text t)) (some s) = t == s
is_value _ _ = false

abbrev same_worker : Option Json → Option Json → Bool
same_worker none o = is_value o none
same_worker (some null) o = is_value o none
same_worker (some (text t)) o = is_value o (some t)
same_worker (some _) o = false

-- `payload.get(…, "")`, if it is a text.
abbrev moment : Option Json → Option String
moment none = some ""
moment (some (text t)) = some t
moment (some _) = none

-- `start <= time <= end`; `none` is a TypeError.
unfoldable pub is_between : Option Json → String → Option Json → Option Bool
is_between start time end = elim (moment start) [
  | none ↦ none
  | some a ↦
      if not (text_le a time)
      then some false
      else elim (moment end) [ none ↦ none | some b ↦ some (text_le time b) ]
]

abbrev or_empty : Option String → String
or_empty none = ""
or_empty (some s) = s

-- The proof names the one who merged, the worker that reserved, and the head; and the merge falls in its run.
unfoldable pub is_proven : Payload → Payload → FinalMergeSnapshot → Option Bool
is_proven proof reservation s =
    if not (is_value (lookup "actor" proof) s.merged_by)
      || not (same_worker (lookup "worker_identity" proof) (lookup "worker_identity" reservation))
      || not (has_text "expected_head_sha" s.current_head_sha proof)
    then some false
    else is_between (lookup "runner_started_at" proof) (or_empty s.merged_at)
        (lookup "runner_completed_at" proof)

abbrev pub has_merge_sha : FinalMergeSnapshot → Bool
has_merge_sha s = elim s.final_merge_sha [ none ↦ false | some sha ↦ not (sha == "") ]

abbrev pub is_valid_sha : FinalMergeSnapshot → Bool
is_valid_sha s = elim s.final_merge_sha [ none ↦ false | some sha ↦ is_sha sha ]

abbrev pub is_confirmed_request : Evaluation → FinalMergeSnapshot → Bool
is_confirmed_request e s =
    is_same_request e s
    && (s.current_head_sha == e.merge_expected_head_sha)
    && (s.current_base_sha == e.validated_current_base_sha)
    && (s.current_integration_check_sha == e.integration_check_sha)

abbrev worker_of : Payload → Json
worker_of p = elim (lookup "worker_identity" p) [ none ↦ null | some j ↦ j ]

-- Once the merge is proven: the completion that is there is checked, or else one is written.
unfoldable pub complete :
    Outside
    → Evaluation
    → String
    → Payload
    → FinalMergeSnapshot
    → String
    → String
    → String
    → Action FinalMergeSnapshot
complete o e attempt reservation s request_base_sha actor reason = do
  existing ←
      consult ledger_error
        (find_event_by_payload o.coding "merge_completed" "evaluation_id" e.evaluation_id)
  elim existing [
    | some c ↦ do
      _ ←
          require (is_value (lookup "final_merge_sha" c.unsigned.payload) s.final_merge_sha)
            "MERGE_CONFIRMATION_MISMATCH"
      give s
    | none ↦ do
      time ← timestamp o
      _ ← write audit_pending (
          append o.coding "merge_completed" (join "merge:" attempt) (
            completed_payload e attempt s actor (worker_of reservation) request_base_sha reason
              time))
      give s
  ]

-- What the ledger says of a merge that the host confirms.
unfoldable pub judge :
    Authority
    → Outside
    → Evaluation
    → String
    → Payload
    → FinalMergeSnapshot
    → String
    → String
    → String
    → Action FinalMergeSnapshot
judge a o e attempt reservation s request_base_sha actor reason = do
  proof ←
      consult ledger_error
        (find_event_by_payload o.coding "merge_attempt_succeeded" "attempt_id" attempt)
  elim proof [
    | none ↦
        if is_value (some (text actor)) s.merged_by
        then refuse "MERGE_CAUSALITY_INDETERMINATE"
        else observe_external a o s "INTERNAL_SUCCESS_PROOF_UNAVAILABLE"
    | some p ↦ elim (is_proven p.unsigned.payload reservation s) [
      | none ↦ λ w. (w, raised type_error)
      | some proven ↦
          if proven
          then complete o e attempt reservation s request_base_sha actor reason
          else observe_external a o s "MERGE_CAUSALITY_MISMATCH"
    ]
  ]

unfoldable pub reconcile :
    Authority → Outside → Evaluation → String → String → String → Action FinalMergeSnapshot
reconcile a o e request_base_sha actor reason = do
  _ ← require a.has_ledger "LEDGER_REQUIRED"
  reservation ←
      consult ledger_error
        (find_event_by_payload o.coding "merge_attempt_reserved" "evaluation_id" e.evaluation_id)
  elim reservation [
    | none ↦ refuse "NO_MERGE_RESERVATION"
    | some r ↦ elim (attempt_id r.unsigned.payload) [
      | none ↦ refuse "LEDGER_CORRUPTION"
      | some attempt ↦ do
        s ← resolve o
        _ ← require (s.merged && has_merge_sha s) "MERGE_NOT_CONFIRMED"
        _ ← require (is_confirmed_request e s) "MERGE_CONFIRMATION_MISMATCH"
        _ ← require (is_valid_sha s) "INVALID_SHA"
        judge a o e attempt r.unsigned.payload s request_base_sha actor reason
    ]
  ]
