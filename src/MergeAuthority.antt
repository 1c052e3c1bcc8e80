-- ===== src/MergeAuthority.antt =====
-- city/review_governance/merge_authority.py: who may merge a reviewed pull request, and how a merge is written
-- to the ledger. The resolver of the state on the host, the runner of `gh`, the clock, the worker's identity and
-- the nonce are an Outside. What a call does is an Action on the ledger's file, the number of questions to the
-- resolver and the clock so far, and the commands that were run, the last one first.
-- No other process writes to the ledger between the steps of a call.
pub mod Checks
pub mod Entries
pub mod Merge
pub mod Reconcile
pub mod Rules
pub mod Cleared
pub mod Allowed
pub mod Guarded
use Prim.Native.Char.{code}
use Prim.Native.String.{String as Text}
use agent_city.Prelude.{
  ℕ, ◌+◌, String, Bool, true, false, not, ◌&&◌, ◌||◌, Option, none, some, List, [], ◌∷◌, leb, eqb,
  if◌then◌else◌,
}
use agent_city.ReviewLedger.{
  Coding, File, Payload, LedgerError, Event, Answer, done, failed, append,
}

-- Whether it is enabled, and whether it has a ledger.
pub record Authority : Type 0 where
  pub enabled : Bool
  pub has_ledger : Bool

-- The fields of MergeReadinessEvaluationB1 that a merge reads.
pub record Evaluation : Type 0 where
  pub evaluation_id : String
  pub verdict_id : String
  pub repository : String
  pub pull_request_number : ℕ
  pub reviewed_head_sha : String
  pub validated_current_base_sha : String
  pub integration_check_sha : String
  pub core_gate_state : String
  pub merge_expected_head_sha : String
  pub readiness_state : String

pub record FinalMergeSnapshot : Type 0 where
  pub repository : String
  pub pull_request_number : ℕ
  pub current_head_sha : String
  pub current_base_sha : String
  pub current_integration_check_sha : String
  pub pr_state : String
  pub mergeability_state : String
  pub head_evidence_state : String
  pub head_evidence_identity : String
  pub integration_evidence_state : String
  pub integration_evidence_identity : String
  pub council_state : String
  pub latest_readiness_evaluation_id : Option String
  pub readiness_invalidated : Bool
  pub ledger_head_identity : Option String
  pub merged : Bool
  pub final_merge_sha : Option String
  pub merged_by : Option String
  pub merged_at : Option String

pub record MergeRunResult : Type 0 where
  pub attempt_id : String
  pub runner_started_at : String
  pub runner_completed_at : String
  pub expected_head_sha : String
  pub command_succeeded : Bool

-- What a runner answers: None, a text, or a result of its own.
pub data RunAnswer : Type 0 where
  nothing : RunAnswer
  output : RunAnswer
  result : MergeRunResult → RunAnswer

-- The answers to the n-th question. Where the resolver raises there is no snapshot.
pub record Outside : Type 0 where
  pub coding : Coding
  pub resolve : ℕ → Option FinalMergeSnapshot
  pub clock : ℕ → String
  pub run : List String → RunAnswer
  pub worker_identity : String
  pub nonce : String

pub record World : Type 0 where
  pub file : File
  pub resolved : ℕ
  pub ticks : ℕ
  pub runs : List (List String)

-- A MergeAuthorityError with its code, a LedgerError that is not caught, what a resolver raises, or what a
-- comparison of a text with another value raises.
pub data Failure : Type 0 where
  refused : String → Failure
  ledger_error : LedgerError → Failure
  unresolved : Failure
  type_error : Failure

pub data Outcome (A : Type 0) : Type 0 where
  returned : A → Outcome A
  raised : Failure → Outcome A

abbrev pub Action : Type 0 → Type 0
Action A = World → World × Outcome A

unfoldable pub continue : {A B : Type 0} → World × Outcome A → (A → Action B) → World × Outcome B
continue (w, returned a) k = k a w
continue (w, raised e) k = (w, raised e)

infixl 5 ◌>>=◌
unfoldable pub ◌>>=◌ : {A B : Type 0} → Action A → (A → Action B) → Action B
unfolding continue
m >>= k = λ w. continue (m w) k

abbrev pub give : {A : Type 0} → A → Action A
give a w = (w, returned a)

abbrev pub refuse : {A : Type 0} → String → Action A
refuse code w = (w, raised (refused code))

-- `if not …: raise MergeAuthorityError(code)`
unfoldable pub require : Bool → String → Action Bool
require b code w = if b then (w, returned b) else (w, raised (refused code))

unfoldable pub resolve : Outside → Action FinalMergeSnapshot
resolve o w =
    let w' = record w { resolved = w.resolved + 1 } in
    elim (o.resolve w.resolved) [ none ↦ (w', raised unresolved) | some s ↦ (w', returned s) ]

unfoldable pub timestamp : Outside → Action String
timestamp o w = (record w { ticks = w.ticks + 1 }, returned (o.clock w.ticks))

unfoldable pub run : Outside → List String → Action RunAnswer
run o args w = (record w { runs = args ∷ w.runs }, returned (o.run args))

-- A call of the ledger that may write, and what an error of it is turned into.
unfoldable pub write : (LedgerError → Failure) → (File → File × Answer Event) → Action Event
write turn call w =
    let after = call w.file in
    elim after.1 [
      | done e ↦ (record w { file = after.0 }, returned e)
      | failed e ↦ (record w { file = after.0 }, raised (turn e))
    ]

-- A call of the ledger that only reads.
unfoldable pub consult : {A : Type 0} → (LedgerError → Failure) → (File → Answer A) → Action A
consult turn call w = elim (call w.file) [
  | done a ↦ (w, returned a)
  | failed e ↦ (w, raised (turn e))
]

abbrev pub audit_pending : LedgerError → Failure
audit_pending e = refused "MERGE_SUCCEEDED_AUDIT_PENDING"
