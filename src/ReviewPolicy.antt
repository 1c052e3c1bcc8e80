-- ===== src/ReviewPolicy.antt =====
-- city/review_governance/policy.py and scope.py: whether a review verdict can still be used once
-- the base branch has moved. The core classifier of the consumer and the test for Unicode's normal form C
-- are arguments.
pub mod Scope
pub mod Free
pub mod Sets
pub mod Usable
use agent_city.Prelude.{
  ℕ, String, Bool, true, false, not, ◌&&◌, ◌||◌, Option, none, some, List, [], ◌∷◌, ◌++◌, eqb,
  if◌then◌else◌,
}
use agent_city.Prelude.Key.{◌==◌, text_key}
use agent_city.Prelude.Texts.{text_le}
use agent_city.Prelude.Sort.{order_by}
use agent_city.ReviewPolicy.Scope.{Entry, canonical_scope, is_member}

pub data Classification : Type 0 where
  unmoved non_core_non_overlap core_or_overlap conflict unknown : Classification

pub data Overlap : Type 0 where
  nothing overlap unclear : Overlap

pub record BaseDriftEvaluation : Type 0 where
  pub classification : Classification
  pub base_moved : Bool
  pub overlaps : Overlap
  pub core_paths : List String
  pub changed_paths : List String
  pub error_code : Option String

abbrev pub is_empty {ℓ} : {A : Type ℓ} → List A → Bool
is_empty [] = true
is_empty (_ ∷ _) = false

abbrev pub is_nothing : Overlap → Bool
is_nothing nothing = true
is_nothing _ = false

abbrev pub is_overlap : Overlap → Bool
is_overlap overlap = true
is_overlap _ = false

unfoldable pub is_subset : List String → List String → Bool
is_subset [] ys = true
is_subset (x ∷ xs) ys = let rest = is_subset xs ys in if is_member x ys then rest else false

-- `__post_init__`: whether the fields agree; if not, it raises.
unfoldable pub is_consistent : BaseDriftEvaluation → Bool
is_consistent d = elim d.classification [
  | unmoved ↦
      not d.base_moved && is_nothing d.overlaps && is_empty d.core_paths && is_empty d.changed_paths
  | non_core_non_overlap ↦
      d.base_moved
      && is_nothing d.overlaps
      && is_empty d.core_paths
      && not (is_empty d.changed_paths)
  | core_or_overlap ↦
      d.base_moved
      && not (is_empty d.changed_paths)
      && (is_overlap d.overlaps || not (is_empty d.core_paths))
      && is_subset d.core_paths d.changed_paths
  | conflict ↦ d.base_moved
  | unknown ↦ d.base_moved
]

-- A BaseDriftEvaluation is made, or a ValueError is raised.
abbrev pub made : BaseDriftEvaluation → Option BaseDriftEvaluation
made d = if is_consistent d then some d else none

abbrev pub paths_of : Entry → List String
paths_of e = elim e.previous_path [
  | none ↦ e.path ∷ []
  | some p ↦ if p == "" then e.path ∷ [] else e.path ∷ p ∷ []
]

-- `_paths`, a set: each path once.
unfoldable pub all_paths : List Entry → List String
all_paths [] = []
all_paths (e ∷ es) = paths_of e ++ all_paths es

unfoldable pub distinct : List String → List String
distinct [] = []
distinct (x ∷ xs) = let rest = distinct xs in if is_member x rest then rest else x ∷ rest

-- `tuple(sorted(set(…)))`
unfoldable pub sorted_set : List String → List String
sorted_set xs = order_by text_le (distinct xs)

-- `changed & reviewed_paths`
unfoldable pub common : List String → List String → List String
common [] ys = []
common (x ∷ xs) ys = let rest = common xs ys in if is_member x ys then x ∷ rest else rest

-- The loop over the paths of the delta: those that are core, or `none` at a path that is neither core nor
-- not.
unfoldable pub core_of : (String → String) → List String → Option (List String)
core_of classify [] = some []
core_of classify (p ∷ ps) =
    let rest = core_of classify ps in
    if (p == "")
    then rest
    else if classify p == "core"
    then elim rest [ none ↦ none | some cs ↦ some (p ∷ cs) ]
    else if classify p == "non_core"
    then rest
    else none

abbrev pub uncertain : List String → String → BaseDriftEvaluation
uncertain changed code = record {
  classification = unknown;
  base_moved = true;
  overlaps = unclear;
  core_paths = [];
  changed_paths = changed;
  error_code = some code;
}

unfoldable pub classify_delta :
    (String → String) → List Entry → List Entry → Option BaseDriftEvaluation
classify_delta classify delta reviewed =
    let changed = all_paths delta in
    let shared = common changed (all_paths reviewed) in
    elim (core_of classify changed) [
      | none ↦ made (uncertain (sorted_set changed) "CORE_UNKNOWN")
      | some cores ↦
          if is_empty shared && is_empty cores
          then made (record {
            classification = non_core_non_overlap;
            base_moved = true;
            overlaps = nothing;
            core_paths = [];
            changed_paths = sorted_set changed;
            error_code = none;
          })
          else made (record {
            classification = core_or_overlap;
            base_moved = true;
            overlaps = if is_empty shared then nothing else overlap;
            core_paths = sorted_set cores;
            changed_paths = sorted_set changed;
            error_code = none;
          })
    ]

unfoldable pub evaluate_base_drift :
    (String → Bool)
    → (String → String)
    → String
    → String
    → List Entry
    → Option (List Entry)
    → Bool
    → Option BaseDriftEvaluation
evaluate_base_drift is_nfc classify request_base current_base reviewed delta ancestry =
    if request_base == current_base
    then made (record {
      classification = unmoved;
      base_moved = false;
      overlaps = nothing;
      core_paths = [];
      changed_paths = [];
      error_code = none;
    })
    else if not ancestry
    then made (uncertain [] "BASE_DELTA_UNAVAILABLE")
    else elim delta [
      | none ↦ made (uncertain [] "BASE_DELTA_UNAVAILABLE")
      | some entries ↦ elim (canonical_scope is_nfc entries) [
        | none ↦ made (uncertain [] "INVALID_SCOPE")
        | some ds ↦ elim (canonical_scope is_nfc reviewed) [
          | none ↦ made (uncertain [] "INVALID_SCOPE")
          | some rs ↦
              if is_empty ds
              then made (uncertain [] "BASE_DELTA_EMPTY")
              else classify_delta classify ds rs
        ]
      ]
    ]

pub data PolicyState : Type 0 where
  verdict_usable fresh_review_required blocked : PolicyState

pub record PolicyDecision : Type 0 where
  pub state : PolicyState
  pub reason_code : String
  pub is_usable : Bool
  pub needs_review : Bool
  pub drift : Classification

abbrev pub decision : PolicyState → String → Bool → Bool → Classification → PolicyDecision
decision state reason usable review drift = record {
  state = state;
  reason_code = reason;
  is_usable = usable;
  needs_review = review;
  drift = drift;
}

-- The checks of PolicyCDecision hold of each of these by what is written in it.
unfoldable pub evaluate_policy_c : Bool → BaseDriftEvaluation → Bool → PolicyDecision
evaluate_policy_c valid d ready = elim d.classification [
  | unknown ↦ decision blocked "BASE_DRIFT_UNCERTAIN" false false unknown
  | conflict ↦ decision blocked "BASE_DRIFT_UNCERTAIN" false false conflict
  | core_or_overlap ↦
      decision fresh_review_required "CORE_OR_OVERLAP_BASE_DRIFT" false true core_or_overlap
  | unmoved ↦ settled valid ready unmoved
  | non_core_non_overlap ↦ settled valid ready non_core_non_overlap
]
  where
    settled : Bool → Bool → Classification → PolicyDecision
    settled v r c =
        if not v
        then decision blocked "VERDICT_NOT_USABLE" false false c
        else if not r
        then decision blocked "INTEGRATION_EVIDENCE_UNAVAILABLE" false false c
        else decision verdict_usable "READY_FOR_SHADOW_MERGE" true false c
