-- ===== src/ReviewLedger/Lineage.antt =====
-- `readiness_lineage` and `latest_readiness_record` of city/review_governance/ledger.py: what the ledger holds
-- of one evaluation of a reviewed head.
use agent_city.Prelude.{
  ℕ, String, Bool, true, false, not, ◌&&◌, ◌||◌, Option, none, some, List, [], ◌∷◌, eqb,
  if◌then◌else◌,
}
use agent_city.Prelude.Int.{pos}
use agent_city.Prelude.Key.{◌==◌, text_key}
use agent_city.Prelude.Json.{Json, null, boolean, number, text, array, object, nil, end}
use agent_city.Prelude.Dict.{lookup, contains}
use agent_city.ReviewLedger.{
  Coding, File, Event, Payload, Answer, done, failed, corruption, readiness_not_found,
  read_unlocked, is_one_of, has_text, last_digest,
}

-- `value == n`; in Python True is 1.
abbrev pub is_number : ℕ → Json → Bool
is_number n (number (pos m)) = eqb m n
is_number n (boolean true) = eqb 1 n
is_number n (boolean false) = eqb 0 n
is_number n _ = false

unfoldable pub has_number : String → ℕ → Payload → Bool
has_number field n p = elim (lookup field p) [ none ↦ false | some j ↦ is_number n j ]

-- `not value`
abbrev pub is_falsy : Json → Bool
is_falsy null = true
is_falsy (boolean b) = not b
is_falsy (number (pos n)) = eqb n 0
is_falsy (number _) = false
is_falsy (text t) = t == ""
is_falsy (array nil) = true
is_falsy (array _) = false
is_falsy (object end) = true
is_falsy (object _) = false

abbrev pub lacks_evaluation : Payload → Bool
lacks_evaluation p = elim (lookup "evaluation_id" p) [ none ↦ true | some j ↦ is_falsy j ]

-- What the lineage is of.
pub record Subject : Type 0 where
  pub repository : String
  pub pull_request_number : ℕ
  pub reviewed_head_sha : String
  pub evaluation_id : String

abbrev pub is_about : Subject → Payload → Bool
is_about s p =
    has_text "repository" s.repository p
    && has_number "pull_request_number" s.pull_request_number p
    && has_text "reviewed_head_sha" s.reviewed_head_sha p

-- An event of the review's course without the fields that say what it is about.
unfoldable pub is_malformed : Event → Bool
is_malformed e =
    let p = e.unsigned.payload in
    is_one_of e.unsigned.event_type (
      "merge_readiness_evaluated" ∷ "merge_readiness_invalidated" ∷ "review_verdict_stale"
      ∷ "review_verdict_rejected" ∷ "council_gate_recorded" ∷ [])
    && not (
        contains "repository" p
        && contains "pull_request_number" p
        && contains "reviewed_head_sha" p)

-- The payload of the last evaluation, and whether something came that makes it invalid.
pub record Standing : Type 0 where
  pub latest : Option Payload
  pub is_invalidated : Bool

unfoldable pub take_in : Subject → Event → Standing → Standing
take_in s e standing =
    let p = e.unsigned.payload in
    let type = e.unsigned.event_type in
    if not (is_about s p)
    then standing
    else if type == "merge_readiness_evaluated"
    then record standing { latest = some p }
    else if is_one_of type
        ("merge_readiness_invalidated" ∷ "review_verdict_stale" ∷ "review_verdict_rejected" ∷ [])
    then (if has_text "evaluation_id" s.evaluation_id p || lacks_evaluation p
        then record standing { is_invalidated = true }
        else standing)
    else if (type == "council_gate_recorded") && not (has_text "state" "approved" p)
    then record standing { is_invalidated = true }
    else standing

unfoldable pub standing_of : Subject → List Event → Standing → Option Standing
standing_of s [] standing = some standing
standing_of s (e ∷ es) standing =
    let rest = standing_of s es (take_in s e standing) in if is_malformed e then none else rest

pub record Lineage : Type 0 where
  pub latest : Option Json
  pub is_invalidated : Bool
  pub ledger_head : Option String

abbrev pub head_of : List Event → Option String
head_of [] = none
head_of (e ∷ es) = some (last_digest e.event_digest es)

unfoldable pub readiness_lineage : Coding → Subject → File → Answer Lineage
readiness_lineage coding s f = elim (read_unlocked coding f) [
  | none ↦ failed corruption
  | some es ↦ elim (standing_of s es (record { latest = none; is_invalidated = false })) [
    | none ↦ failed corruption
    | some standing ↦ done (record {
      latest = elim standing.latest [ none ↦ none | some p ↦ lookup "evaluation_id" p ];
      is_invalidated = standing.is_invalidated;
      ledger_head = head_of es;
    })
  ]
]

unfoldable pub evaluations_of : Subject → List Event → List Payload
evaluations_of s [] = []
evaluations_of s (e ∷ es) =
    let rest = evaluations_of s es in
    let p = e.unsigned.payload in
    if (e.unsigned.event_type == "merge_readiness_evaluated")
      && has_text "evaluation_id" s.evaluation_id p
      && is_about s p
    then p ∷ rest
    else rest

unfoldable pub latest_readiness_record : Coding → Subject → File → Answer Payload
latest_readiness_record coding s f = elim (read_unlocked coding f) [
  | none ↦ failed corruption
  | some es ↦ elim (evaluations_of s es) [
    | [] ↦ failed readiness_not_found
    | p ∷ ps ↦ elim ps [ [] ↦ done p | _ ∷ _ ↦ failed corruption ]
  ]
]
