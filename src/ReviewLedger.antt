-- ===== src/ReviewLedger.antt =====
-- city/review_governance/ledger.py: the append-only ledger of review evidence, a file of lines, each with the
-- digest of the line before it. The file is the list of its lines as they are parsed: an event, or anything
-- else. The digest of an event and the size of a file in bytes are the fields of a Coding; the lock of the
-- operating system makes each call one step.
pub mod Chain
pub mod Lineage
pub mod Reserve
pub mod Answers
pub mod Later
pub mod Settled
use agent_city.Prelude.{
  ℕ, ◌+◌, String, Bool, true, false, not, ◌&&◌, ◌||◌, Option, none, some, List, [], ◌∷◌, ◌++◌, ltb,
  eqb, keep, map, length, if◌then◌else◌, ◌>>=◌,
}
use agent_city.Prelude.Key.{◌==◌, text_key}
use agent_city.Prelude.Json
use agent_city.Prelude.Json.{Json, text}
use agent_city.Prelude.Dict.{Dict, lookup, contains}

abbrev pub Payload : Type 0
Payload = Dict String Json

pub record Unsigned : Type 0 where
  pub schema : String
  pub sequence : ℕ
  pub event_id : String
  pub event_type : String
  pub payload : Payload
  pub previous_digest : String

pub record Event : Type 0 where
  pub unsigned : Unsigned
  pub event_digest : String

-- A line of the file. What is not canonical JSON, or has not just the fields of an event, is `other`.
pub data Line : Type 0 where
  event : Event → Line
  other : Line

-- No file, or its lines.
abbrev pub File : Type 0
File = Option (List Line)

pub data LedgerError : Type 0 where
  corruption invalid_event duplicate_event_id size_limit merge_attempt_conflict : LedgerError
  readiness_not_found : LedgerError

pub data Answer {ℓ} (A : Type ℓ) : Type ℓ where
  done : A → Answer A
  failed : LedgerError → Answer A

pub record Coding : Type 0 where
  pub digest : Unsigned → String
  pub size : List Line → ℕ
  pub max_bytes : ℕ

abbrev pub ledger_schema : String
ledger_schema = "review-governance-ledger-b1.1"

unfoldable pub is_one_of : String → List String → Bool
is_one_of s [] = false
is_one_of s (x ∷ xs) = let rest = is_one_of s xs in if x == s then true else rest

abbrev pub events : List String
events =
    "review_verdict_received" ∷ "review_verdict_validated" ∷ "review_verdict_rejected"
    ∷ "review_verdict_stale" ∷ "merge_readiness_evaluated" ∷ "merge_readiness_invalidated"
    ∷ "council_gate_recorded" ∷ "merge_attempt_reserved" ∷ "merge_attempt_succeeded"
    ∷ "merge_completed" ∷ "external_merge_observed" ∷ []

-- The checks on one line, after so many lines and the digest of the last of them.
unfoldable pub is_next : Coding → ℕ → String → Event → Bool
is_next coding n prev e =
    (e.unsigned.schema == ledger_schema)
    && is_one_of e.unsigned.event_type events
    && (e.unsigned.previous_digest == prev)
    && eqb e.unsigned.sequence (n + 1)
    && (e.event_digest == coding.digest e.unsigned)

unfoldable pub read_lines : Coding → ℕ → String → List Line → Option (List Event)
read_lines coding n prev [] = some []
read_lines coding n prev (other ∷ ls) = none
read_lines coding n prev (event e ∷ ls) =
    let rest = read_lines coding (n + 1) e.event_digest ls in
    if is_next coding n prev e then rest >>= (λ es. some (e ∷ es)) else none

-- `_read_unlocked`: `none` is LEDGER_CORRUPTION. A file without a line does not end with a newline.
unfoldable pub read_unlocked : Coding → File → Option (List Event)
read_unlocked coding none = some []
read_unlocked coding (some ls) =
    if ltb coding.max_bytes (coding.size ls)
    then none
    else elim ls [ [] ↦ none | l ∷ rest ↦ read_lines coding 0 "" (l ∷ rest) ]

unfoldable pub first_where : (Event → Bool) → List Event → Option Event
first_where test [] = none
first_where test (e ∷ es) = let rest = first_where test es in if test e then some e else rest

unfoldable pub find_event : Coding → String → File → Answer (Option Event)
find_event coding id f = elim (read_unlocked coding f) [
  | none ↦ failed corruption
  | some es ↦ done (first_where (λ e. e.unsigned.event_id == id) es)
]

-- `payload.get(field) == value`, for a text.
unfoldable pub has_text : String → String → Payload → Bool
has_text field value p = elim (lookup field p) [ some (text t) ↦ t == value | _ ↦ false ]

unfoldable pub find_event_by_payload :
    Coding → String → String → String → File → Answer (Option Event)
find_event_by_payload coding type field value f = elim (read_unlocked coding f) [
  | none ↦ failed corruption
  | some es ↦ done (
      first_where (λ e. (e.unsigned.event_type == type) && has_text field value e.unsigned.payload)
        es)
]

-- The digest that the next event refers to.
unfoldable pub last_digest : String → List Event → String
last_digest prev [] = prev
last_digest prev (e ∷ es) = last_digest e.event_digest es

unfoldable pub is_taken : String → List Event → Bool
is_taken id [] = false
is_taken id (e ∷ es) = let rest = is_taken id es in if e.unsigned.event_id == id then true else rest

abbrev pub new_event : Coding → String → String → Payload → List Event → Event
new_event coding type id payload es =
    let unsigned : Unsigned = record {
      schema = ledger_schema;
      sequence = length es + 1;
      event_id = id;
      event_type = type;
      payload = payload;
      previous_digest = last_digest "" es;
    } in
    record { unsigned = unsigned; event_digest = coding.digest unsigned }

-- What `append` and `reserve_merge_attempt` share: the new event is written behind the others, unless its
-- id is taken or the file would grow too large.
unfoldable pub write_event :
    Coding → String → String → Payload → List Event → File → File × Answer Event
write_event coding type id payload es f =
    let e = new_event coding type id payload es in
    let ls = map event (es ++ e ∷ []) in
    if is_taken id es
    then (f, failed duplicate_event_id)
    else if ltb coding.max_bytes (coding.size ls)
    then (f, failed size_limit)
    else (some ls, done e)

unfoldable pub append : Coding → String → String → Payload → File → File × Answer Event
append coding type id payload f =
    if not (is_one_of type events) || (id == "")
    then (f, failed invalid_event)
    else elim (read_unlocked coding f) [
      | none ↦ (f, failed corruption)
      | some es ↦ write_event coding type id payload es f
    ]

abbrev pub concerns : String → String → Event → Bool
concerns type evaluation e =
    (e.unsigned.event_type == type) && has_text "evaluation_id" evaluation e.unsigned.payload

unfoldable pub events_for : String → String → List Event → List Event
events_for type evaluation [] = []
events_for type evaluation (e ∷ es) =
    let rest = events_for type evaluation es in
    if concerns type evaluation e then e ∷ rest else rest

-- `payload.get("attempt_id")`, where it is a text that is not empty.
unfoldable pub attempt_id : Payload → Option String
attempt_id p = elim (lookup "attempt_id" p) [
  | some (text t) ↦ if t == "" then none else some t
  | _ ↦ none
]

-- A reservation or a completion that is there already is the answer.
abbrev pub earlier : List Event → List Event → Option Event
earlier (e ∷ _) _ = some e
earlier [] (e ∷ _) = some e
earlier [] [] = none

-- The payload that the caller's factory makes of the nonce is the argument `payload`.
unfoldable pub reserve_merge_attempt : Coding → String → Payload → File → File × Answer Event
reserve_merge_attempt coding evaluation payload f =
    if evaluation == "" then (f, failed invalid_event) else elim (read_unlocked coding f) [
      | none ↦ (f, failed corruption)
      | some es ↦
          let reservations = events_for "merge_attempt_reserved" evaluation es in
          let completions = events_for "merge_completed" evaluation es in
          if ltb 1 (length reservations)
          then (f, failed merge_attempt_conflict)
          else if ltb 1 (length completions)
          then (f, failed merge_attempt_conflict)
          else elim (earlier reservations completions) [
            | some e ↦ (f, done e)
            | none ↦
                if not (has_text "evaluation_id" evaluation payload)
                then (f, failed invalid_event)
                else elim (attempt_id payload) [
                  | none ↦ (f, failed invalid_event)
                  | some id ↦ write_event coding "merge_attempt_reserved" id payload es f
                ]
          ]
    ]
