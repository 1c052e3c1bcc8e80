-- ===== src/ReviewLedger/Reserve.antt =====
-- An evaluation is reserved for one merge attempt.
use agent_city.Prelude.{
  ◌≡◌, refl, String, true, false, none, some, List, [], ◌∷◌, ◌++◌, ltb, length, if◌then◌else◌,
  arith, Option-cases, inl, inr,
}
use agent_city.Prelude.Key.{◌==◌, text_key}
use agent_city.ReviewLedger.{
  Event, File, Coding, Payload, events, read_unlocked, new_event, write_event, done, events_for,
  concerns, earlier, attempt_id, has_text, reserve_merge_attempt, is_one_of,
}
use agent_city.ReviewLedger.Chain.{is_done}

pub events_for-append :
    (type evaluation : String) (es : List Event) (e : Event)
    → events_for type evaluation (es ++ e ∷ [])
      ≡ events_for type evaluation es ++ (if concerns type evaluation e then e ∷ [] else [])
unfolding events_for
events_for-append type evaluation [] e = ground arith
events_for-append type evaluation (x ∷ es) e =
    ground (arith, events_for-append type evaluation es e)

pub reserved_known : is_one_of "merge_attempt_reserved" events ≡ true
unfolding is_one_of
reserved_known = refl

-- The answer where a reservation or a completion is there.
pub answer_earlier :
    (coding : Coding) (evaluation : String) (payload : Payload) (f : File) (es : List Event)
    (e : Event)
    → (evaluation == "") ≡ false
    → read_unlocked coding f ≡ some es
    → ltb 1 (length (events_for "merge_attempt_reserved" evaluation es)) ≡ false
    → ltb 1 (length (events_for "merge_completed" evaluation es)) ≡ false
    → earlier
        (events_for "merge_attempt_reserved" evaluation es)
        (events_for "merge_completed" evaluation es)
      ≡ some e
    → reserve_merge_attempt coding evaluation payload f ≡ (f, done e)
unfolding reserve_merge_attempt
answer_earlier coding evaluation payload f es e named read few_r few_c there =
    ground (arith, named, read, few_r, few_c, there)

earlier-none : (xs ys : List Event) → earlier xs ys ≡ none → (xs ≡ []) × (ys ≡ [])
earlier-none [] [] h = (refl, refl)
earlier-none [] (y ∷ ys) h = ground arith
earlier-none (x ∷ xs) ys h = ground arith

-- What a successful call went past.
pub record Admitted (coding : Coding) (evaluation : String) (payload : Payload) (f : File)
    (es : List Event) : Type 0 where
  pub named : (evaluation == "") ≡ false
  pub few_reservations : ltb 1 (length (events_for "merge_attempt_reserved" evaluation es)) ≡ false
  pub few_completions : ltb 1 (length (events_for "merge_completed" evaluation es)) ≡ false

pub admitted :
    (coding : Coding) (evaluation : String) (payload : Payload) (f : File) (es : List Event)
    → read_unlocked coding f ≡ some es
    → is_done (reserve_merge_attempt coding evaluation payload f).1 ≡ true
    → Admitted coding evaluation payload f es
unfolding reserve_merge_attempt
admitted coding evaluation payload f es read ok = record {
  named = ground (arith, ok);
  few_reservations = ground (arith, ok, read);
  few_completions = ground (arith, ok, read);
}

-- The event that a first call writes.
pub fresh_lem :
    (coding : Coding) (evaluation : String) (payload : Payload) (f : File) (es : List Event)
    → read_unlocked coding f ≡ some es
    → is_done (reserve_merge_attempt coding evaluation payload f).1 ≡ true
    → earlier
        (events_for "merge_attempt_reserved" evaluation es)
        (events_for "merge_completed" evaluation es)
      ≡ none
    → (id : String) × (has_text "evaluation_id" evaluation payload ≡ true)
      × (reserve_merge_attempt coding evaluation payload f
          ≡ write_event coding "merge_attempt_reserved" id payload es f)
unfolding reserve_merge_attempt
fresh_lem coding evaluation payload f es read ok fresh =
    let a = admitted coding evaluation payload f es read ok in
    elim (Option-cases (attempt_id payload)) [
      | inl nameless ↦ absurd (ground (arith, ok, read, fresh, nameless))
      | inr (id, has_id) ↦ (
        id,
        ground (arith, ok, read, fresh, has_id),
        ground (arith, ok, read, fresh, has_id, a.named, a.few_reservations, a.few_completions),
      )
    ]

-- After the event is written it is the one reservation, and there is no completion.
pub earlier-new :
    (coding : Coding) (evaluation id : String) (payload : Payload) (es : List Event)
    → earlier
        (events_for "merge_attempt_reserved" evaluation es)
        (events_for "merge_completed" evaluation es)
      ≡ none
    → has_text "evaluation_id" evaluation payload ≡ true
    → let e = new_event coding "merge_attempt_reserved" id payload es in
      (events_for "merge_attempt_reserved" evaluation (es ++ e ∷ []) ≡ e ∷ [])
      × (events_for "merge_completed" evaluation (es ++ e ∷ []) ≡ [])
earlier-new coding evaluation id payload es fresh has =
    let e = new_event coding "merge_attempt_reserved" id payload es in
    let none_yet = earlier-none _ _ fresh in
    let is_new : concerns "merge_attempt_reserved" evaluation e ≡ true = ground (arith, has) in
    (
      ground
          (arith, events_for-append "merge_attempt_reserved" evaluation es e, none_yet.0, is_new),
      ground (arith, events_for-append "merge_completed" evaluation es e, none_yet.1),
    )
