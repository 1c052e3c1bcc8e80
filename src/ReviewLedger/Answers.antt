-- ===== src/ReviewLedger/Answers.antt =====
-- That the ledger of city/review_governance/ledger.py answers for an evaluation with one event, and goes on so.
use mathlib.Core.Path.{subst}
use agent_city.Prelude.{
  ◌≡◌, sym, ◌∙◌, ap, inl, inr, String, true, false, ◌&&◌, some, List, [], ◌∷◌, ◌++◌, append-nil,
  ltb, length, arith, Bool-cases,
}
use agent_city.Prelude.Key.{◌==◌, text_key}
use agent_city.ReviewLedger.{
  Event, File, Coding, Payload, events, read_unlocked, new_event, write_event, events_for, concerns,
  earlier, has_text, is_one_of,
}
use agent_city.ReviewLedger.Chain.{is_done, write_event-read}
use agent_city.ReviewLedger.Reserve.{events_for-append}

-- The ledger answers for the evaluation with this event.
pub record Answers (coding : Coding) (evaluation : String) (e : Event) (f : File) : Type 0 where
  pub es : List Event
  pub read : read_unlocked coding f ≡ some es
  pub few_reservations : ltb 1 (length (events_for "merge_attempt_reserved" evaluation es)) ≡ false
  pub few_completions : ltb 1 (length (events_for "merge_completed" evaluation es)) ≡ false
  pub first :
      earlier
        (events_for "merge_attempt_reserved" evaluation es)
        (events_for "merge_completed" evaluation es)
      ≡ some e

earlier-append :
    (xs ys : List Event) (x e : Event) → earlier xs ys ≡ some e → earlier xs (ys ++ x ∷ []) ≡ some e
earlier-append (x' ∷ xs) ys x e h = h
earlier-append [] (y ∷ ys) x e h = h
earlier-append [] [] x e h = absurd (ground (arith, h))

-- An event more that is no reservation for the evaluation, and no second completion.
module _ (coding : Coding) (evaluation : String) (e : Event) (f f' : File) (new : Event)
    (a : Answers coding evaluation e f) where
  more :
      read_unlocked coding f' ≡ some (a.es ++ new ∷ [])
      → concerns "merge_attempt_reserved" evaluation new ≡ false
      → (concerns "merge_completed" evaluation new ≡ true
          → events_for "merge_completed" evaluation a.es ≡ [])
      → Answers coding evaluation e f'
  more read no_reservation alone =
      let rs = events_for-append "merge_attempt_reserved" evaluation a.es new in
      let cs = events_for-append "merge_completed" evaluation a.es new in
      let rs' : events_for "merge_attempt_reserved" evaluation (a.es ++ new ∷ [])
          ≡ events_for "merge_attempt_reserved" evaluation a.es =
        ground (
          arith,
          rs,
          no_reservation,
          append-nil (events_for "merge_attempt_reserved" evaluation a.es),
        ) in
      elim (Bool-cases (concerns "merge_completed" evaluation new)) [
        | inl completes ↦
            let cs' : events_for "merge_completed" evaluation (a.es ++ new ∷ [])
                ≡ events_for "merge_completed" evaluation a.es ++ new ∷ [] =
              ground (arith, cs, completes) in
            record {
              es = a.es ++ new ∷ [];
              read = read;
              few_reservations = ap (λ x. ltb 1 (length x)) rs' ∙ a.few_reservations;
              few_completions =
                  ap (λ x. ltb 1 (length x)) cs'
                  ∙ ap (λ x. ltb 1 (length (x ++ new ∷ []))) (alone completes);
              first =
                  ap (λ x. earlier x (events_for "merge_completed" evaluation (a.es ++ new ∷ [])))
                    rs'
                  ∙ ap (earlier (events_for "merge_attempt_reserved" evaluation a.es)) cs'
                  ∙ earlier-append _ _ new e a.first;
            }
        | inr no_completion ↦
            let cs' : events_for "merge_completed" evaluation (a.es ++ new ∷ [])
                ≡ events_for "merge_completed" evaluation a.es =
              ground (
                arith,
                cs,
                no_completion,
                append-nil (events_for "merge_completed" evaluation a.es),
              ) in
            record {
              es = a.es ++ new ∷ [];
              read = read;
              few_reservations = ap (λ x. ltb 1 (length x)) rs' ∙ a.few_reservations;
              few_completions = ap (λ x. ltb 1 (length x)) cs' ∙ a.few_completions;
              first =
                  ap (λ x. earlier x (events_for "merge_completed" evaluation (a.es ++ new ∷ [])))
                    rs'
                  ∙ ap (earlier (events_for "merge_attempt_reserved" evaluation a.es)) cs'
                  ∙ a.first;
            }
      ]

-- A write that is refused leaves the file as it is.
write_event-refused :
    (coding : Coding) (type id : String) (payload : Payload) (es : List Event) (f : File)
    → is_done (write_event coding type id payload es f).1 ≡ false
    → (write_event coding type id payload es f).0 ≡ f
unfolding write_event
write_event-refused coding type id payload es f h = ground (arith, h)

pub written-Answers :
    (coding : Coding) (evaluation type id : String) (payload : Payload) (e : Event) (f : File)
    (a : Answers coding evaluation e f)
    → is_one_of type events ≡ true
    → ((type == "merge_attempt_reserved") && has_text "evaluation_id" evaluation payload) ≡ false
    → (((type == "merge_completed") && has_text "evaluation_id" evaluation payload) ≡ true
        → events_for "merge_completed" evaluation a.es ≡ [])
    → Answers coding evaluation e (write_event coding type id payload a.es f).0
written-Answers coding evaluation type id payload e f a known no_reservation alone =
    elim (Bool-cases (is_done (write_event coding type id payload a.es f).1)) [
      | inl wrote ↦
          let (result, read) = write_event-read coding type id payload a.es f known a.read wrote in
          more coding evaluation e f _ (new_event coding type id payload a.es) a
            (ap (λ x. read_unlocked coding x.0) result ∙ read) no_reservation alone
      | inr refused ↦
          subst (Answers coding evaluation e)
            (sym (write_event-refused coding type id payload a.es f refused)) a
    ]
