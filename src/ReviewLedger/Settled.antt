-- ===== src/ReviewLedger/Settled.antt =====
-- What a first call of `reserve_merge_attempt` of city/review_governance/ledger.py settles.
use mathlib.Core.Path.{subst}
use agent_city.Prelude.{
  ◌≡◌, refl, sym, ◌∙◌, ap, inl, inr, String, true, false, some, List, [], ◌∷◌, ◌++◌, append-nil,
  ltb, map, length, arith, Option-cases,
}
use agent_city.Prelude.Key.{◌==◌, text_key}
use agent_city.ReviewLedger.{
  Event, event, File, Coding, Payload, read_unlocked, new_event, Answer, done, events_for, earlier,
  reserve_merge_attempt,
}
use agent_city.ReviewLedger.Chain.{is_done, write_event-read}
use agent_city.ReviewLedger.Reserve.{
  reserved_known, answer_earlier, admitted, fresh_lem, earlier-new,
}
use agent_city.ReviewLedger.Answers.{Answers}
use agent_city.ReviewLedger.Later.{Later, Later-Answers}

-- What a first answer settles.
Settled : (coding : Coding) → String → File → List Event → File × Answer Event → Type 0
Settled coding evaluation f es first =
    (added : List Event) × (ltb 1 (length added) ≡ false)
    × (read_unlocked coding first.0 ≡ some (es ++ added))
    × ((f' : File) (payload : Payload)
        → Later coding evaluation first.0 f'
        → reserve_merge_attempt coding evaluation payload f' ≡ (f', first.1))

settles :
    (coding : Coding) (evaluation : String) (f f' : File) (es added : List Event) (e : Event)
    (x : File × Answer Event)
    → (evaluation == "") ≡ false
    → ltb 1 (length added) ≡ false
    → read_unlocked coding f' ≡ some (es ++ added)
    → Answers coding evaluation e f'
    → x ≡ (f', done e)
    → Settled coding evaluation f es x
unfolding Settled
settles coding evaluation f f' es added e x named few read a is_first =
    subst (Settled coding evaluation f es) (sym is_first) (
      added,
      few,
      read,
      λ f'' payload later.
          let now = Later-Answers coding evaluation e f' f'' named a later in
          answer_earlier coding evaluation payload f'' now.es e named now.read now.few_reservations
            now.few_completions now.first,
    )

-- Where a call of reserve_merge_attempt on a readable ledger succeeds, the ledger afterwards is readable and
-- holds the events it held, with at most one behind them; and a later call for the same evaluation, whatever its
-- payload, gives the same event and leaves the file as it is, on every file that calls lead to from there:
-- reservations of any evaluation, and events that are appended, if they are no reservation of this
-- evaluation and no second completion of it.
pub reserve-reserve :
    (coding : Coding) (evaluation : String) (payload : Payload) (f : File) (es : List Event)
    → read_unlocked coding f ≡ some es
    → is_done (reserve_merge_attempt coding evaluation payload f).1 ≡ true
    → let first = reserve_merge_attempt coding evaluation payload f in
      (added : List Event) × (ltb 1 (length added) ≡ false)
      × (read_unlocked coding first.0 ≡ some (es ++ added))
      × ((f' : File) (other_payload : Payload)
          → Later coding evaluation first.0 f'
          → reserve_merge_attempt coding evaluation other_payload f' ≡ (f', first.1))
unfolding Settled
reserve-reserve coding evaluation payload f es read ok =
    let a = admitted coding evaluation payload f es read ok in
    elim (Option-cases (
      earlier (events_for "merge_attempt_reserved" evaluation es)
        (events_for "merge_completed" evaluation es))) [
          | inr (e, there) ↦
              settles coding evaluation f f es [] e _ a.named refl
                (read ∙ ap some (sym (append-nil es)))
                (record {
                  es = es;
                  read = read;
                  few_reservations = a.few_reservations;
                  few_completions = a.few_completions;
                  first = there;
                })
                (answer_earlier coding evaluation payload f es e a.named read a.few_reservations
                  a.few_completions there)
          | inl fresh ↦
              let (id, has, writes) = fresh_lem coding evaluation payload f es read ok fresh in
              let e = new_event coding "merge_attempt_reserved" id payload es in
              let wrote =
                write_event-read coding "merge_attempt_reserved" id payload es f reserved_known read
                  (subst (λ x. is_done x.1 ≡ true) writes ok) in
              let now_there = earlier-new coding evaluation id payload es fresh has in
              settles coding evaluation f (some (map event (es ++ e ∷ []))) es (e ∷ []) e _ a.named
                refl wrote.1
                (record {
                  es = es ++ e ∷ [];
                  read = wrote.1;
                  few_reservations = ground (arith, now_there.0);
                  few_completions = ground (arith, now_there.1);
                  first = ground (arith, now_there.0);
                })
                (writes ∙ wrote.0)
        ]
