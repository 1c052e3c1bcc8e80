-- ===== src/ReviewLedger/Later.antt =====
-- What `append` and `reserve_merge_attempt` of city/review_governance/ledger.py leave of a reservation.
use mathlib.Core.Path.{subst}
use agent_city.Prelude.{
  ◌≡◌, refl, sym, ◌∙◌, ap, ◌⊎◌, inl, inr, String, Bool, true, false, ◌&&◌, Option, none, some, List,
  [], arith, Bool-cases, Option-cases, eq_iff,
}
use agent_city.Prelude.Key.{◌==◌, text_key}
use mathlib.Core.Option.{some-injective}
use agent_city.Prelude.Json.{Json, text, null, boolean, number, array, object}
use agent_city.Prelude.Dict.{lookup}
use agent_city.ReviewLedger.{
  Event, File, Coding, Payload, events, read_unlocked, write_event, append, events_for, earlier,
  has_text, reserve_merge_attempt, is_one_of,
}
use agent_city.ReviewLedger.Chain.{is_done}
use agent_city.ReviewLedger.Reserve.{reserved_known, answer_earlier, admitted, fresh_lem}
use agent_city.ReviewLedger.Answers.{Answers, written-Answers}

-- The files that later calls lead to: any call of `reserve_merge_attempt`, and any of `append`, but of a
-- reservation for the evaluation and of a second completion of it.
pub data Later (coding : Coding) (evaluation : String) (f : File) : File → Type 0 where
  here : Later coding evaluation f f
  appended :
      {f' : File} (es : List Event) (type id : String) (payload : Payload)
      → Later coding evaluation f f'
      → read_unlocked coding f' ≡ some es
      → ((type == "merge_attempt_reserved") && has_text "evaluation_id" evaluation payload) ≡ false
      → (((type == "merge_completed") && has_text "evaluation_id" evaluation payload) ≡ true
          → events_for "merge_completed" evaluation es ≡ [])
      → Later coding evaluation f (append coding type id payload f').0
  reserved :
      {f' : File} (other : String) (payload : Payload)
      → Later coding evaluation f f'
      → Later coding evaluation f (reserve_merge_attempt coding other payload f').0

append-cases :
    (coding : Coding) (type id : String) (payload : Payload) (f : File) (es : List Event)
    → read_unlocked coding f ≡ some es
    → ((append coding type id payload f).0 ≡ f)
      ⊎ ((is_one_of type events ≡ true)
          × (append coding type id payload f ≡ write_event coding type id payload es f))
unfolding append
append-cases coding type id payload f es read = elim (Bool-cases (is_one_of type events)) [
  | inr unknown ↦ inl (ground (arith, unknown))
  | inl known ↦ elim (Bool-cases (id == "")) [
    | inl nameless ↦ inl (ground (arith, known, nameless))
    | inr named ↦ inr (known, ground (arith, known, named, read))
  ]
]

reserve-refused :
    (coding : Coding) (other : String) (payload : Payload) (f : File) (es : List Event)
    → read_unlocked coding f ≡ some es
    → is_done (reserve_merge_attempt coding other payload f).1 ≡ false
    → (reserve_merge_attempt coding other payload f).0 ≡ f
unfolding reserve_merge_attempt write_event
reserve-refused coding other payload f es read h = ground (arith, read, h)

reserve-cases :
    (coding : Coding) (other : String) (payload : Payload) (f : File) (es : List Event)
    → read_unlocked coding f ≡ some es
    → ((reserve_merge_attempt coding other payload f).0 ≡ f)
      ⊎ ((id : String) × (has_text "evaluation_id" other payload ≡ true)
          × (reserve_merge_attempt coding other payload f
              ≡ write_event coding "merge_attempt_reserved" id payload es f))
reserve-cases coding other payload f es read =
    elim (Bool-cases (is_done (reserve_merge_attempt coding other payload f).1)) [
      | inr refused ↦ inl (reserve-refused coding other payload f es read refused)
      | inl ok ↦
          let a = admitted coding other payload f es read ok in
          elim (Option-cases (
            earlier (events_for "merge_attempt_reserved" other es)
              (events_for "merge_completed" other es))) [
                | inl fresh ↦ inr (fresh_lem coding other payload f es read ok fresh)
                | inr (e, there) ↦ inl (
                    ap (λ x. x.0)
                      (answer_earlier coding other payload f es e a.named read a.few_reservations
                        a.few_completions there))
              ]
    ]

is_value : String → Option Json → Bool
is_value s x = elim x [ some (text t) ↦ t == s | _ ↦ false ]

is_value-apart :
    (a b : String) (x : Option Json) → (a == b) ≡ false → is_value a x ≡ true → is_value b x ≡ false
unfolding is_value
is_value-apart a b (some (text t)) apart h =
    subst (λ z. (z == b) ≡ false) (sym ((eq_iff t a).0 h)) apart
is_value-apart a b none apart h = refl
is_value-apart a b (some null) apart h = refl
is_value-apart a b (some (boolean _)) apart h = refl
is_value-apart a b (some (number _)) apart h = refl
is_value-apart a b (some (array _)) apart h = refl
is_value-apart a b (some (object _)) apart h = refl

has_text-apart :
    (a b : String) (payload : Payload)
    → (a == b) ≡ false
    → has_text "evaluation_id" a payload ≡ true
    → has_text "evaluation_id" b payload ≡ false
unfolding has_text is_value
has_text-apart a b payload apart h = is_value-apart a b (lookup "evaluation_id" payload) apart h

appended-Answers :
    (coding : Coding) (evaluation type id : String) (payload : Payload) (e : Event) (f : File)
    (a : Answers coding evaluation e f)
    → ((type == "merge_attempt_reserved") && has_text "evaluation_id" evaluation payload) ≡ false
    → (((type == "merge_completed") && has_text "evaluation_id" evaluation payload) ≡ true
        → events_for "merge_completed" evaluation a.es ≡ [])
    → Answers coding evaluation e (append coding type id payload f).0
appended-Answers coding evaluation type id payload e f a no_reservation alone =
    elim (append-cases coding type id payload f a.es a.read) [
      | inl same ↦ subst (Answers coding evaluation e) (sym same) a
      | inr (known, writes) ↦
          subst (λ x. Answers coding evaluation e x.0) (sym writes)
            (written-Answers coding evaluation type id payload e f a known no_reservation alone)
    ]

-- With the answer known, the evaluation is not reserved again; and a reservation for another is another.
reserved-Answers :
    (coding : Coding) (evaluation other : String) (payload : Payload) (e : Event) (f : File)
    → (evaluation == "") ≡ false
    → Answers coding evaluation e f
    → Answers coding evaluation e (reserve_merge_attempt coding other payload f).0
reserved-Answers coding evaluation other payload e f named a =
    elim (Bool-cases (other == evaluation)) [
      | inl same ↦
          let again =
            answer_earlier coding evaluation payload f a.es e named a.read a.few_reservations
              a.few_completions a.first in
          subst (λ z. Answers coding evaluation e (reserve_merge_attempt coding z payload f).0)
            (sym ((eq_iff other evaluation).0 same))
            (subst (λ x. Answers coding evaluation e x.0) (sym again) a)
      | inr apart ↦ elim (reserve-cases coding other payload f a.es a.read) [
        | inl same ↦ subst (Answers coding evaluation e) (sym same) a
        | inr (id, has, writes) ↦
            let not_this = has_text-apart other evaluation payload apart has in
            subst (λ x. Answers coding evaluation e x.0) (sym writes)
              (written-Answers coding evaluation "merge_attempt_reserved" id payload e f a
                reserved_known not_this (λ completes. absurd (ground (arith, completes))))
      ]
    ]

pub Later-Answers :
    (coding : Coding) (evaluation : String) (e : Event) (f f' : File)
    → (evaluation == "") ≡ false
    → Answers coding evaluation e f
    → Later coding evaluation f f'
    → Answers coding evaluation e f'
Later-Answers coding evaluation e f f' named a here = a
Later-Answers coding evaluation e f f'' named a
      (appended {f'} es type id payload later read no_reservation alone) =
    let now = Later-Answers coding evaluation e f f' named a later in
    let same : es ≡ now.es = some-injective es now.es (sym read ∙ now.read) in
    appended-Answers coding evaluation type id payload e f' now no_reservation
      (λ completes. ap (events_for "merge_completed" evaluation) (sym same) ∙ alone completes)
Later-Answers coding evaluation e f f'' named a (reserved {f'} other payload later) =
    reserved-Answers coding evaluation other payload e f' named
      (Later-Answers coding evaluation e f f' named a later)
