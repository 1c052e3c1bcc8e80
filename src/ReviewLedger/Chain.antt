-- ===== src/ReviewLedger/Chain.antt =====
-- What is written to the ledger is read again.
use mathlib.Core.Path.{subst}
use mathlib.Core.Option.{some-injective}
use agent_city.Prelude.{
  ℕ, ◌+◌, ◌≡◌, refl, ◌∙◌, ap, String, Bool, true, false, none, some, List, [], ◌∷◌, ◌++◌, ltb, map,
  length, arith, Bool-cases, Option-cases, inl, inr,
}
use agent_city.Prelude.Key.{text_key, ==-refl}
use agent_city.ReviewLedger.{
  Event, Line, event, other, File, Coding, Payload, is_next, is_one_of, events, read_lines,
  read_unlocked, ledger_schema, last_digest, new_event, write_event, is_taken, Answer, done, failed,
}

-- Lines that can be read are the events that are read from them.
read_lines-map :
    (coding : Coding) (n : ℕ) (prev : String) (ls : List Line) (es : List Event)
    → read_lines coding n prev ls ≡ some es
    → read_lines coding n prev (map event es) ≡ some es
unfolding read_lines
read_lines-map coding n prev [] es h = ground (arith, h)
read_lines-map coding n prev (other ∷ ls) es h = ground (arith, h)
read_lines-map coding n prev (event e ∷ ls) es h = elim (Bool-cases (is_next coding n prev e)) [
  | inl next ↦ elim (Option-cases (read_lines coding (n + 1) e.event_digest ls)) [
    | inl broken ↦ ground (arith, h, next, broken)
    | inr (rest, read) ↦
        ground (arith, h, next, read, read_lines-map coding (n + 1) e.event_digest ls rest read)
  ]
  | inr not_next ↦ ground (arith, h, not_next)
]

read_lines-append :
    (coding : Coding) (n m : ℕ) (prev : String) (es : List Event) (e : Event)
    → read_lines coding n prev (map event es) ≡ some es
    → m ≡ n + length es
    → is_next coding m (last_digest prev es) e ≡ true
    → read_lines coding n prev (map event (es ++ e ∷ [])) ≡ some (es ++ e ∷ [])
unfolding read_lines last_digest
read_lines-append coding n m prev [] e h q next =
    let p : n ≡ m = omega arith in ground (arith, next, p)
read_lines-append coding n m prev (x ∷ es) e h q next =
    elim (Option-cases (read_lines coding (n + 1) x.event_digest (map event es))) [
      | inl broken ↦ ground (arith, h, broken)
      | inr (rest, read) ↦
          let same : rest ≡ es = ground (arith, h, read) in
          let later =
            read_lines-append coding (n + 1) m x.event_digest es e (read ∙ ap some same)
              (omega arith) next in
          ground (arith, h, later)
    ]

read_unlocked-read_lines :
    (coding : Coding) (f : File) (es : List Event)
    → read_unlocked coding f ≡ some es
    → read_lines coding 0 "" (map event es) ≡ some es
unfolding read_unlocked read_lines
read_unlocked-read_lines coding none es h =
    let p : [] ≡ es = some-injective [] es h in
    subst (λ x. read_lines coding 0 "" (map event x) ≡ some x) p refl
read_unlocked-read_lines coding (some []) es h = ground (arith, h)
read_unlocked-read_lines coding (some (l ∷ ls)) es h =
    let p : read_lines coding 0 "" (l ∷ ls) ≡ some es = ground (arith, h) in
    read_lines-map coding 0 "" (l ∷ ls) es p

new_event-next :
    (coding : Coding) (type id : String) (payload : Payload) (es : List Event)
    → is_one_of type events ≡ true
    → is_next coding (length es) (last_digest "" es) (new_event coding type id payload es) ≡ true
unfolding is_next
new_event-next coding type id payload es known = ground (
  arith,
  known,
  ==-refl (last_digest "" es),
  ==-refl ledger_schema,
  ==-refl (new_event coding type id payload es).event_digest,
)

abbrev pub is_done {ℓ} : {A : Type ℓ} → Answer A → Bool
is_done (done _) = true
is_done (failed _) = false

-- A file that is not too large, and has a line, is read line by line.
read_unlocked-map :
    (coding : Coding) (es : List Event) (e : Event) (out : List Event)
    → ltb coding.max_bytes (coding.size (map event (es ++ e ∷ []))) ≡ false
    → read_lines coding 0 "" (map event (es ++ e ∷ [])) ≡ some out
    → read_unlocked coding (some (map event (es ++ e ∷ []))) ≡ some out
unfolding read_unlocked
read_unlocked-map coding [] e out fits h = ground (arith, fits, h)
read_unlocked-map coding (x ∷ es) e out fits h = ground (arith, fits, h)

-- Where the event is written, the file is that of the events with it behind them, and is read so.
pub write_event-read :
    (coding : Coding) (type id : String) (payload : Payload) (es : List Event) (f : File)
    → is_one_of type events ≡ true
    → read_unlocked coding f ≡ some es
    → is_done (write_event coding type id payload es f).1 ≡ true
    → let e = new_event coding type id payload es in
      (write_event coding type id payload es f ≡ (some (map event (es ++ e ∷ [])), done e))
      × (read_unlocked coding (some (map event (es ++ e ∷ []))) ≡ some (es ++ e ∷ []))
unfolding write_event
write_event-read coding type id payload es f known read wrote =
    let e = new_event coding type id payload es in
    let lines =
      read_lines-append coding 0 (length es) "" es e (read_unlocked-read_lines coding f es read)
        (omega arith) (new_event-next coding type id payload es known) in
    let small : ltb coding.max_bytes (coding.size (map event (es ++ e ∷ []))) ≡ false =
      ground (arith, wrote) in
    let free : is_taken id es ≡ false = ground (arith, wrote) in
    (ground (arith, small, free), read_unlocked-map coding es e (es ++ e ∷ []) small lines)
