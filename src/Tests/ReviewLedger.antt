-- ===== src/Tests/ReviewLedger.antt =====
-- Two workers who reserve one evaluation, one after the other.
use agent_city.Prelude.{◌≡◌, refl, true, false, none, some, List, [], ◌∷◌, ◌++◌, ltb, length}
use agent_city.Prelude.Key.{text_key}
use agent_city.Prelude.Json.{text}
use agent_city.Prelude.Dict.{lookup}
use agent_city.ReviewLedger.{
  Coding, Event, File, Payload, read_unlocked, reserve_merge_attempt, write_event, attempt_id,
  has_text, events_for, last_digest, is_taken,
}
use agent_city.ReviewLedger.Chain.{is_done}
use agent_city.ReviewLedger.Later.{Later, here, reserved}
use agent_city.ReviewLedger.Settled.{reserve-reserve}

abbrev coding : Coding
coding = record { digest = λ u. u.event_id; size = length; max_bytes = 100 }

abbrev by_ada : Payload
by_ada = ("evaluation_id", text "ev1") ∷ ("attempt_id", text "a1") ∷ []

abbrev by_bob : Payload
by_bob = ("evaluation_id", text "ev1") ∷ ("attempt_id", text "b1") ∷ []

abbrev no_file : File
no_file = none

reads : read_unlocked coding no_file ≡ some []
unfolding read_unlocked
reads = refl

reserves : is_done (reserve_merge_attempt coding "ev1" by_ada no_file).1 ≡ true
unfolding reserve_merge_attempt read_unlocked events_for has_text lookup attempt_id write_event
    is_taken last_digest
reserves = refl

reserve-reserve_example :
    let first = reserve_merge_attempt coding "ev1" by_ada no_file in
    (added : List Event) × (ltb 1 (length added) ≡ false)
    × (read_unlocked coding first.0 ≡ some ([] ++ added))
    × ((f' : File) (other_payload : Payload)
        → Later coding "ev1" first.0 f'
        → reserve_merge_attempt coding "ev1" other_payload f' ≡ (f', first.1))
reserve-reserve_example = reserve-reserve coding "ev1" by_ada no_file [] reads reserves

-- Another worker reserves another evaluation, and then tries for this one.
abbrev by_bob_too : Payload
by_bob_too = ("evaluation_id", text "ev2") ∷ ("attempt_id", text "b2") ∷ []

second_worker :
    let first = reserve_merge_attempt coding "ev1" by_ada no_file in
    let busy = (reserve_merge_attempt coding "ev2" by_bob_too first.0).0 in
    reserve_merge_attempt coding "ev1" by_bob busy ≡ (busy, first.1)
second_worker =
    let (_, _, _, again) = reserve-reserve coding "ev1" by_ada no_file [] reads reserves in
    again _ by_bob (reserved "ev2" by_bob_too here)
