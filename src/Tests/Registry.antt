-- ===== src/Tests/Registry.antt =====
-- One agent that is discovered, awarded and frozen, and its claims.
use agent_city.Prelude.{◌≡◌, refl, String, Bool, true, false, not, ◌&&◌, some, none, []}
use agent_city.Prelude.Key.{text_key}
use agent_city.Prelude.Int.{pos}
use agent_city.Prelude.Json.{Json}
use agent_city.Prelude.Dict.{lookup}
use agent_city.Access.{self_claimed, platform_verified, crypto_verified}
use agent_city.Registry.{Codec, Registry, Agent, get, record_event, verify_event_chain, verify_from}
use agent_city.Registry.Lifecycle.{Jiva, discover, exile, get_claim_level, new_agent, empty_profile}
use agent_city.Registry.Prana.{award_prana}
use agent_city.Registry.Steps.{none_more, and_then, discovers, awards, exiles, Steps-verified}
use agent_city.Claims.{
  raise_to, ClaimManager, claim_tag, is_in, starts_with, attempt_self_claim,
  initiate_platform_challenge, verify_platform_response, verify_crypto_claim, verify_identity,
  has_pending_challenge,
}
use agent_city.Claims.Ladder.{Claimed, answers_challenge, claims-Claimed}

abbrev codec : Codec
codec = record { digest = λ s. s; dumps = λ j. "{}" }

abbrev jiva : Jiva
jiva = record { derived = Json.null; zone = "research"; prana = pos 1370; age = 0; is_alive = true }

abbrev empty : Registry
empty = record { agents = []; operators = []; events = [] }

abbrev known : Registry
known = discover codec "t1" "ada" jiva "standard" none empty

abbrev ada : Agent
ada = new_agent "t1" "standard" jiva empty_profile

ada_is_known : get "ada" known ≡ some ada
unfolding get lookup discover record_event
ada_is_known = refl

empty_verified : verify_event_chain codec empty ≡ true
unfolding verify_event_chain verify_from
empty_verified = refl

Steps-verified_example :
    verify_event_chain codec
      (exile codec "t3" "ada" "vote" "" none
        (award_prana codec "t2" "ada" (pos 10) "post" known).0).0
    ≡ true
Steps-verified_example =
    Steps-verified codec
      (and_then
        (and_then (and_then none_more (discovers "t1" "ada" jiva "standard" none))
          (awards "t2" "ada" (pos 10) "post"))
        (exiles "t3" "ada" "vote" "" none))
      empty_verified

abbrev open_challenges : ClaimManager
open_challenges = (initiate_platform_challenge "7f" "ada" []).0

abbrev check : String → String → String → Bool
check key payload signature = false

-- The title has the tag, and the response the nonce.
self_claim_runs : (attempt_self_claim codec "t2" "ada" "hi [city-claim:ada]" known).1 ≡ true
unfolding attempt_self_claim raise_to get_claim_level is_in starts_with get lookup discover
    record_event new_agent
self_claim_runs = refl

claims-Claimed_example :
    let s = attempt_self_claim codec "t2" "ada" "hi [city-claim:ada]" known in
    let p = verify_platform_response codec "t2" "ada" "it is 7f" open_challenges known in
    let c = verify_crypto_claim check codec "t2" "ada" "7f" "sig" known in
    Claimed "ada" "bob" self_claimed known s
    × Claimed "ada" "bob" platform_verified known (p.0.1, p.1)
    × Claimed "ada" "bob" crypto_verified known c
    × (s.1 && not (is_in (claim_tag "ada") "hi [city-claim:ada]") ≡ false)
    × (p.1 && not (answers_challenge "ada" "it is 7f" open_challenges) ≡ false)
    × (c.1 && not (verify_identity check "ada" "7f" "sig" known) ≡ false)
    × (p.1 && has_pending_challenge "ada" p.0.0 ≡ false)
claims-Claimed_example =
    claims-Claimed check codec "t2" "ada" "bob" "hi [city-claim:ada]" "it is 7f" "7f" "sig"
      open_challenges known ada ada_is_known
