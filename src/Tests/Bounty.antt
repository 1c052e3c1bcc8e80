-- ===== src/Tests/Bounty.antt =====
-- One bounty, which an agent claims.
use agent_city.Prelude.{◌≡◌, refl, true, false, not, ◌&&◌, some, none, [], ◌∷◌, eqb, if◌then◌else◌}
use agent_city.Prelude.Key.{◌==◌, text_key}
use agent_city.Prelude.Int.{pos}
use agent_city.Prelude.Json
use agent_city.Prelude.Dict.{lookup}
use agent_city.Marketplace.{Order, listed, find_order}
use agent_city.Registry.{Codec, Agent, get, record_event}
use agent_city.Registry.Lifecycle.{Jiva, discover, new_agent, empty_profile}
use agent_city.Bounty.{City, Claim, is_open_bounty, fill_bounty_order}
use agent_city.Bounty.Claimed.{has_receipt, Balanced, fill_bounty_order-Balanced}
use agent_city.Tests.Marketplace.{small_bank, small_bank-MovesMoney, small_bank-TakesBack}

abbrev codec : Codec
codec = record { digest = λ s. s; dumps = λ j. "{}" }

abbrev jiva : Jiva
jiva = record { derived = Json.null; zone = "research"; prana = pos 1370; age = 0; is_alive = true }

abbrev bounty : Order
bounty = record {
  id = 1;
  seller = "treasury:brain";
  asset_type = "bounty";
  asset_id = "fix:ruff_clean";
  quantity = 1;
  price = 54;
  created_at = 10;
  created_heartbeat = 7;
  expires_heartbeat = 27;
  status = listed;
  buyer = none;
  filled_at = none;
  tx_id = none;
}

abbrev city : City small_bank
city = record {
  market = record { inventory = []; orders = bounty ∷ []; next_stack = 1; next_order = 2 };
  registry =
      discover codec "t1" "ada" jiva "standard" none
        (record { agents = []; operators = []; events = [] });
  books = λ account. if account == "SYSTEM_TREASURY" then 100 else 0;
}

abbrev claim : Claim
claim = record {
  order_id = 1;
  claimer = "ada";
  heartbeat = 9;
  now = 20;
  timestamp = "t2";
  commits = true;
}

abbrev ada : Agent
ada = new_agent "t1" "standard" jiva empty_profile

found : find_order (is_open_bounty 1) city.market.orders ≡ some bounty
unfolding find_order
found = refl

registered : get "ada" city.registry ≡ some ada
unfolding get lookup discover record_event
registered = refl

fill_bounty_order-Balanced_example :
    (has_receipt (fill_bounty_order small_bank codec claim city).1
      ≡ not (eqb 54 0)
        && elim (small_bank.transfer city.books "SYSTEM_TREASURY" "ada" 54) [
          | none ↦ false
          | some _ ↦ true
        ]
        && true)
    × Balanced small_bank "ada" 54 "ada" "ada" city (fill_bounty_order small_bank codec claim city)
fill_bounty_order-Balanced_example =
    fill_bounty_order-Balanced small_bank small_bank-MovesMoney small_bank-TakesBack codec claim
      city bounty ada "ada" "ada" refl found registered
