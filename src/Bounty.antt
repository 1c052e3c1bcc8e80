-- ===== src/Bounty.antt =====
-- city/bounty.py and `fill_bounty_order` of city/pokedex.py: bounties are orders of the marketplace, paid
-- from the treasury in the bank, and in prana on the row of the claimer. What a target is normalized to is
-- the argument `asset_id`.
pub mod Claimed
use Prim.Native.String.{◌++◌ as join}
use agent_city.Prelude.{
  ℕ, ◌+◌, String, Bool, true, false, not, ◌&&◌, Option, none, some, List, [], ◌∷◌, ltb, eqb, min,
  keep, if◌then◌else◌,
}
use agent_city.Prelude.Key.{◌==◌, text_key}
use agent_city.Prelude.Int.{pos}
use agent_city.Prelude.Json
use agent_city.Prelude.Json.{Json}
use agent_city.Marketplace.{
  Market, Order, filled, is_listed, is_bounty, find_order, update_order, create_bounty_order,
}
use agent_city.Marketplace.Settlement.{Bank, Receipt, reverse_transfer}
use agent_city.Registry.{
  Codec, Registry, Agent, get, set_agent, record_event, status_value, is_frozen,
}
use agent_city.Registry.Prana.{add_prana, revive_if_rich}

abbrev pub system_treasury : String
system_treasury = "SYSTEM_TREASURY"

-- BOUNTY_REWARD_LOW, _MEDIUM and _HIGH, and BOUNTY_EXPIRY_HB.
unfoldable pub severity_reward : String → ℕ
severity_reward s = if s == "low" then 27 else if s == "high" then 108 else 54

abbrev pub bounty_expiry : ℕ
bounty_expiry = 20

-- `get_active_orders` for an asset type and an asset id.
unfoldable pub get_active_orders : String → String → Market → List Order
get_active_orders type id m =
    keep (λ o. is_listed o.status && (o.asset_type == type) && (o.asset_id == id)) m.orders

-- Where the treasury has less than the reward, the reward is what it has; `balance` is none where the bank
-- does not answer. `planned` is whether the context has a sankalpa.
unfoldable pub create_bounty :
    Bool → ℕ → Option ℕ → String → String → String → ℕ → Market → Market × Option ℕ
create_bounty planned now balance asset_id severity source heartbeat m =
    let full = severity_reward severity in
    let reward : ℕ = elim balance [ none ↦ full | some b ↦ min full b ] in
    if not planned
    then (m, none)
    else if eqb reward 0
    then (m, none)
    else elim (get_active_orders "bounty" asset_id m) [
      | _ ∷ _ ↦ (m, none)
      | [] ↦
          create_bounty_order now (join "treasury:" source) asset_id reward heartbeat bounty_expiry
            m
    ]

-- `id = ? AND status = 'open' AND asset_type = 'bounty'`
abbrev pub is_open_bounty : ℕ → Order → Bool
is_open_bounty order_id o = eqb o.id order_id && is_listed o.status && is_bounty o

-- A claim, and what it finds outside the tables: the clock of the orders, that of the events, and whether
-- SQLite commits.
pub record Claim : Type 0 where
  pub order_id : ℕ
  pub claimer : String
  pub heartbeat : ℕ
  pub now : ℕ
  pub timestamp : String
  pub commits : Bool

-- The tables of both databases.
pub record City (bank : Bank) : Type 0 where
  pub market : Market
  pub registry : Registry
  pub books : bank.Books

unfoldable pub claim_entry : Codec → Claim → Order → String
claim_entry codec c o = codec.dumps (
    Json.object (
      Json.field "order_id" (Json.number (pos c.order_id)) (
        Json.field "asset_id" (Json.text o.asset_id) (
          Json.field "amount" (Json.number (pos o.price)) (
            Json.field "heartbeat" (Json.number (pos c.heartbeat))
              (Json.field "seller" (Json.text o.seller) Json.end))))))

unfoldable pub claimed_receipt : Claim → Order → String → Receipt
claimed_receipt c o tx = record {
  order_id = c.order_id;
  seller = o.seller;
  buyer = c.claimer;
  asset_type = o.asset_type;
  asset_id = o.asset_id;
  quantity = o.quantity;
  price = o.price;
  commission = 0;
  seller_receives = 0;
  tx_id = tx;
}

abbrev pub claim_filled : Claim → String → Order → Order
claim_filled c tx o = record o {
  status = filled;
  buyer = some c.claimer;
  filled_at = some c.now;
  tx_id = some tx;
}

-- The rows as the transaction leaves them, and the agent awake if it was frozen and is rich now.
unfoldable pub rewarded : Codec → Claim → Order → Agent → Registry → Registry
rewarded codec c o a r =
    (revive_if_rich codec c.timestamp c.claimer (is_frozen a.status) "system"
      (join "revive:bounty_claim:" o.asset_id)
      (record_event codec c.timestamp c.claimer "bounty_claim" (some (status_value a.status))
        (status_value a.status) (claim_entry codec c o)
        (set_agent c.claimer (add_prana (pos o.price)) r))).0

module _ (bank : Bank) where
  open bank use {Books, balance, transfer}

  -- After the transfer from the treasury: the commit, or the rollback with the transfer reversed.
  unfoldable pub settle_claim :
      Codec → Claim → Order → Agent → String → Books → City bank → City bank × Option Receipt
  settle_claim codec c o a tx paid city =
      if c.commits
      then (
        record {
          market = record city.market {
            orders =
                update_order (is_open_bounty c.order_id) (claim_filled c tx) city.market.orders;
          };
          registry = rewarded codec c o a city.registry;
          books = paid;
        },
        some (claimed_receipt c o tx),
      )
      else (
        record city { books = reverse_transfer bank c.claimer system_treasury o.price paid },
        none,
      )

  -- A claimer that the registry does not know is a ValueError, on which `claim_bounty` answers False as it
  -- does without a receipt.
  unfoldable pub fill_bounty_order : Codec → Claim → City bank → City bank × Option Receipt
  fill_bounty_order codec c city =
      elim (find_order (is_open_bounty c.order_id) city.market.orders) [
        | none ↦ (city, none)
        | some o ↦ elim (get c.claimer city.registry) [
          | none ↦ (city, none)
          | some a ↦
              if eqb o.price 0
              then (city, none)
              else elim (transfer city.books system_treasury c.claimer o.price) [
                | none ↦ (city, none)
                | some (tx, paid) ↦ settle_claim codec c o a tx paid city
              ]
        ]
      ]

  unfoldable pub claim_bounty : Codec → Claim → City bank → City bank × Bool
  claim_bounty codec c city =
      let result = fill_bounty_order codec c city in
      elim result.1 [ none ↦ (result.0, false) | some _ ↦ (result.0, true) ]
