-- ===== src/Marketplace.antt =====
-- city/pokedex.py, the marketplace: the inventory of the agents and the order book. A quantity, a
-- price and a rate are natural numbers, as every caller passes them; `now` is a clock.
pub mod Supply
pub mod Escrow
pub mod Settlement
pub mod Steps
use agent_city.Prelude.{
  ℕ, ◌+◌, ◌-◌, String, Bool, true, false, not, ◌&&◌, Option, none, some, List, [], ◌∷◌, ◌++◌, ltb,
  leb, eqb, keep, if◌then◌else◌,
}
use agent_city.Prelude.Key.{◌==◌, text_key}

-- A row of `agent_inventory`.
pub record Stack : Type 0 where
  pub id : ℕ
  pub agent_name : String
  pub asset_type : String
  pub asset_id : String
  pub quantity : ℕ
  pub expires_at : Option ℕ
  pub source : String
  pub acquired_at : ℕ
  pub tx_id : Option String

pub data OrderStatus : Type 0 where
  listed filled cancelled lapsed : OrderStatus

-- A row of `marketplace_orders`. `listed` is the status 'open', and `lapsed` is 'expired'.
pub record Order : Type 0 where
  pub id : ℕ
  pub seller : String
  pub asset_type : String
  pub asset_id : String
  pub quantity : ℕ
  pub price : ℕ
  pub created_at : ℕ
  pub created_heartbeat : ℕ
  pub expires_heartbeat : ℕ
  pub status : OrderStatus
  pub buyer : Option String
  pub filled_at : Option ℕ
  pub tx_id : Option String

-- The two tables, with the ids that AUTOINCREMENT gives next.
pub record Market : Type 0 where
  pub inventory : List Stack
  pub orders : List Order
  pub next_stack : ℕ
  pub next_order : ℕ

abbrev pub order_expiry_heartbeats : ℕ
order_expiry_heartbeats = 108

abbrev pub is_listed : OrderStatus → Bool
is_listed listed = true
is_listed _ = false

-- `expires_at IS NULL OR expires_at > now`
abbrev pub is_unexpired : ℕ → Option ℕ → Bool
is_unexpired now none = true
is_unexpired now (some t) = ltb now t

-- The WHERE clause of the queries for an agent's stack of one asset.
unfoldable pub is_stack_of : ℕ → String → String → String → Stack → Bool
is_stack_of now name asset_type asset_id s =
    s.agent_name == name
    && s.asset_type == asset_type
    && s.asset_id == asset_id
    && is_unexpired now s.expires_at
    && ltb 0 s.quantity

-- `SELECT … LIMIT 1`: the first row that meets the clause.
unfoldable pub find_stack : (Stack → Bool) → List Stack → Option Stack
find_stack test [] = none
find_stack test (s ∷ rows) = if test s then some s else find_stack test rows

-- `UPDATE … SET quantity = ? WHERE id = ?`, of the row that `find_stack` found: ids are primary keys.
unfoldable pub set_quantity : (Stack → Bool) → ℕ → List Stack → List Stack
set_quantity test n [] = []
set_quantity test n (s ∷ rows) =
    if test s then record s { quantity = n } ∷ rows else s ∷ set_quantity test n rows

-- `DELETE … WHERE id = ?`, of that row.
unfoldable pub delete_stack : (Stack → Bool) → List Stack → List Stack
delete_stack test [] = []
delete_stack test (s ∷ rows) = if test s then rows else s ∷ delete_stack test rows

unfoldable pub has_asset : ℕ → String → String → String → Market → Bool
unfolding find_stack
has_asset now name asset_type asset_id m =
    elim (find_stack (is_stack_of now name asset_type asset_id) m.inventory) [
      | none ↦ false
      | some s ↦ true
    ]

unfoldable pub get_inventory : ℕ → String → Market → List Stack
get_inventory now name m =
    keep (λ s. s.agent_name == name && is_unexpired now s.expires_at && ltb 0 s.quantity)
      m.inventory

-- What is granted: an asset, how much of it, and the columns of a new row.
pub record Grant : Type 0 where
  pub asset_type : String
  pub asset_id : String
  pub quantity : ℕ
  pub source : String
  pub expires_at : Option ℕ
  pub tx_id : Option String

abbrev pub new_stack : ℕ → ℕ → String → Grant → Stack
new_stack id now name g = record {
  id = id;
  agent_name = name;
  asset_type = g.asset_type;
  asset_id = g.asset_id;
  quantity = g.quantity;
  expires_at = g.expires_at;
  source = g.source;
  acquired_at = now;
  tx_id = g.tx_id;
}

-- The market, and the id of the row.
unfoldable pub grant_asset : ℕ → String → Grant → Market → Market × ℕ
grant_asset now name g m =
    let test = is_stack_of now name g.asset_type g.asset_id in
    elim (find_stack test m.inventory) [
      | some s ↦
          (record m { inventory = set_quantity test (s.quantity + g.quantity) m.inventory }, s.id)
      | none ↦ (
        record m {
          inventory = m.inventory ++ new_stack m.next_stack now name g ∷ [];
          next_stack = m.next_stack + 1;
        },
        m.next_stack,
      )
    ]

-- The stack is decremented, and deleted where nothing is left.
unfoldable pub take_from : (Stack → Bool) → Stack → ℕ → List Stack → List Stack
take_from test s quantity rows =
    if leb (s.quantity - quantity) 0
    then delete_stack test rows
    else set_quantity test (s.quantity - quantity) rows

unfoldable pub consume_asset : ℕ → String → String → String → ℕ → Market → Market × Bool
consume_asset now name asset_type asset_id quantity m =
    let test = is_stack_of now name asset_type asset_id in
    elim (find_stack test m.inventory) [
      | none ↦ (m, false)
      | some s ↦
          if ltb s.quantity quantity
          then (m, false)
          else (record m { inventory = take_from test s quantity m.inventory }, true)
    ]

abbrev pub traded : String → String → ℕ → Grant
traded asset_type asset_id quantity = record {
  asset_type = asset_type;
  asset_id = asset_id;
  quantity = quantity;
  source = "trade";
  expires_at = none;
  tx_id = none;
}

-- One transaction: the seller's stack is decremented, then the buyer's is looked up and incremented,
-- or made.
unfoldable pub transfer_asset : ℕ → String → String → String → String → ℕ → Market → Market × Bool
transfer_asset now seller buyer asset_type asset_id quantity m =
    let test = is_stack_of now seller asset_type asset_id in
    elim (find_stack test m.inventory) [
      | none ↦ (m, false)
      | some s ↦
          let taken = record m { inventory = take_from test s quantity m.inventory } in
          if ltb s.quantity quantity
          then (m, false)
          else ((grant_asset now buyer (traded asset_type asset_id quantity) taken).0, true)
    ]

pub new_order : ℕ → ℕ → String → String → String → ℕ → ℕ → ℕ → ℕ → Order
new_order id now seller asset_type asset_id quantity price heartbeat expires_heartbeat = record {
  id = id;
  seller = seller;
  asset_type = asset_type;
  asset_id = asset_id;
  quantity = quantity;
  price = price;
  created_at = now;
  created_heartbeat = heartbeat;
  expires_heartbeat = expires_heartbeat;
  status = listed;
  buyer = none;
  filled_at = none;
  tx_id = none;
}

-- `INSERT INTO marketplace_orders`
pub insert_order : (ℕ → Order) → Market → Market × Option ℕ
insert_order order m = (
  record m { orders = m.orders ++ order m.next_order ∷ []; next_order = m.next_order + 1 },
  some m.next_order,
)

unfoldable pub create_order : ℕ → String → String → String → ℕ → ℕ → ℕ → Market → Market × Option ℕ
unfolding new_order insert_order
create_order now seller asset_type asset_id quantity price heartbeat m =
    if not (has_asset now seller asset_type asset_id m)
    then (m, none)
    else let (m', consumed) = consume_asset now seller asset_type asset_id quantity m in
      if not consumed
      then (m', none)
      else insert_order
          (λ id.
            new_order id now seller asset_type asset_id quantity price heartbeat
              (heartbeat + order_expiry_heartbeats))
          m'

-- `_create_bounty_order`; `seller` is "treasury:" with the source, and `asset_id` what the caller gives or
-- "fix:" with the start of the target. Nothing is taken from an inventory.
unfoldable pub create_bounty_order : ℕ → String → String → ℕ → ℕ → ℕ → Market → Market × Option ℕ
unfolding new_order insert_order
create_bounty_order now seller asset_id reward heartbeat expiry_hb m =
    insert_order
      (λ id. new_order id now seller "bounty" asset_id 1 reward heartbeat (heartbeat + expiry_hb)) m

abbrev pub returned : Order → Grant
returned o = record {
  asset_type = o.asset_type;
  asset_id = o.asset_id;
  quantity = o.quantity;
  source = "trade_return";
  expires_at = none;
  tx_id = none;
}

unfoldable pub find_order : (Order → Bool) → List Order → Option Order
find_order test [] = none
find_order test (o ∷ orders) = if test o then some o else find_order test orders

-- `UPDATE marketplace_orders … WHERE id = ?`, of the row that `find_order` found.
unfoldable pub update_order : (Order → Bool) → (Order → Order) → List Order → List Order
update_order test f [] = []
update_order test f (o ∷ orders) = if test o then f o ∷ orders else o ∷ update_order test f orders

abbrev pub is_bounty : Order → Bool
is_bounty o = o.asset_type == "bounty"

-- `id = ? AND status = 'open' AND seller = ?`
pub is_own_order : ℕ → String → Order → Bool
is_own_order order_id agent o = eqb o.id order_id && is_listed o.status && o.seller == agent

unfoldable pub cancel_order : ℕ → ℕ → String → Market → Market × Bool
unfolding is_own_order
cancel_order now order_id agent m =
    let test = is_own_order order_id agent in
    elim (find_order test m.orders) [
      | none ↦ (m, false)
      | some o ↦
          let m' = record m {
            orders = update_order test (λ p. record p { status = cancelled }) m.orders;
          } in
          if is_bounty o then (m', true) else ((grant_asset now agent (returned o) m').0, true)
    ]

-- `status = 'open' AND expires_heartbeat <= ?`
pub is_overdue : ℕ → Order → Bool
is_overdue heartbeat o = is_listed o.status && leb o.expires_heartbeat heartbeat

-- The UPDATE of `expire_orders`, and the number of its rows.
pub lapse_all : ℕ → List Order → List Order × ℕ
lapse_all heartbeat [] = ([], 0)
lapse_all heartbeat (o ∷ orders) =
    let (rest, count) = lapse_all heartbeat orders in
    if is_overdue heartbeat o
    then (record o { status = lapsed } ∷ rest, count + 1)
    else (o ∷ rest, count)

-- The loop that returns the escrow of the rows that were selected.
pub return_all : ℕ → List Order → Market → Market
return_all now [] m = m
return_all now (o ∷ orders) m =
    return_all now orders (if is_bounty o then m else (grant_asset now o.seller (returned o) m).0)

unfoldable pub expire_orders : ℕ → ℕ → Market → Market × ℕ
unfolding lapse_all return_all is_overdue
expire_orders now heartbeat m =
    let expired_orders = keep (is_overdue heartbeat) m.orders in
    let (orders, count) = lapse_all heartbeat m.orders in
    (return_all now expired_orders (record m { orders = orders }), count)
