-- ===== src/Marketplace/Escrow.antt =====
-- What the order book holds in escrow: the operations on orders move assets between the inventories
-- and the escrow, and lose or make none.
use agent_city.Prelude.{
  ℕ, ◌+◌, ◌≡◌, refl, ap, String, Bool, true, false, some, List, [], ◌∷◌, ◌++◌, arith, eq_iff,
  Option-cases, inl, inr, keep, if◌then◌else◌,
}
use agent_city.Prelude.Key.{◌==◌, text_key, ==-refl}
use agent_city.Marketplace.{
  Market, Order, cancelled, Grant, find_order, update_order, is_listed, is_bounty, is_own_order,
  is_overdue, lapse_all, return_all, returned, grant_asset, consume_asset, create_order,
  cancel_order, expire_orders, create_bounty_order, transfer_asset, traded, take_from, is_stack_of,
  find_stack, new_order, insert_order, order_expiry_heartbeats,
}
use agent_city.Marketplace.Supply.{Holding, amount, amount-grant, amount-consume, transfer_moves}

module _ (p : Holding) where
  -- What is returned for an order, and what an order holds: a bounty holds nothing.
  abbrev pub due : Order → ℕ
  due o = if is_bounty o then 0 else if p o.seller o.asset_type o.asset_id then o.quantity else 0

  abbrev pub worth : Order → ℕ
  worth o = if is_listed o.status then due o else 0

  unfoldable pub escrowed : List Order → ℕ
  escrowed [] = 0
  escrowed (o ∷ orders) = worth o + escrowed orders

  -- The inventories and the escrow together; an escrow counts as its seller's.
  unfoldable pub holdings : Market → ℕ
  holdings m = amount p m.inventory + escrowed m.orders

  dues : List Order → ℕ
  dues [] = 0
  dues (o ∷ orders) = due o + dues orders

  escrowed-append :
      (orders : List Order) (o : Order) → escrowed (orders ++ o ∷ []) ≡ escrowed orders + worth o
  unfolding escrowed
  escrowed-append [] o = ground arith
  escrowed-append (q ∷ orders) o = ground (arith, escrowed-append orders o)

  pub escrowed-update :
      (test : Order → Bool) (f : Order → Order) (orders : List Order) (o : Order)
      → find_order test orders ≡ some o
      → escrowed (update_order test f orders) + worth o ≡ escrowed orders + worth (f o)
  unfolding escrowed find_order update_order
  escrowed-update test f [] o h = cc
  escrowed-update test f (q ∷ orders) o h = ground (arith, escrowed-update test f orders o)

  pub orders-grant :
      (now : ℕ) (name : String) (g : Grant) (m : Market)
      → (grant_asset now name g m).0.orders ≡ m.orders
  unfolding grant_asset
  orders-grant now name g m = ground arith

  orders-consume :
      (now : ℕ) (name t i : String) (n : ℕ) (m : Market)
      → (consume_asset now name t i n m).0.orders ≡ m.orders
  unfolding consume_asset
  orders-consume now name t i n m = ground arith

  amount-return_all :
      (now : ℕ) (orders : List Order) (m : Market)
      → (amount p (return_all now orders m).inventory ≡ amount p m.inventory + dues orders)
        × ((return_all now orders m).orders ≡ m.orders)
  unfolding return_all dues
  amount-return_all now [] m = ground arith
  amount-return_all now (o ∷ orders) m = ground (
    arith,
    amount-return_all now orders m,
    amount-return_all now orders (grant_asset now o.seller (returned o) m).0,
    amount-grant p now o.seller (returned o) m,
    orders-grant now o.seller (returned o) m,
  )

  escrowed-lapse_all :
      (h : ℕ) (orders : List Order)
      → escrowed (lapse_all h orders).0 + dues (keep (is_overdue h) orders) ≡ escrowed orders
  unfolding escrowed lapse_all dues keep is_overdue
  escrowed-lapse_all h [] = refl
  escrowed-lapse_all h (o ∷ orders) = ground (arith, escrowed-lapse_all h orders)

  -- Expiry returns exactly what the lapsed orders held.
  pub holdings-expire_orders :
      (now heartbeat : ℕ) (m : Market) → holdings (expire_orders now heartbeat m).0 ≡ holdings m
  unfolding holdings expire_orders
  holdings-expire_orders now h m = omega (
    arith,
    (amount-return_all now (keep (is_overdue h) m.orders)
        (record m { orders = (lapse_all h m.orders).0 })).0,
    ap escrowed
        (amount-return_all now (keep (is_overdue h) m.orders)
          (record m { orders = (lapse_all h m.orders).0 })).1,
    escrowed-lapse_all h m.orders,
  )

  own_seller :
      (order_id : ℕ) (agent : String) (o : Order)
      → is_own_order order_id agent o ≡ true
      → (o.seller ≡ agent) × (is_listed o.status ≡ true)
  unfolding is_own_order
  own_seller order_id agent o h = ground (arith, eq_iff o.seller agent)

  pub find_order-test :
      (test : Order → Bool) (orders : List Order) (o : Order)
      → find_order test orders ≡ some o
      → test o ≡ true
  unfolding find_order
  find_order-test test [] o h = cc
  find_order-test test (q ∷ orders) o h = ground (arith, find_order-test test orders o)

  -- Cancelling returns exactly what the order held.
  pub holdings-cancel_order :
      (now order_id : ℕ) (agent : String) (m : Market)
      → holdings (cancel_order now order_id agent m).0 ≡ holdings m
  unfolding holdings cancel_order
  holdings-cancel_order now order_id agent m =
      elim (Option-cases (find_order (is_own_order order_id agent) m.orders)) [
        | inl missing ↦ ground arith
        | inr (o, found) ↦
            let test = is_own_order order_id agent in
            let cancel : Order → Order = λ q. record q { status = cancelled } in
            let m' = record m { orders = update_order test cancel m.orders } in
            ground (
              arith,
              own_seller order_id agent o (find_order-test test m.orders o found),
              escrowed-update test cancel m.orders o found,
              amount-grant p now agent (returned o) m',
              orders-grant now agent (returned o) m',
            )
      ]

  -- Listing an asset moves it into escrow, if its type is not that of bounties.
  pub holdings-create_order :
      (now : ℕ) (seller t i : String) (n price heartbeat : ℕ) (m : Market)
      → (t == "bounty") ≡ false
      → holdings (create_order now seller t i n price heartbeat m).0 ≡ holdings m
  unfolding holdings create_order insert_order new_order
  holdings-create_order now seller t i n price heartbeat m plain =
      let m' = (consume_asset now seller t i n m).0 in
      ground (
        arith,
        amount-consume p now seller t i n m,
        orders-consume now seller t i n m,
        escrowed-append m'.orders (
            new_order m'.next_order now seller t i n price heartbeat
              (heartbeat + order_expiry_heartbeats)),
      )

  -- A bounty holds nothing.
  pub holdings-create_bounty_order :
      (now : ℕ) (seller i : String) (reward heartbeat expiry_hb : ℕ) (m : Market)
      → holdings (create_bounty_order now seller i reward heartbeat expiry_hb m).0 ≡ holdings m
  unfolding holdings create_bounty_order insert_order new_order
  holdings-create_bounty_order now seller i reward heartbeat expiry_hb m = ground (
    arith,
    ==-refl {K = String} "bounty",
    escrowed-append m.orders
        (new_order m.next_order now seller "bounty" i 1 reward heartbeat (heartbeat + expiry_hb)),
  )

  orders-transfer :
      (now : ℕ) (seller buyer t i : String) (n : ℕ) (m : Market)
      → (transfer_asset now seller buyer t i n m).0.orders ≡ m.orders
  unfolding transfer_asset
  orders-transfer now seller buyer t i n m =
      elim (Option-cases (find_stack (is_stack_of now seller t i) m.inventory)) [
        | inl missing ↦ ground arith
        | inr (s, found) ↦ ground (
          arith,
          orders-grant now buyer (traded t i n)
              (record m { inventory = take_from (is_stack_of now seller t i) s n m.inventory }),
        )
      ]

  -- A transfer between two agents that are counted alike.
  pub holdings-transfer_asset :
      (now : ℕ) (seller buyer t i : String) (n : ℕ) (m : Market)
      → p seller t i ≡ p buyer t i
      → holdings (transfer_asset now seller buyer t i n m).0 ≡ holdings m
  unfolding holdings
  holdings-transfer_asset now seller buyer t i n m alike = ground (
    arith,
    orders-transfer now seller buyer t i n m,
    (transfer_moves p now seller buyer t i n m).0,
    ap escrowed (orders-transfer now seller buyer t i n m),
  )
