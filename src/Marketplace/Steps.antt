-- ===== src/Marketplace/Steps.antt =====
-- The operations on the order book in any sequence: of each asset there stay as many units, in the
-- inventories and in escrow together.
use agent_city.Prelude.{ℕ, ◌≡◌, refl, ◌∙◌, String, false, some}
use agent_city.Prelude.Key.{◌==◌, text_key}
use agent_city.Marketplace.{
  Market, Order, create_order, create_bounty_order, cancel_order, expire_orders, transfer_asset,
  find_order, is_bounty,
}
use agent_city.Marketplace.Supply.{of_asset}
use agent_city.Marketplace.Escrow.{
  holdings, holdings-create_order, holdings-create_bounty_order, holdings-cancel_order,
  holdings-expire_orders, holdings-transfer_asset,
}
use agent_city.Marketplace.Settlement.{
  Bank, MovesMoney, Purchase, Result, is_open_order, is_bounty_order, fill_order,
}
use agent_city.Marketplace.Settlement.Payments.{HasFairRate}
use agent_city.Marketplace.Settlement.Delivery.{holdings-fill_order}

module _ (bank : Bank) (claim : Purchase → Market → bank.Books → Result bank) where
  -- One operation, with the market and the bank's books before and after it.
  pub data Step : Market → bank.Books → Market → bank.Books → Type 0 where
    listing :
        {m : Market} {books : bank.Books} (now : ℕ) (seller t i : String) (n price heartbeat : ℕ)
        → (t == "bounty") ≡ false
        → Step m books (create_order now seller t i n price heartbeat m).0 books
    bounty :
        {m : Market} {books : bank.Books} (now : ℕ) (seller i : String)
        (reward heartbeat expiry_hb : ℕ)
        → Step m books (create_bounty_order now seller i reward heartbeat expiry_hb m).0 books
    withdrawal :
        {m : Market} {books : bank.Books} (now order_id : ℕ) (agent : String)
        → Step m books (cancel_order now order_id agent m).0 books
    lapse :
        {m : Market} {books : bank.Books} (now heartbeat : ℕ)
        → Step m books (expire_orders now heartbeat m).0 books
    gift :
        {m : Market} {books : bank.Books} (now : ℕ) (seller buyer t i : String) (n : ℕ)
        → Step m books (transfer_asset now seller buyer t i n m).0 books
    purchase :
        {m : Market} {books : bank.Books} (b : Purchase) (o : Order)
        → HasFairRate b
        → is_bounty_order b.order_id m ≡ false
        → find_order (is_open_order b.order_id) m.orders ≡ some o
        → is_bounty o ≡ false
        → Step m books (fill_order bank claim b m books).0 (fill_order bank claim b m books).1
    elsewhere : {m : Market} {books : bank.Books} (books' : bank.Books) → Step m books m books'

  pub data Steps : Market → bank.Books → Market → bank.Books → Type 0 where
    start : {m : Market} {books : bank.Books} → Steps m books m books
    then_ :
        {m : Market} {books : bank.Books} {m' : Market} {books' : bank.Books} {m'' : Market}
        {books'' : bank.Books}
        → Steps m books m' books'
        → Step m' books' m'' books''
        → Steps m books m'' books''

  module _ (moves : MovesMoney bank) (t i : String) where
    Step-holdings :
        {m : Market} {books : bank.Books} {m' : Market} {books' : bank.Books}
        → Step m books m' books'
        → holdings (of_asset t i) m' ≡ holdings (of_asset t i) m
    Step-holdings {m} (listing now seller t' i' n price heartbeat plain) =
        holdings-create_order (of_asset t i) now seller t' i' n price heartbeat m plain
    Step-holdings {m} (bounty now seller i' reward heartbeat expiry_hb) =
        holdings-create_bounty_order (of_asset t i) now seller i' reward heartbeat expiry_hb m
    Step-holdings {m} (withdrawal now order_id agent) =
        holdings-cancel_order (of_asset t i) now order_id agent m
    Step-holdings {m} (lapse now heartbeat) = holdings-expire_orders (of_asset t i) now heartbeat m
    Step-holdings {m} (gift now seller buyer t' i' n) =
        holdings-transfer_asset (of_asset t i) now seller buyer t' i' n m refl
    Step-holdings (elsewhere books') = refl
    Step-holdings {m} {books} (purchase b o fair plain found no_bounty) =
        holdings-fill_order bank moves claim t i b m books o fair plain found no_bounty

    -- Through every sequence of listings, bounties, cancellations, expiries, transfers and purchases,
    -- there stay as many units of an asset, in the inventories and in escrow together: listings whose
    -- type is not that of bounties, purchases of orders that are no bounties at a rate of at most 100
    -- percent, a bank that moves money where it accepts a transfer, and whatever else happens to its books.
    pub Steps-holdings :
        {m : Market} {books : bank.Books} {m' : Market} {books' : bank.Books}
        → Steps m books m' books'
        → holdings (of_asset t i) m' ≡ holdings (of_asset t i) m
    Steps-holdings start = refl
    Steps-holdings (then_ earlier step) = Step-holdings step ∙ Steps-holdings earlier
