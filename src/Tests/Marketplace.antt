-- ===== src/Tests/Marketplace.antt =====
-- A small market: one seller, one buyer, a listing, a purchase; and a bank of three accounts or more.
use agent_city.Prelude.{
  ℕ, ◌+◌, ◌-◌, ◌≤◌, ◌<◌, ◌≡◌, ◌||◌, eqb, refl, sym, ap, String, Bool, true, false, not, ◌&&◌,
  Option, none, some, [], ◌∷◌, leb, if◌then◌else◌, arith, eq_iff, Bool-cases, inl, inr,
}
use agent_city.Prelude.Key.{◌==◌, text_key}
use agent_city.Marketplace.{
  Market, Order, find_order, create_order, consume_asset, has_asset, find_stack, is_stack_of,
  take_from, set_quantity, delete_stack, listed, grant_asset, update_order, transfer_asset,
}
use agent_city.Marketplace.Supply.{of_asset, owned_by, amount, transfer_moves}
use agent_city.Marketplace.Escrow.{holdings}
use agent_city.Marketplace.Settlement.{
  Bank, MovesMoney, TakesBack, RefusesFrozen, AcceptsOpen, KeepsFrozen, Purchase, Receipt, Result,
  is_open_order, is_bounty_order, fill_order, receipt, settle, commission_of, zone_treasury,
  effective_rate,
}
use agent_city.Marketplace.Settlement.Trades.{
  is_done, fill_order_pays, fill_order_refused, fill_order_done,
}
use agent_city.Marketplace.Steps.{Steps, start, then_, listing, purchase, Steps-holdings}

program : Unit {0}
unfolding fill_order is_bounty_order find_order create_order has_asset consume_asset find_stack
    is_stack_of take_from set_quantity delete_stack is_open_order settle commission_of zone_treasury
    grant_asset update_order
program = tt

abbrev same_name : String → String → Bool
same_name a b = a == b

-- A bank whose accounts never go below nothing, and in which one account is frozen.
abbrev pub is_frozen : (String → ℕ) → String → Bool
is_frozen b account = account == "eve"

abbrev pub small_bank : Bank
small_bank = record {
  Books = String → ℕ;
  balance = λ b account. b account;
  transfer = λ b sender recipient n.
      if leb n (b sender) && not (sender == "eve") && not (recipient == "eve")
      then some (
        "tx-1",
        λ account.
            b account
            + (if recipient == account then n else 0)
            - (if sender == account then n else 0),
      )
      else none;
}

abbrev after_of : String → Option (String × (String → ℕ)) → ℕ
after_of account none = 0
after_of account (some (tx, b)) = b account

pub small_bank-MovesMoney : MovesMoney small_bank
small_bank-MovesMoney b b' sender recipient tx account n done =
    elim (Bool-cases (leb n (b sender) && not (sender == "eve") && not (recipient == "eve"))) [
      | inl rich ↦
          let after : b' account ≡ after_of account (small_bank.transfer b sender recipient n) =
            ap (after_of account) (sym done) in
          ground (arith, eq_iff sender account)
      | inr poor ↦ ground arith
    ]

-- No transfer is made with the frozen account.
small_bank-free :
    (b b' : String → ℕ) (sender recipient tx : String) (n : ℕ)
    → small_bank.transfer b sender recipient n ≡ some (tx, b')
    → (not (sender == "eve") && not (recipient == "eve")) ≡ true
small_bank-free b b' sender recipient tx n done = ground (arith, done)

pub small_bank-TakesBack : TakesBack small_bank
small_bank-TakesBack b b' b'' sender recipient tx n done later some_ covered refused =
    ground (arith, small_bank-free b b' sender recipient tx n done, covered, refused)

small_bank-RefusesFrozen : RefusesFrozen small_bank is_frozen
small_bank-RefusesFrozen b sender recipient n frozen = ground (arith, frozen)

small_bank-AcceptsOpen : AcceptsOpen small_bank is_frozen
small_bank-AcceptsOpen b sender recipient n free free' some_ covered refused =
    ground (arith, free, free', covered, refused)

small_bank-KeepsFrozen : KeepsFrozen small_bank is_frozen
small_bank-KeepsFrozen b b' sender recipient tx account n done = refl

abbrev claim : Purchase → Market → (String → ℕ) → Result small_bank
claim b m books = (m, books, none)

abbrev funds : String → ℕ
funds account = if account == "bob" then 500 else 0

abbrev shelf : Market
shelf = record {
  inventory =
      record {
        id = 1;
        agent_name = "ada";
        asset_type = "scroll";
        asset_id = "s1";
        quantity = 5;
        expires_at = none;
        source = "starter";
        acquired_at = 0;
        tx_id = none;
      }
      ∷ [];
  orders = [];
  next_stack = 2;
  next_order = 1;
}

abbrev offered : Market
offered = (create_order 10 "ada" "scroll" "s1" 2 100 7 shelf).0

abbrev offer : Order
offer = record {
  id = 1;
  seller = "ada";
  asset_type = "scroll";
  asset_id = "s1";
  quantity = 2;
  price = 100;
  created_at = 10;
  created_heartbeat = 7;
  expires_heartbeat = 115;
  status = listed;
  buyer = none;
  filled_at = none;
  tx_id = none;
}

abbrev bob_buys : Purchase
bob_buys = record {
  order_id = 1;
  buyer = "bob";
  commission_pct = none;
  now = 20;
  zone_of = λ seller. some "research";
  commits = true;
}

abbrev bob_fails : Purchase
bob_fails = record bob_buys { commits = false }

abbrev bought : Receipt
bought = record {
  order_id = 1;
  seller = "ada";
  buyer = "bob";
  asset_type = "scroll";
  asset_id = "s1";
  quantity = 2;
  price = 100;
  commission = 6;
  seller_receives = 94;
  tx_id = "tx-1";
}

buys : (fill_order small_bank claim bob_buys offered funds).2 ≡ some bought
unfolding program
buys = refl

fails : (fill_order small_bank claim bob_fails offered funds).2 ≡ none
unfolding program
fails = refl

finds : find_order (is_open_order 1) offered.orders ≡ some offer
unfolding program
finds = refl

plain : is_bounty_order 1 offered ≡ false
unfolding program
plain = refl

fair : effective_rate none ≤ 100
fair = omega arith

leaves_some : 0 < 100 - commission_of none offer
unfolding program
leaves_some = omega arith

fill_order_pays_example :
    (same_name "bob" "ada" ≡ false)
    × (100 ≤ funds "bob")
    × ((fill_order small_bank claim bob_buys offered funds).0
        ≡ settle bob_buys offer "tx-1" offered)
    × (bought ≡ receipt small_bank bob_buys offer "tx-1")
    × ((account : String)
        → small_bank.balance (fill_order small_bank claim bob_buys offered funds).1 account
            + (if "bob" == account then 100 else 0)
          ≡ funds account
            + (if "ada" == account then 100 - commission_of none offer else 0)
            + (if zone_treasury (some "research") == account then commission_of none offer else 0))
fill_order_pays_example =
    fill_order_pays small_bank small_bank-MovesMoney claim bob_buys offered funds offer bought fair
      plain finds buys

fill_order_refused_example :
    ((fill_order small_bank claim bob_fails offered funds).0 ≡ offered)
    × ((account : String)
        → small_bank.balance (fill_order small_bank claim bob_fails offered funds).1 account
          ≡ funds account)
fill_order_refused_example =
    fill_order_refused small_bank small_bank-MovesMoney claim bob_fails offered funds
      small_bank-TakesBack fair plain fails

fill_order_done_example : is_done (fill_order small_bank claim bob_buys offered funds).2 ≡ (
    not (same_name "bob" "ada")
    && leb 100 (funds "bob")
    && not (is_frozen funds "bob")
    && not (is_frozen funds "ada")
    && (eqb (commission_of none offer) 0 || not (is_frozen funds (zone_treasury (some "research"))))
    && true)
fill_order_done_example =
    fill_order_done small_bank small_bank-MovesMoney claim bob_buys offered funds offer is_frozen
      small_bank-RefusesFrozen small_bank-AcceptsOpen small_bank-KeepsFrozen fair plain finds
      leaves_some

run :
    Steps small_bank claim shelf funds
      (fill_order small_bank claim bob_buys offered funds).0
      (fill_order small_bank claim bob_buys offered funds).1
run =
    then_ (then_ start (listing 10 "ada" "scroll" "s1" 2 100 7 refl))
      (purchase bob_buys offer fair plain finds refl)

Steps-holdings_example :
    holdings (of_asset "scroll" "s1") (fill_order small_bank claim bob_buys offered funds).0
    ≡ holdings (of_asset "scroll" "s1") shelf
Steps-holdings_example = Steps-holdings small_bank claim small_bank-MovesMoney "scroll" "s1" run

abbrev moved : Market × Bool
moved = transfer_asset 10 "ada" "bob" "scroll" "s1" 2 shelf

transfer_moves_example :
    (amount (owned_by "bob" "scroll" "s1") moved.0.inventory
        + (if moved.1 && owned_by "bob" "scroll" "s1" "ada" "scroll" "s1" then 2 else 0)
      ≡ amount (owned_by "bob" "scroll" "s1") shelf.inventory
        + (if moved.1 && owned_by "bob" "scroll" "s1" "bob" "scroll" "s1" then 2 else 0))
    × (moved.0 ≡ (if moved.1 then moved.0 else shelf))
transfer_moves_example =
    transfer_moves (owned_by "bob" "scroll" "s1") 10 "ada" "bob" "scroll" "s1" 2 shelf
