-- ===== src/Marketplace/Settlement.antt =====
-- city/pokedex.py: `fill_order`, a trade over two databases. The bank is the steward-protocol's
-- CivicBank, of which the code uses `get_balance` and `transfer`.
pub mod Payments
pub mod Trades
pub mod Delivery
use agent_city.Prelude.{
  ℕ, ◌+◌, ◌-◌, ◌*◌, ◌/◌, ◌≤◌, ◌<◌, ◌≡◌, ◌≢◌, String, Bool, true, false, not, ◌&&◌, ◌||◌, Option,
  none, some, List, [], ◌∷◌, ◌++◌, ltb, leb, eqb, if◌then◌else◌,
}
use agent_city.Prelude.Key.{◌==◌, text_key}
use agent_city.Prelude.Dict.{Dict, lookup}
use agent_city.Marketplace.{
  Stack, Market, Order, OrderStatus, listed, filled, find_order, update_order, is_listed, is_bounty,
  grant_asset, traded,
}

-- The bank: what an account holds, and a transfer from one account to another, which returns the id of
-- the transaction, or `none` where it raises.
pub record Bank : Type 1 where
  pub Books : Type 0
  pub balance : Books → String → ℕ
  pub transfer : Books → String → String → ℕ → Option (String × Books)

-- A transfer takes the amount from the one account and adds it to the other.
abbrev pub MovesMoney : Bank → Type 0
MovesMoney bank =
    (b b' : bank.Books) (sender recipient tx account : String) (n : ℕ)
    → bank.transfer b sender recipient n ≡ some (tx, b')
    → bank.balance b' account + (if sender == account then n else 0)
      ≡ bank.balance b account + (if recipient == account then n else 0)

-- The books that transfers lead to from these.
pub data After (bank : Bank) (b : bank.Books) : bank.Books → Type 0 where
  here : After bank b b
  next :
      {b' b'' : bank.Books} (sender recipient tx : String) (n : ℕ)
      → After bank b b'
      → bank.transfer b' sender recipient n ≡ some (tx, b'')
      → After bank b b''

-- What one account was allowed to transfer to another goes back when it is asked for, with no more than
-- transfers in between, if the balance covers it: neither account was frozen, and no transfer freezes one.
abbrev pub TakesBack : Bank → Type 0
TakesBack bank =
    (b b' b'' : bank.Books) (sender recipient tx : String) (n : ℕ)
    → bank.transfer b sender recipient n ≡ some (tx, b')
    → After bank b' b''
    → 0 < n
    → n ≤ bank.balance b'' recipient
    → bank.transfer b'' recipient sender n ≢ none

-- A frozen account neither sends nor receives.
abbrev pub RefusesFrozen : (bank : Bank) → (bank.Books → String → Bool) → Type 0
RefusesFrozen bank is_frozen =
    (b : bank.Books) (sender recipient : String) (n : ℕ)
    → (is_frozen b sender || is_frozen b recipient) ≡ true
    → bank.transfer b sender recipient n ≡ none

-- Between two accounts that are not frozen a transfer of something that the balance covers is not refused.
abbrev pub AcceptsOpen : (bank : Bank) → (bank.Books → String → Bool) → Type 0
AcceptsOpen bank is_frozen =
    (b : bank.Books) (sender recipient : String) (n : ℕ)
    → is_frozen b sender ≡ false
    → is_frozen b recipient ≡ false
    → 0 < n
    → n ≤ bank.balance b sender
    → bank.transfer b sender recipient n ≢ none

-- A transfer leaves the frozen accounts frozen, and the others not.
abbrev pub KeepsFrozen : (bank : Bank) → (bank.Books → String → Bool) → Type 0
KeepsFrozen bank is_frozen =
    (b b' : bank.Books) (sender recipient tx account : String) (n : ℕ)
    → bank.transfer b sender recipient n ≡ some (tx, b')
    → is_frozen b' account ≡ is_frozen b account

abbrev pub trade_commission_percent : ℕ
trade_commission_percent = 6

-- `ZONE_TREASURIES.get(zone, "ZONE_DISCOVERY")`; a seller that is not registered counts as "discovery".
unfoldable pub zone_treasury : Option String → String
zone_treasury none = "ZONE_DISCOVERY"
zone_treasury (some zone) =
    if zone == "discovery"
    then "ZONE_DISCOVERY"
    else if zone == "governance"
    then "ZONE_GOVERNANCE"
    else if zone == "engineering"
    then "ZONE_ENGINEERING"
    else if zone == "research"
    then "ZONE_RESEARCH"
    else "ZONE_DISCOVERY"

abbrev pub effective_rate : Option ℕ → ℕ
effective_rate none = trade_commission_percent
effective_rate (some rate) = rate

unfoldable pub commission_of : Option ℕ → Order → ℕ
commission_of rate o = o.price * effective_rate rate / 100

pub record Receipt : Type 0 where
  pub order_id : ℕ
  pub seller : String
  pub buyer : String
  pub asset_type : String
  pub asset_id : String
  pub quantity : ℕ
  pub price : ℕ
  pub commission : ℕ
  pub seller_receives : ℕ
  pub tx_id : String

-- The arguments of a call, with a rate of at most 100 percent, and what the call finds outside the market: the clock, the zone of each
-- seller, and whether SQLite commits.
pub record Purchase : Type 0 where
  pub order_id : ℕ
  pub buyer : String
  pub commission_pct : Option ℕ
  pub now : ℕ
  pub zone_of : String → Option String
  pub commits : Bool

-- `id = ? AND status = 'open'`
unfoldable pub is_open_order : ℕ → Order → Bool
is_open_order order_id o = eqb o.id order_id && is_listed o.status

-- The first query: the order of this id, open or not, is a bounty.
unfoldable pub is_bounty_order : ℕ → Market → Bool
is_bounty_order order_id m = elim (find_order (λ o. eqb o.id order_id) m.orders) [
  | none ↦ false
  | some o ↦ is_bounty o
]

pub mark_filled : Purchase → Option String → Order → Order
mark_filled b tx o = record o {
  status = filled;
  buyer = some b.buyer;
  filled_at = some b.now;
  tx_id = tx;
}

-- The rows as the transaction leaves them: the order is filled, and the buyer has the asset.
unfoldable pub settle : Purchase → Order → String → Market → Market
unfolding mark_filled
settle b o tx m =
    (grant_asset b.now b.buyer (traded o.asset_type o.asset_id o.quantity) (record m {
      orders = update_order (is_open_order b.order_id) (mark_filled b (some tx)) m.orders;
    })).0

module _ (bank : Bank) where
  open bank use {Books, balance, transfer}

  -- What a call leaves: the market, the books, and the receipt or `none`.
  abbrev pub Result : Type 0
  Result = Market × Books × Option Receipt

  -- `_reverse_bank_transfer`: a failure is logged, and nothing more is done about it.
  unfoldable pub reverse_transfer : String → String → ℕ → Books → Books
  reverse_transfer sender recipient n books =
      if eqb n 0
      then books
      else elim (transfer books sender recipient n) [ none ↦ books | some (tx, books') ↦ books' ]

  pub receipt : Purchase → Order → String → Receipt
  receipt b o tx = record {
    order_id = b.order_id;
    seller = o.seller;
    buyer = b.buyer;
    asset_type = o.asset_type;
    asset_id = o.asset_id;
    quantity = o.quantity;
    price = o.price;
    commission = commission_of b.commission_pct o;
    seller_receives = o.price - commission_of b.commission_pct o;
    tx_id = tx;
  }

  -- After the bank's transfers: the commit, or the rollback with both transfers reversed.
  pub commit : Purchase → Order → String → Market → Books → Result
  unfolding reverse_transfer receipt
  commit b o tx m books =
      let commission = commission_of b.commission_pct o in
      let zone = zone_treasury (b.zone_of o.seller) in
      if b.commits then (settle b o tx m, books, some (receipt b o tx)) else (
        m,
        reverse_transfer o.seller b.buyer (o.price - commission)
            (reverse_transfer zone b.buyer commission books),
        none,
      )

  -- The transfer of the commission, where there is one; if it is refused the first is reversed.
  pub pay_commission : Purchase → Order → String → Market → Books → Result
  unfolding commit
  pay_commission b o tx m books =
      let commission = commission_of b.commission_pct o in
      if ltb 0 commission
      then elim (transfer books b.buyer (zone_treasury (b.zone_of o.seller)) commission) [
        | none ↦ (m, reverse_transfer o.seller b.buyer (o.price - commission) books, none)
        | some (_, books') ↦ commit b o tx m books'
      ]
      else commit b o tx m books

  -- The transfer to the seller; if it is refused the rows are rolled back.
  pub pay_seller : Purchase → Order → Market → Books → Result
  unfolding pay_commission
  pay_seller b o m books =
      elim (transfer books b.buyer o.seller (o.price - commission_of b.commission_pct o)) [
        | none ↦ (m, books, none)
        | some (tx, books') ↦ pay_commission b o tx m books'
      ]

  -- `fill_order` once the order is known to be no bounty.
  pub trade : Purchase → Market → Books → Result
  unfolding pay_seller
  trade b m books = elim (find_order (is_open_order b.order_id) m.orders) [
    | none ↦ (m, books, none)
    | some o ↦
        if b.buyer == o.seller
        then (m, books, none)
        else if ltb (balance books b.buyer) o.price
        then (m, books, none)
        else pay_seller b o m books
  ]

  -- `claim` is what `fill_bounty_order` does, which pays the claimer and not the seller.
  module _ (claim : Purchase → Market → Books → Result) where
    unfoldable pub fill_order : Purchase → Market → Books → Result
    unfolding trade
    fill_order b m books = if is_bounty_order b.order_id m then claim b m books else trade b m books
