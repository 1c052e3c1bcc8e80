-- ===== src/Marketplace/Settlement/Delivery.antt =====
-- What a trade does to the assets: the escrow of the order becomes the buyer's.
use agent_city.Prelude.{
  ◌+◌, ◌≡◌, ap, ◌∙◌, String, false, some, if◌then◌else◌, arith, Option-cases, inl, inr,
}
use agent_city.Prelude.Key.{text_key}
use agent_city.Marketplace.{Market, Order, find_order, update_order, is_bounty, traded}
use agent_city.Marketplace.Supply.{of_asset, Holding, amount-grant}
use agent_city.Marketplace.Escrow.{holdings, escrowed-update, find_order-test, orders-grant}
use agent_city.Marketplace.Settlement.Payments.{HasFairRate}
use agent_city.Marketplace.Settlement.Trades.{fill_order_pays, fill_order-none}
use agent_city.Marketplace.Settlement.{
  Bank, MovesMoney, Result, fill_order, Purchase, is_open_order, is_bounty_order, mark_filled,
  settle,
}

module _ (p : Holding) (b : Purchase) (m : Market) (o : Order) where
  pub holdings-settle :
      (tx : String)
      → is_bounty o ≡ false
      → find_order (is_open_order b.order_id) m.orders ≡ some o
      → holdings p (settle b o tx m)
          + (if p o.seller o.asset_type o.asset_id then o.quantity else 0)
        ≡ holdings p m + (if p b.buyer o.asset_type o.asset_id then o.quantity else 0)
  unfolding holdings settle mark_filled is_open_order
  holdings-settle tx plain found =
      let m' = record m {
        orders = update_order (is_open_order b.order_id) (mark_filled b (some tx)) m.orders;
      } in
      ground (
        arith,
        find_order-test p (is_open_order b.order_id) m.orders o found,
        escrowed-update p (is_open_order b.order_id) (mark_filled b (some tx)) m.orders o found,
        amount-grant p b.now b.buyer (traded o.asset_type o.asset_id o.quantity) m',
        orders-grant p b.now b.buyer (traded o.asset_type o.asset_id o.quantity) m',
      )

-- Whatever a purchase comes to, the units of each asset stay the same in number.
pub holdings-fill_order :
    (bank : Bank) (moves : MovesMoney bank) (claim : Purchase → Market → bank.Books → Result bank)
    (t i : String) (b : Purchase) (m : Market) (books : bank.Books) (o : Order)
    → HasFairRate b
    → is_bounty_order b.order_id m ≡ false
    → find_order (is_open_order b.order_id) m.orders ≡ some o
    → is_bounty o ≡ false
    → holdings (of_asset t i) (fill_order bank claim b m books).0 ≡ holdings (of_asset t i) m
holdings-fill_order bank moves claim t i b m books o fair plain found no_bounty =
    elim (Option-cases (fill_order bank claim b m books).2) [
      | inl refused ↦
          ap (holdings (of_asset t i)) (fill_order-none bank claim b m books plain refused)
      | inr (r, done) ↦
          let (others, rich, settled, stated, paid) =
            fill_order_pays bank moves claim b m books o r fair plain found done in
          ap (holdings (of_asset t i)) settled
          ∙ ground (arith, holdings-settle (of_asset t i) b m o r.tx_id no_bounty found)
    ]
