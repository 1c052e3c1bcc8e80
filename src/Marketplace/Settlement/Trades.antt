-- ===== src/Marketplace/Settlement/Trades.antt =====
-- Who pays and who gets what in a trade, and that a trade that fails moves nothing.
use agent_city.Prelude.{
  ℕ, ◌+◌, ◌-◌, ◌≤◌, ◌<◌, ◌≡◌, ◌||◌, eqb, ltb→lt, sym, ap, ◌∙◌, String, Bool, true, false, not, ◌&&◌,
  Option, none, some, ltb, leb, if◌then◌else◌, arith, Bool-cases, Option-cases, inl, inr, leb→le,
}
use agent_city.Prelude.Key.{◌==◌, text_key}
use agent_city.Marketplace.{Market, Order, find_order}
use agent_city.Marketplace.Settlement.{
  Bank, MovesMoney, TakesBack, RefusesFrozen, AcceptsOpen, KeepsFrozen, Purchase, Receipt,
  commission_of, zone_treasury, is_open_order, is_bounty_order, settle, Result, receipt, commit,
  pay_commission, pay_seller, trade, fill_order,
}
use agent_city.Marketplace.Settlement.Payments.{
  HasFairRate, commission-le, Moved, Paid, Kept, commission, zone, received, pay_commission-success,
  pay_commission-failure,
}

abbrev pub is_done : Option Receipt → Bool
is_done none = false
is_done (some r) = true

module _ (bank : Bank) (moves : MovesMoney bank) where
  open bank use {Books, balance, transfer}

  -- Between accounts of which none is frozen a covered transfer is made, and only between such.
  module _ (is_frozen : Books → String → Bool) where
    refused-why :
        AcceptsOpen bank is_frozen
        → (b : Books) (sender recipient : String) (n : ℕ) → 0 < n
        → transfer b sender recipient n ≡ none
        → (leb n (balance b sender) && not (is_frozen b sender) && not (is_frozen b recipient))
          ≡ false
    refused-why accepts b sender recipient n some_ refused =
        elim (Bool-cases (leb n (balance b sender))) [
          | inr short ↦ ground (arith, short)
          | inl covered ↦ elim (Bool-cases (is_frozen b sender)) [
            | inl frozen ↦ ground (arith, frozen)
            | inr free ↦ elim (Bool-cases (is_frozen b recipient)) [
              | inl frozen ↦ ground (arith, frozen)
              | inr free' ↦ absurd (
                  accepts b sender recipient n free free' some_
                    (leb→le n (balance b sender) covered) refused)
            ]
          ]
        ]

    made-free :
        RefusesFrozen bank is_frozen
        → (b b' : Books) (sender recipient tx : String) (n : ℕ)
        → transfer b sender recipient n ≡ some (tx, b')
        → (is_frozen b sender || is_frozen b recipient) ≡ false
    made-free refuses b b' sender recipient tx n made =
        elim (Bool-cases (is_frozen b sender || is_frozen b recipient)) [
          | inl frozen ↦ absurd (ground (arith, made, refuses b sender recipient n frozen))
          | inr free ↦ free
        ]

  module _ (claim : Purchase → Market → Books → Result bank) (b : Purchase) (m : Market)
      (books : Books) where
    -- A purchase of an order that is no bounty, at a rate of at most 100 percent, with a bank that
    -- moves money: where it gives a receipt, the buyer is not the seller and could pay, the order is
    -- filled and the asset granted to the buyer, the receipt says so, and in every account the buyer
    -- has paid the price, the seller got the price less the commission, and the treasury of the
    -- seller's zone the commission.
    pub fill_order_pays :
        (o : Order) (r : Receipt)
        → HasFairRate b
        → is_bounty_order b.order_id m ≡ false
        → find_order (is_open_order b.order_id) m.orders ≡ some o
        → (fill_order bank claim b m books).2 ≡ some r
        → ((b.buyer == o.seller) ≡ false)
          × (o.price ≤ balance books b.buyer)
          × ((fill_order bank claim b m books).0 ≡ settle b o r.tx_id m)
          × (r ≡ receipt bank b o r.tx_id)
          × ((account : String)
              → balance (fill_order bank claim b m books).1 account
                  + (if b.buyer == account then o.price else 0)
                ≡ balance books account
                  + (if o.seller == account then o.price - commission_of b.commission_pct o else 0)
                  + (if zone_treasury (b.zone_of o.seller) == account
                      then commission_of b.commission_pct o
                      else 0))
    unfolding fill_order trade pay_seller Moved Paid received zone commission receipt
    fill_order_pays o r fair plain found h =
        elim (Option-cases
          (transfer books b.buyer o.seller (o.price - commission_of b.commission_pct o))) [
            | inl refused ↦ absurd (ground arith)
            | inr ((tx, b1), done) ↦
                let moved : Moved bank b.buyer o.seller (received bank moves b o m) books b1 =
                  λ a. moves books b1 b.buyer o.seller tx a (received bank moves b o m) done in
                let pays : (pay_commission bank b o tx m b1).2 ≡ some r = ground arith in
                let (settled, stated, paid) =
                  pay_commission-success bank moves b o m tx books b1 r moved pays in
                let le = commission-le b o fair in
                let same_tx : r.tx_id ≡ tx = ap (λ q. q.tx_id) stated in
                let through : (fill_order bank claim b m books).0
                    ≡ (pay_commission bank b o tx m b1).0 =
                  ground arith in
                (
                  ground arith,
                  ground arith,
                  through ∙ settled ∙ ap (λ t. settle b o t m) (sym same_tx),
                  stated ∙ ap (receipt bank b o) (sym same_tx),
                  λ account. ground (arith, paid account),
                )
          ]

    -- A purchase of an order that is no bounty, at a rate of at most 100 percent, from a bank that
    -- moves money and lets a transfer that it made be taken back: without a receipt the tables and every
    -- account's balance are as they were, whatever failed, the transfer to the seller, that of the
    -- commission or the commit.
    pub fill_order_refused :
        TakesBack bank
        → HasFairRate b
        → is_bounty_order b.order_id m ≡ false
        → (fill_order bank claim b m books).2 ≡ none
        → ((fill_order bank claim b m books).0 ≡ m)
          × ((account : String)
              → balance (fill_order bank claim b m books).1 account ≡ balance books account)
    unfolding fill_order trade pay_seller Moved Kept received commission
    fill_order_refused back fair plain h =
        elim (Option-cases (find_order (is_open_order b.order_id) m.orders)) [
          | inl missing ↦ (ground arith, λ account. ground arith)
          | inr (o, found) ↦ elim (Bool-cases (b.buyer == o.seller)) [
            | inl own ↦ (ground arith, λ account. ground arith)
            | inr others ↦ elim (Bool-cases (ltb (balance books b.buyer) o.price)) [
              | inl poor ↦ (ground arith, λ account. ground arith)
              | inr rich ↦
                  elim (Option-cases (
                    transfer books b.buyer o.seller (o.price - commission_of b.commission_pct o))) [
                      | inl refused ↦ (ground arith, λ account. ground arith)
                      | inr ((tx, b1), done) ↦
                          let moved : Moved bank b.buyer o.seller (received bank moves b o m) books
                              b1 =
                            λ a.
                              moves books b1 b.buyer o.seller tx a (received bank moves b o m)
                                done in
                          let fails : (pay_commission bank b o tx m b1).2 ≡ none = ground arith in
                          let covered : o.price ≤ balance books b.buyer = ground arith in
                          let (same, kept) =
                            pay_commission-failure bank moves b o m back books covered
                              (commission-le b o fair) others tx b1 done moved fails in
                          (ground arith, λ account. ground (arith, kept account))
                    ]
            ]
          ]
        ]

    -- A purchase of an order that is found open and is no bounty, at a rate of at most 100 percent that
    -- leaves the seller something, from a bank that moves money, refuses frozen accounts and accepts what
    -- is covered from the others, and whose transfers freeze and thaw nobody, gives a receipt exactly if
    -- the buyer is not the seller and can pay, neither of them is frozen, nor the treasury of the seller's
    -- zone if there is a commission, and the commit succeeds.
    pub fill_order_done :
        (o : Order) (is_frozen : Books → String → Bool)
        → RefusesFrozen bank is_frozen
        → AcceptsOpen bank is_frozen
        → KeepsFrozen bank is_frozen
        → HasFairRate b
        → is_bounty_order b.order_id m ≡ false
        → find_order (is_open_order b.order_id) m.orders ≡ some o
        → 0 < o.price - commission_of b.commission_pct o
        → is_done (fill_order bank claim b m books).2 ≡ (
            not (b.buyer == o.seller)
            && leb o.price (balance books b.buyer)
            && not (is_frozen books b.buyer)
            && not (is_frozen books o.seller)
            && (eqb (commission_of b.commission_pct o) 0
                || not (is_frozen books (zone_treasury (b.zone_of o.seller))))
            && b.commits)
    unfolding fill_order trade pay_seller pay_commission commit received zone commission
    fill_order_done o is_frozen refuses accepts keeps fair plain found some_ =
        let c = commission_of b.commission_pct o in
        let s = o.price - c in
        let z = zone_treasury (b.zone_of o.seller) in
        let le : c ≤ o.price = commission-le b o fair in
        elim (Option-cases (transfer books b.buyer o.seller s)) [
          | inl refused ↦
              ground (
                arith,
                refused,
                refused-why is_frozen accepts books b.buyer o.seller s some_ refused,
              )
          | inr ((tx, b1), done) ↦
              let first = moves books b1 b.buyer o.seller tx b.buyer s done in
              let free = made-free is_frozen refuses books b1 b.buyer o.seller tx s done in
              let same = keeps books b1 b.buyer o.seller tx b.buyer s done in
              let same' = keeps books b1 b.buyer o.seller tx z s done in
              elim (Bool-cases (ltb 0 c)) [
                | inr no_tax ↦ ground (arith, done, free, no_tax)
                | inl tax ↦ elim (Option-cases (transfer b1 b.buyer z c)) [
                  | inl refused ↦ ground (
                    arith,
                    done,
                    first,
                    free,
                    same,
                    same',
                    tax,
                    refused,
                    refused-why is_frozen accepts b1 b.buyer z c (ltb→lt 0 c tax) refused,
                  )
                  | inr ((tx', b2), done') ↦ ground (
                    arith,
                    done,
                    done',
                    free,
                    same',
                    tax,
                    made-free is_frozen refuses b1 b2 b.buyer z tx' c done',
                  )
                ]
              ]
        ]

-- Without a receipt the tables are as they were, whatever the bank does.
pub fill_order-none :
    (bank : Bank) (claim : Purchase → Market → bank.Books → Result bank) (b : Purchase) (m : Market)
    (books : bank.Books)
    → is_bounty_order b.order_id m ≡ false
    → (fill_order bank claim b m books).2 ≡ none
    → (fill_order bank claim b m books).0 ≡ m
unfolding fill_order trade pay_seller pay_commission commit
fill_order-none bank claim b m books plain h =
    elim (Option-cases (find_order (is_open_order b.order_id) m.orders)) [
      | inl missing ↦ ground arith
      | inr (o, found) ↦
          let c = commission_of b.commission_pct o in
          elim (Option-cases (bank.transfer books b.buyer o.seller (o.price - c))) [
            | inl refused ↦ ground arith
            | inr ((tx, b1), done) ↦
                elim (Option-cases
                  (bank.transfer b1 b.buyer (zone_treasury (b.zone_of o.seller)) c)) [
                    | inl refused ↦ ground arith
                    | inr ((tx', b2), done') ↦ ground arith
                  ]
          ]
    ]
