-- ===== src/Marketplace/Settlement/Payments.antt =====
-- The payments of a trade, made and reversed: what they leave in every account.
use agent_city.Prelude.{
  ℕ, ◌+◌, ◌-◌, ◌≤◌, ◌<◌, ◌≡◌, ◌≢◌, eqb, String, false, none, some, ltb, if◌then◌else◌, arith,
  eq_iff, Bool-cases, Option-cases, inl, inr,
}
use native.Mathlib.Nat.{mul-le-mul_left}
use agent_city.Prelude.Key.{◌==◌, text_key, ==-refl}
use agent_city.Marketplace.{Market, Order}
use agent_city.Marketplace.Settlement.{
  Bank, MovesMoney, After, here, next, TakesBack, Purchase, Receipt, commission_of, effective_rate,
  zone_treasury, settle, receipt, reverse_transfer, commit, pay_commission,
}

-- The rate that a purchase names, or the default, is at most 100 percent.
abbrev pub HasFairRate : Purchase → Type 0
HasFairRate b = effective_rate b.commission_pct ≤ 100

pub commission-le :
    (b : Purchase) (o : Order) → HasFairRate b → commission_of b.commission_pct o ≤ o.price
unfolding commission_of
commission-le b o fair = omega (arith, mul-le-mul_left o.price fair)

-- The books after money went from one account to another.
unfoldable pub Moved : (bank : Bank) → String → String → ℕ → bank.Books → bank.Books → Type 0
Moved bank sender recipient n b b' =
    (account : String)
    → bank.balance b' account + (if sender == account then n else 0)
      ≡ bank.balance b account + (if recipient == account then n else 0)

module _ (bank : Bank) (moves : MovesMoney bank) where
  open bank use {Books, balance, transfer}

  -- Reversing a transfer that was made takes it back, where the bank lets it.
  reverse-Moved :
      (sender recipient : String) (n : ℕ) (b : Books)
      → (0 < n → transfer b sender recipient n ≢ none)
      → Moved bank sender recipient n b (reverse_transfer bank sender recipient n b)
  unfolding reverse_transfer Moved
  reverse-Moved sender recipient n b able account =
      elim (Option-cases (transfer b sender recipient n)) [
        | inl refused ↦ ground (arith, refused, able)
        | inr ((tx, b'), done) ↦ ground (arith, moves b b' sender recipient tx account n done)
      ]

  After-reverse :
      (b0 b : Books) (sender recipient : String) (n : ℕ)
      → After bank b0 b
      → After bank b0 (reverse_transfer bank sender recipient n b)
  unfolding reverse_transfer
  After-reverse b0 b sender recipient n before = elim (Bool-cases (eqb n 0)) [
    | inl nothing ↦ rw nothing before
    | inr something ↦ rw something (elim (Option-cases (transfer b sender recipient n)) [
      | inl refused ↦ rw refused before
      | inr ((tx, b'), done) ↦ rw done (next sender recipient tx n before done)
    ])
  ]

-- The buyer has paid the price: the seller has got it less the commission, and the zone the commission.
unfoldable pub Paid :
    (bank : Bank) → String → String → String → ℕ → ℕ → bank.Books → bank.Books → Type 0
Paid bank buyer seller zone received commission b b' =
    (account : String)
    → bank.balance b' account + (if buyer == account then received + commission else 0)
      ≡ bank.balance b account
        + (if seller == account then received else 0)
        + (if zone == account then commission else 0)

-- No account has changed.
unfoldable pub Kept : (bank : Bank) → bank.Books → bank.Books → Type 0
Kept bank b b' = (account : String) → bank.balance b' account ≡ bank.balance b account

module _ (bank : Bank) (moves : MovesMoney bank) (b : Purchase) (o : Order) (m : Market) where
  open bank use {Books, balance, transfer}

  unfoldable pub commission : ℕ
  commission = commission_of b.commission_pct o

  unfoldable pub zone : String
  zone = zone_treasury (b.zone_of o.seller)

  unfoldable pub received : ℕ
  received = o.price - commission

  pub pay_commission-success :
      (tx : String) (b0 b1 : Books) (r : Receipt)
      → Moved bank b.buyer o.seller received b0 b1
      → (pay_commission bank b o tx m b1).2 ≡ some r
      → ((pay_commission bank b o tx m b1).0 ≡ settle b o tx m)
        × (r ≡ receipt bank b o tx)
        × Paid bank b.buyer o.seller zone received commission b0 (pay_commission bank b o tx m b1).1
  unfolding pay_commission commit Moved Paid received zone commission
  pay_commission-success tx b0 b1 r moved h =
      elim (Option-cases (transfer b1 b.buyer zone commission)) [
        | inl refused ↦ (ground arith, ground arith, λ account. ground (arith, moved account))
        | inr ((tx', b2), done) ↦ (
          ground arith,
          ground arith,
          λ account.
              ground (arith, moved account, moves b1 b2 b.buyer zone tx' account commission done),
        )
      ]

  module _ (back : TakesBack bank) (b0 : Books) (rich : o.price ≤ balance b0 b.buyer)
      (le : commission ≤ o.price) (others : (b.buyer == o.seller) ≡ false) where
    -- Both transfers reversed, where the bank lets them.
    undo-Kept :
        (b2 : Books)
        → Paid bank b.buyer o.seller zone received commission b0 b2
        → (0 < commission
            → commission ≤ balance b2 zone
            → transfer b2 zone b.buyer commission ≢ none)
        → (let b3 = reverse_transfer bank zone b.buyer commission b2 in
            0 < received
            → received ≤ balance b3 o.seller
            → transfer b3 o.seller b.buyer received ≢ none)
        → Kept bank b0 (
            reverse_transfer bank o.seller b.buyer received
              (reverse_transfer bank zone b.buyer commission b2))
    unfolding Paid Kept Moved received
    undo-Kept b2 paid able able' account =
        let b3 = reverse_transfer bank zone b.buyer commission b2 in
        let covered : commission ≤ balance b2 zone =
          ground (arith, eq_iff b.buyer zone, ==-refl zone, paid zone) in
        let returned =
          reverse-Moved bank moves zone b.buyer commission b2 (λ some_. able some_ covered) in
        let covered' : received ≤ balance b3 o.seller =
          ground (arith, ==-refl o.seller, paid o.seller, returned o.seller) in
        ground (
          arith,
          paid account,
          returned account,
          reverse-Moved bank moves o.seller b.buyer received b3 (λ some_. able' some_ covered')
              account,
        )

    -- The transfer to the seller reversed.
    undo_one-Kept :
        (tx : String) (b1 : Books)
        → transfer b0 b.buyer o.seller received ≡ some (tx, b1)
        → Moved bank b.buyer o.seller received b0 b1
        → Kept bank b0 (reverse_transfer bank o.seller b.buyer received b1)
    unfolding Kept Moved received
    undo_one-Kept tx b1 sent moved account =
        let covered : received ≤ balance b1 o.seller =
          ground (arith, ==-refl o.seller, moved o.seller) in
        ground (
          arith,
          moved account,
          reverse-Moved bank moves o.seller b.buyer received b1
              (λ some_. back b0 b1 b1 b.buyer o.seller tx received sent here some_ covered) account,
        )

    commit-failure :
        (tx : String) (b1 b2 : Books)
        → transfer b0 b.buyer o.seller received ≡ some (tx, b1)
        → After bank b1 b2
        → Paid bank b.buyer o.seller zone received commission b0 b2
        → (0 < commission
            → commission ≤ balance b2 zone
            → transfer b2 zone b.buyer commission ≢ none)
        → (commit bank b o tx m b2).2 ≡ none
        → ((commit bank b o tx m b2).0 ≡ m) × Kept bank b0 (commit bank b o tx m b2).1
    unfolding commit Kept received zone commission
    commit-failure tx b1 b2 sent later paid able h =
        let later' = After-reverse bank moves b1 b2 zone b.buyer commission later in
        let undone =
          undo-Kept b2 paid able (λ some_ covered.
            back b0 b1 _ b.buyer o.seller tx received sent later' some_ covered) in
        (ground arith, λ account. ground (arith, undone account))

    pub pay_commission-failure :
        (tx : String) (b1 : Books)
        → transfer b0 b.buyer o.seller received ≡ some (tx, b1)
        → Moved bank b.buyer o.seller received b0 b1
        → (pay_commission bank b o tx m b1).2 ≡ none
        → ((pay_commission bank b o tx m b1).0 ≡ m)
          × Kept bank b0 (pay_commission bank b o tx m b1).1
    unfolding pay_commission Moved Paid Kept received zone commission
    pay_commission-failure tx b1 sent moved h = elim (Bool-cases (ltb 0 commission)) [
      | inl some_tax ↦ elim (Option-cases (transfer b1 b.buyer zone commission)) [
        | inl refused ↦
            (ground arith, λ account. ground (arith, undo_one-Kept tx b1 sent moved account))
        | inr ((tx', b2), done) ↦
            let paid : Paid bank b.buyer o.seller zone received commission b0 b2 =
              λ a. ground (arith, moved a, moves b1 b2 b.buyer zone tx' a commission done) in
            let fails : (commit bank b o tx m b2).2 ≡ none = ground arith in
            let (same, kept) =
              commit-failure tx b1 b2 sent (next b.buyer zone tx' commission here done) paid
                (back b1 b2 b2 b.buyer zone tx' commission done here) fails in
            (ground arith, λ account. ground (arith, kept account))
      ]
      | inr no_tax ↦
          let paid : Paid bank b.buyer o.seller zone received commission b0 b1 =
            λ a. ground (arith, moved a) in
          let fails : (commit bank b o tx m b1).2 ≡ none = ground arith in
          let none_due : 0 < commission
              → commission ≤ balance b1 zone
              → transfer b1 zone b.buyer commission ≢ none =
            λ due _. absurd (ground (arith, due, no_tax)) in
          let (same, kept) = commit-failure tx b1 b1 sent here paid none_due fails in
          (ground arith, λ account. ground (arith, kept account))
    ]
