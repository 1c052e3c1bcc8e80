-- ===== src/Bounty/Claimed.antt =====
-- What a claim of a bounty moves.
use mathlib.Core.Path.{subst}
use agent_city.Prelude.{
  ℕ, ◌+◌, ◌≤◌, ◌≡◌, refl, sym, ◌∙◌, String, Bool, true, false, not, ◌&&◌, Option, none, some, eqb,
  ltb, ltb→lt, if◌then◌else◌, arith, Bool-cases, Option-cases, inl, inr,
}
use agent_city.Prelude.Key.{◌==◌, text_key, ==-refl}
use agent_city.Prelude.Int.{pos, ◌+ℤ◌}
use agent_city.Marketplace.{Order, find_order}
use agent_city.Marketplace.Settlement.{Bank, MovesMoney, TakesBack, here, Receipt, reverse_transfer}
use agent_city.Registry.{Codec, Registry, Agent, get, record_event}
use agent_city.Registry.Prana.{prana_of}
use agent_city.Registry.Rows.{prana_of-revive_if_rich, prana_of-added}
use agent_city.Bounty.{
  City, Claim, system_treasury, is_open_bounty, rewarded, settle_claim, claim_entry,
  fill_bounty_order,
}

abbrev pub has_receipt : Option Receipt → Bool
has_receipt none = false
has_receipt (some _) = true

prana_of-recorded :
    (codec : Codec) (now name type : String) (from_status : Option String)
    (to_status details j : String) (r : Registry)
    → prana_of j (record_event codec now name type from_status to_status details r) ≡ prana_of j r
unfolding prana_of get record_event
prana_of-recorded codec now name type from_status to_status details j r = refl

prana_of-rewarded :
    (codec : Codec) (c : Claim) (o : Order) (a : Agent) (r : Registry) (name : String)
    → get c.claimer r ≡ some a
    → prana_of name (rewarded codec c o a r)
      ≡ (if c.claimer == name then prana_of name r +ℤ pos o.price else prana_of name r)
unfolding rewarded
prana_of-rewarded codec c o a r name known =
    prana_of-revive_if_rich codec c.timestamp c.claimer name _ _ _ _
    ∙ prana_of-recorded codec c.timestamp c.claimer _ _ _ _ name _
    ∙ prana_of-added c.claimer name (pos o.price) r a known

module _ (bank : Bank) where
  open bank use {balance}

  -- What the accounts and the agents have, when it is known whether the claim was paid.
  pub record Balanced (claimer : String) (n : ℕ) (account name : String) (city : City bank)
      (p : City bank × Option Receipt) : Type 0 where
    pub in_bank :
        balance p.0.books account
          + (if has_receipt p.1 && (system_treasury == account) then n else 0)
        ≡ balance city.books account + (if has_receipt p.1 && (claimer == account) then n else 0)
    pub on_row : prana_of name p.0.registry ≡ (
        if has_receipt p.1 && (claimer == name)
        then prana_of name city.registry +ℤ pos n
        else prana_of name city.registry)

module _ (bank : Bank) (moves : MovesMoney bank) (back : TakesBack bank) where
  open bank use {Books, balance, transfer}

  -- A payment to the claimer that is taken back leaves every account as it was.
  taken_back :
      (claimer tx account : String) (n : ℕ) (b b' : Books)
      → (system_treasury == claimer) ≡ false
      → transfer b system_treasury claimer n ≡ some (tx, b')
      → balance (reverse_transfer bank claimer system_treasury n b') account ≡ balance b account
  unfolding reverse_transfer
  taken_back claimer tx account n b b' other paid =
      elim (Option-cases (transfer b' claimer system_treasury n)) [
        | inl refused ↦
            let covered : n ≤ balance b' claimer = ground (
              arith,
              moves b b' system_treasury claimer tx claimer n paid,
              other,
              ==-refl claimer,
            ) in
            elim (Bool-cases (ltb 0 n)) [
              | inl some_ ↦ absurd (
                  back b b' b' system_treasury claimer tx n paid here (ltb→lt 0 n some_) covered
                    refused)
              | inr nothing ↦
                  ground (arith, moves b b' system_treasury claimer tx account n paid, nothing)
            ]
        | inr ((tx', b2), returned) ↦ ground (
          arith,
          returned,
          moves b b' system_treasury claimer tx account n paid,
          moves b' b2 claimer system_treasury tx' account n returned,
        )
      ]

  settle_claim-Balanced :
      (codec : Codec) (c : Claim) (o : Order) (a : Agent) (tx : String) (paid : Books)
      (city : City bank) (account name : String)
      → (system_treasury == c.claimer) ≡ false
      → get c.claimer city.registry ≡ some a
      → transfer city.books system_treasury c.claimer o.price ≡ some (tx, paid)
      → Balanced bank c.claimer o.price account name city
          (settle_claim bank codec c o a tx paid city)
  unfolding settle_claim rewarded claim_entry
  settle_claim-Balanced codec c o a tx paid city account name other known moved =
      elim (Bool-cases c.commits) [
        | inl commits ↦ rw commits (record {
          in_bank =
              ground
                (arith, moves city.books paid system_treasury c.claimer tx account o.price moved);
          on_row = prana_of-rewarded codec c o a city.registry name known;
        })
        | inr fails ↦ rw fails (record {
          in_bank =
              ground (arith, taken_back c.claimer tx account o.price city.books paid other moved);
          on_row = refl;
        })
      ]

  unpaid-Balanced :
      (claimer : String) (n : ℕ) (account name : String) (city : City bank)
      → Balanced bank claimer n account name city (city, none)
  unpaid-Balanced claimer n account name city = record { in_bank = refl; on_row = refl }

  fill-Balanced :
      (codec : Codec) (c : Claim) (city : City bank) (o : Order) (a : Agent) (account name : String)
      → (system_treasury == c.claimer) ≡ false
      → find_order (is_open_bounty c.order_id) city.market.orders ≡ some o
      → get c.claimer city.registry ≡ some a
      → Balanced bank c.claimer o.price account name city (fill_bounty_order bank codec c city)
  unfolding fill_bounty_order
  fill-Balanced codec c city o a account name other found known =
      let unpaid = unpaid-Balanced c.claimer o.price account name city in
      elim (Option-cases (transfer city.books system_treasury c.claimer o.price)) [
        | inl refused ↦
            let e : fill_bounty_order bank codec c city ≡ (city, none) =
              ground (arith, found, known, refused) in
            subst (Balanced bank c.claimer o.price account name city) (sym e) unpaid
        | inr ((tx, paid), moved) ↦ elim (Bool-cases (eqb o.price 0)) [
          | inl worthless ↦
              let e : fill_bounty_order bank codec c city ≡ (city, none) =
                ground (arith, found, known, worthless) in
              subst (Balanced bank c.claimer o.price account name city) (sym e) unpaid
          | inr worth ↦
              let e : fill_bounty_order bank codec c city
                  ≡ settle_claim bank codec c o a tx paid city =
                ground (arith, found, known, worth, moved) in
              subst (Balanced bank c.claimer o.price account name city) (sym e)
                (settle_claim-Balanced codec c o a tx paid city account name other known moved)
        ]
      ]

  -- A claim of an open bounty by an agent of the registry that is not the treasury, with a bank that moves
  -- money and lets a transfer that it made be taken back: it gives a receipt exactly if the reward is not
  -- nothing, the bank transfers it from the treasury and SQLite commits. With a receipt the reward has gone
  -- from the treasury's account to the claimer's, and the prana on the claimer's row is greater by it too;
  -- every other account and row has what it had. Without a receipt all accounts and rows do.
  pub fill_bounty_order-Balanced :
      (codec : Codec) (c : Claim) (city : City bank) (o : Order) (a : Agent) (account name : String)
      → (system_treasury == c.claimer) ≡ false
      → find_order (is_open_bounty c.order_id) city.market.orders ≡ some o
      → get c.claimer city.registry ≡ some a
      → (has_receipt (fill_bounty_order bank codec c city).1
          ≡ not (eqb o.price 0)
            && elim (transfer city.books system_treasury c.claimer o.price) [
              | none ↦ false
              | some _ ↦ true
            ]
            && c.commits)
        × Balanced bank c.claimer o.price account name city (fill_bounty_order bank codec c city)
  unfolding fill_bounty_order settle_claim
  fill_bounty_order-Balanced codec c city o a account name other found known =
      (ground (arith, found, known), fill-Balanced codec c city o a account name other found known)
