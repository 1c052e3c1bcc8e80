-- ===== src/Marketplace/Supply.antt =====
-- How much there is of what in the inventories, and what each operation on them does to it.
use agent_city.Prelude.{
  ℕ, ◌+◌, ◌-◌, ◌≤◌, ◌≡◌, String, Bool, true, ◌&&◌, some, List, [], ◌∷◌, ◌++◌, arith, eq_iff,
  Option-cases, inl, inr, if◌then◌else◌,
}
use agent_city.Prelude.Key.{◌==◌, text_key}
use agent_city.Marketplace.{
  Stack, Market, Grant, new_stack, is_stack_of, find_stack, set_quantity, delete_stack, take_from,
  grant_asset, consume_asset, transfer_asset, traded,
}

-- What is counted, by agent, asset type and asset id.
abbrev pub Holding : Type 0
Holding = String → String → String → Bool

-- The units of an asset, whoever owns them; and those of one agent.
abbrev pub of_asset : String → String → Holding
of_asset t i name t' i' = t' == t && i' == i

abbrev pub owned_by : String → String → String → Holding
owned_by a t i name t' i' = name == a && of_asset t i name t' i'

-- The units that are counted in a table, whether they have expired or not.
unfoldable pub amount : Holding → List Stack → ℕ
amount p [] = 0
amount p (s ∷ rows) =
    (if p s.agent_name s.asset_type s.asset_id then s.quantity else 0) + amount p rows

module _ (p : Holding) where
  amount-append :
      (rows : List Stack) (s : Stack)
      → amount p (rows ++ s ∷ [])
        ≡ amount p rows + (if p s.agent_name s.asset_type s.asset_id then s.quantity else 0)
  unfolding amount
  amount-append [] s = ground arith
  amount-append (r ∷ rows) s = ground (arith, amount-append rows s)

  module _ (now : ℕ) (name t i : String) where
    picks :
        (s : Stack)
        → is_stack_of now name t i s ≡ true
        → p s.agent_name s.asset_type s.asset_id ≡ p name t i
    unfolding is_stack_of
    picks s h = ground (arith, eq_iff s.agent_name name, eq_iff s.asset_type t, eq_iff s.asset_id i)

    amount-set_quantity :
        (n : ℕ) (rows : List Stack) (s : Stack)
        → find_stack (is_stack_of now name t i) rows ≡ some s
        → amount p (set_quantity (is_stack_of now name t i) n rows)
            + (if p name t i then s.quantity else 0)
          ≡ amount p rows + (if p name t i then n else 0)
    unfolding amount set_quantity find_stack
    amount-set_quantity n [] s h = cc
    amount-set_quantity n (r ∷ rows) s h = ground (arith, picks r, amount-set_quantity n rows s)

    amount-delete_stack :
        (rows : List Stack) (s : Stack)
        → find_stack (is_stack_of now name t i) rows ≡ some s
        → amount p (delete_stack (is_stack_of now name t i) rows)
            + (if p name t i then s.quantity else 0)
          ≡ amount p rows
    unfolding amount delete_stack find_stack
    amount-delete_stack [] s h = cc
    amount-delete_stack (r ∷ rows) s h = ground (arith, picks r, amount-delete_stack rows s)

    amount-take_from :
        (n : ℕ) (rows : List Stack) (s : Stack)
        → find_stack (is_stack_of now name t i) rows ≡ some s
        → n ≤ s.quantity
        → amount p (take_from (is_stack_of now name t i) s n rows) + (if p name t i then n else 0)
          ≡ amount p rows
    unfolding take_from
    amount-take_from n rows s h le =
        ground (arith, amount-delete_stack rows s h, amount-set_quantity (s.quantity - n) rows s h)

    pub amount-consume :
        (n : ℕ) (m : Market)
        → amount p (consume_asset now name t i n m).0.inventory
            + (if (consume_asset now name t i n m).1 && p name t i then n else 0)
          ≡ amount p m.inventory
    unfolding consume_asset
    amount-consume n m = elim (Option-cases (find_stack (is_stack_of now name t i) m.inventory)) [
      | inl missing ↦ ground arith
      | inr (s, found) ↦ ground (arith, amount-take_from n m.inventory s found)
    ]

  module _ (now : ℕ) (name : String) where
    pub amount-grant :
        (g : Grant) (m : Market)
        → amount p (grant_asset now name g m).0.inventory
          ≡ amount p m.inventory + (if p name g.asset_type g.asset_id then g.quantity else 0)
    unfolding grant_asset
    amount-grant g m =
        elim (Option-cases
          (find_stack (is_stack_of now name g.asset_type g.asset_id) m.inventory)) [
            | inl missing ↦
                ground (arith, amount-append m.inventory (new_stack m.next_stack now name g))
            | inr (s, found) ↦ ground (
              arith,
              amount-set_quantity now name g.asset_type g.asset_id (s.quantity + g.quantity)
                  m.inventory s found,
            )
          ]

  module _ (now : ℕ) (seller buyer t i : String) (n : ℕ) (m : Market) where
    -- A transfer that succeeds takes `n` units from the seller and gives them to the buyer, however
    -- holdings are counted; one that is refused changes nothing.
    pub transfer_moves :
        (amount p (transfer_asset now seller buyer t i n m).0.inventory
            + (if (transfer_asset now seller buyer t i n m).1 && p seller t i then n else 0)
          ≡ amount p m.inventory
            + (if (transfer_asset now seller buyer t i n m).1 && p buyer t i then n else 0))
        × ((transfer_asset now seller buyer t i n m).0 ≡ (
            if (transfer_asset now seller buyer t i n m).1
            then (transfer_asset now seller buyer t i n m).0
            else m))
    unfolding transfer_asset
    transfer_moves = elim (Option-cases (find_stack (is_stack_of now seller t i) m.inventory)) [
      | inl missing ↦ (ground arith, ground arith)
      | inr (s, found) ↦ (
        ground (
          arith,
          amount-take_from now seller t i n m.inventory s found,
          amount-grant now buyer (traded t i n)
              (record m { inventory = take_from (is_stack_of now seller t i) s n m.inventory }),
        ),
        ground arith,
      )
    ]
