-- ===== src/Council/Market.antt =====
-- city/council.py: `apply_marketplace_action`.
use agent_city.Prelude.{
  String, ◌≡◌, ◌⊎◌, inl, inr, Bool, true, false, ◌&&◌, Option, none, some, arith, if◌then◌else◌,
}
use agent_city.Prelude.Key.{◌==◌, text_key}
use agent_city.Prelude.Dict.{Dict, lookup}
use agent_city.Prelude.Int.{ℤ, pos, leb_ℤ, ◌≤ℤ◌}
use agent_city.Prelude.Json.{Json}
use agent_city.Council.{Council, max_commission_percent}

-- What a call does: it returns, or raises `TypeError` where a rate is no number.
pub data Outcome : Type 0 where
  returns : Bool → Council → Outcome
  type_error : Outcome

-- `action.get("rate", 0)` where it is compared with numbers; `True` and `False` count as 1 and 0
as_number : Option Json → Option ℤ
as_number none = some (pos 0)
as_number (some (Json.number n)) = some n
as_number (some (Json.boolean b)) = some (if b then pos 1 else pos 0)
as_number (some _) = none

-- `action.get("type") == name`
is_type : Dict String Json → String → Bool
is_type action name = elim (lookup "type" action) [
  | none ↦ false
  | some j ↦ elim j [ Json.text t ↦ t == name | _ ↦ false ]
]

set_commission : Option ℤ → Council → Outcome
set_commission none c = type_error
set_commission (some rate) c =
    if leb_ℤ (pos 0) rate && leb_ℤ rate (pos max_commission_percent)
    then returns true (record c { commission_override = some rate })
    else returns false c

unfoldable pub apply_marketplace_action : Dict String Json → Council → Outcome
unfolding as_number is_type set_commission
apply_marketplace_action action c =
    if is_type action "set_commission"
    then set_commission (as_number (lookup "rate" action)) c
    else if is_type action "freeze_market"
    then returns true (record c { market_frozen = true })
    else if is_type action "unfreeze_market"
    then returns true (record c { market_frozen = false })
    else returns false c

-- A commission that the council has set lies between 0 and the cap.
abbrev pub IsCapped : Council → Type 0
IsCapped c = (rate : ℤ) → c.commission_override ≡ some rate → (pos 0 ≤ℤ rate) × (rate ≤ℤ pos 18)

module _ (action : Dict String Json) (done : Bool) (c c' : Council) where
  -- Of the council only the commission and the freeze can change, and only where the call succeeds.
  pub market_frame :
      apply_marketplace_action action c ≡ returns done c'
      → (c'.seats ≡ c.seats)
        × (c'.elected_mayor ≡ c.elected_mayor)
        × (c'.proposals ≡ c.proposals)
        × (c'.next_proposal_num ≡ c.next_proposal_num)
        × (done ≡ false → c' ≡ c)
  unfolding apply_marketplace_action
  market_frame h = ground arith

  market_commission :
      apply_marketplace_action action c ≡ returns done c'
      → (rate : ℤ) → c'.commission_override ≡ some rate
      → (c.commission_override ≡ some rate) ⊎ ((pos 0 ≤ℤ rate) × (rate ≤ℤ pos 18))
  unfolding apply_marketplace_action
  market_commission h rate set = ground arith

  pub market-IsCapped :
      apply_marketplace_action action c ≡ returns done c' → IsCapped c → IsCapped c'
  market-IsCapped h capped rate set = elim (market_commission h rate set) [
    | inl old ↦ capped rate old
    | inr fits ↦ fits
  ]
