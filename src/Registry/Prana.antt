-- ===== src/Registry/Prana.antt =====
-- The prana on the agents' rows: donations, awards, debits, the treasury, and the metabolic cycle in SQL.
-- The engine that can stand before the table is PranaEngine; here the table is read and written alone.
use agent_city.Prelude.{
  ℕ, ◌+◌, String, Bool, true, false, not, ◌&&◌, ◌||◌, Option, none, some, List, [], ◌∷◌, ◌++◌, leb,
  keep, map, if◌then◌else◌,
}
use agent_city.Prelude.Key.{◌==◌, text_key}
use agent_city.Prelude.Int.{ℤ, pos, ◌+ℤ◌, ◌-ℤ◌, leb_ℤ, ltb_ℤ}
use agent_city.Prelude.Json
use agent_city.Prelude.Json.{Json}
use agent_city.Prelude.Dict.{Dict}
use Prim.Native.String.{◌++◌ as join}
use agent_city.Access.{internal_membrane_snapshot}
use agent_city.Registry.{
  Codec, Registry, Agent, Outcome, returned, value_error, is_living, is_frozen, is_gone,
  status_value, get, set_agent, record_event,
}
use agent_city.Registry.Lifecycle.{revive, freeze}

abbrev pub hibernation_threshold : ℤ
hibernation_threshold = pos 972

abbrev pub add_prana : ℤ → Agent → Agent
add_prana n a = record a { prana = a.prana +ℤ n }

abbrev pub take_prana : ℤ → Agent → Agent
take_prana n a = record a { prana = a.prana -ℤ n }

-- `SELECT prana FROM agents WHERE name = ?` of an agent that is there.
unfoldable pub prana_of : String → Registry → ℤ
prana_of name r = elim (get name r) [ none ↦ pos 0 | some a ↦ a.prana ]

-- A frozen agent that now has more than the threshold is revived.
unfoldable pub revive_if_rich :
    Codec → String → String → Bool → String → String → Registry → Registry × Outcome
revive_if_rich codec now name was_frozen sponsor reason r =
    if was_frozen && ltb_ℤ hibernation_threshold (prana_of name r)
    then revive codec now name (pos 0) sponsor reason ""
        (some (internal_membrane_snapshot "economy")) r
    else (r, returned)

unfoldable pub donate_prana :
    Codec → String → String → String → ℤ → String → Registry → Registry × Outcome
donate_prana codec now donor recipient amount reason r =
    let entry = Json.object (
      Json.field "donor" (Json.text donor) (
        Json.field "amount" (Json.number amount)
          (Json.field "reason" (Json.text reason) Json.end))) in
    elim (get donor r) [
      | none ↦ (r, value_error)
      | some d ↦ elim (get recipient r) [
        | none ↦ (r, value_error)
        | some a ↦
            if not (is_living d.status)
            then (r, value_error)
            else if ltb_ℤ d.prana amount
            then (r, value_error)
            else revive_if_rich codec now recipient (is_frozen a.status) donor
                (join "revive:peer_donation:" donor)
                (record_event codec now recipient "prana_donation" (some (status_value a.status))
                  (status_value a.status) (codec.dumps entry)
                  (set_agent recipient (add_prana amount) (set_agent donor (take_prana amount) r)))
      ]
    ]

abbrev reward_entry : ℤ → String → String → Json
reward_entry amount key by =
    Json.object (Json.field "amount" (Json.number amount) (Json.field key (Json.text by) Json.end))

unfoldable pub award_prana : Codec → String → String → ℤ → String → Registry → Registry × Outcome
award_prana codec now name amount source r =
    if leb_ℤ amount (pos 0) then (r, value_error) else elim (get name r) [
      | none ↦ (r, value_error)
      | some a ↦
          revive_if_rich codec now name (is_frozen a.status) "system"
            (join "revive:engagement_award:" source)
            (record_event codec now name "prana_award" (some (status_value a.status))
              (status_value a.status) (codec.dumps (reward_entry amount "source" source))
              (set_agent name (add_prana amount) r))
    ]

-- `none` is the KeyError of an agent that is not there.
unfoldable pub get_prana : String → Registry → Option ℤ
get_prana name r = elim (get name r) [
  | none ↦ none
  | some a ↦ if is_frozen a.status || is_gone a.status then some (pos 0) else some a.prana
]

-- The credit to the treasury in the bank can fail without any effect here.
unfoldable pub debit_prana : Codec → String → String → ℤ → String → Registry → Registry × Bool
debit_prana codec now name amount reason r =
    if leb_ℤ amount (pos 0) then (r, true) else elim (get name r) [
      | none ↦ (r, false)
      | some a ↦
          if not (is_living a.status)
          then (r, false)
          else if ltb_ℤ a.prana amount
          then (r, false)
          else (
            record_event codec now name "prana_debit" (some (status_value a.status))
                (status_value a.status) (codec.dumps (reward_entry amount "reason" reason))
                (set_agent name (take_prana amount) r),
            true,
          )
    ]

-- `refused` is whether the bank raises at the transfer.
unfoldable pub burn_prana : Codec → String → Bool → ℤ → String → String → Registry → Registry × Bool
burn_prana codec now refused amount reason source r =
    if leb_ℤ amount (pos 0) then (r, true) else if refused then (r, false) else (
      record_event codec now (if source == "" then "SYSTEM_TREASURY" else source) "prana_burn" none
          "burned" (codec.dumps (reward_entry amount "reason" reason)) r,
      true,
    )

unfoldable pub mint_prana :
    Codec → String → Bool → String → ℤ → String → String → Registry → Registry × Bool
mint_prana codec now refused target amount reason category r =
    let entry = Json.object (
      Json.field "amount" (Json.number amount) (
        Json.field "reason" (Json.text reason)
          (Json.field "category" (Json.text category) Json.end))) in
    if leb_ℤ amount (pos 0)
    then (r, true)
    else if refused
    then (r, false)
    else (record_event codec now target "prana_mint" none "minted" (codec.dumps entry) r, true)

-- The costs and the greatest age of a class of agents; no greatest age is none at all.
pub record AgentClass : Type 0 where
  pub metabolic_cost : ℕ
  pub max_age : Option ℕ

-- The agents that a cycle touches.
abbrev pub metabolizes : Agent → Bool
metabolizes a = is_living a.status && a.cell_active

-- One cycle on one row: the costs of the class, and 10 for an agent that was active.
abbrev pub metabolized : (String → AgentClass) → Bool → Agent → Agent
metabolized classes was_active a = record a {
  prana =
      a.prana
      -ℤ pos (classes a.prana_class).metabolic_cost
      +ℤ (if was_active then pos 10 else pos 0);
  cell_cycle = a.cell_cycle + 1;
}

unfoldable pub is_member : String → List String → Bool
is_member name [] = false
is_member name (x ∷ xs) = let rest = is_member name xs in if x == name then true else rest

unfoldable pub metabolize_rows :
    (String → AgentClass) → List String → Dict String Agent → Dict String Agent
metabolize_rows classes busy [] = []
metabolize_rows classes busy ((name, a) ∷ d) =
    let rest = metabolize_rows classes busy d in
    (name, if metabolizes a then metabolized classes (is_member name busy) a else a) ∷ rest

abbrev pub is_exhausted : String × Agent → Bool
is_exhausted p = metabolizes p.1 && leb_ℤ p.1.prana (pos 0)

abbrev pub is_aged : (String → AgentClass) → String × Agent → Bool
is_aged classes p =
    metabolizes p.1
    && elim (classes p.1.prana_class).max_age [ none ↦ false | some n ↦ leb n p.1.cell_cycle ]

-- Each name once, where it comes first.
unfoldable pub first_ones : List String → List String → List String
first_ones seen [] = []
first_ones seen (x ∷ xs) =
    let again = first_ones seen xs in
    let rest = first_ones (x ∷ seen) xs in if is_member x seen then again else x ∷ rest

unfoldable pub freeze_each : Codec → String → List String → Registry → Registry
freeze_each codec now [] r = r
freeze_each codec now (x ∷ xs) r =
    freeze_each codec now xs
      (freeze codec now x "dormant:prana_exhaustion" ""
        (some (internal_membrane_snapshot "metabolism")) r).0

-- The aged agents are listed after the exhausted ones; those of different classes stand here in the order
-- of the table.
unfoldable pub metabolize_all :
    Codec → String → (String → AgentClass) → List String → Registry → Registry × List String
metabolize_all codec now classes busy r =
    let rows = metabolize_rows classes busy r.agents in
    let dead =
      first_ones [] (map (λ p. p.0) (keep is_exhausted rows ++ keep (is_aged classes) rows)) in
    (freeze_each codec now dead (record r { agents = rows }), dead)
