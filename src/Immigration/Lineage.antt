-- ===== src/Immigration/Lineage.antt =====
-- city/immigration.py: `parampara`, the walk from an agent's visa along the sponsors.
pub mod Filed
pub mod Ends
pub mod Roots
use agent_city.Prelude.{
  ℕ, zero, suc, String, Bool, true, false, ◌||◌, Option, none, some, List, [], ◌∷◌, length,
  if◌then◌else◌,
}
use agent_city.Prelude.Key.{◌==◌, text_key}
use agent_city.Prelude.Dict.{Dict, lookup}
use agent_city.Visa.{Visa, Digests}
use agent_city.Immigration.{Office, VisaRow, row_to_visa, load_visa_by_id, load_visa_by_agent}

-- `visa_id in seen`
unfoldable pub is_seen : String → List String → Bool
is_seen id [] = false
is_seen id (j ∷ seen) = j == id || is_seen id seen

unfoldable pub last : List Visa → Option Visa
last [] = none
last (v ∷ []) = some v
last (v ∷ w ∷ chain) = last (w ∷ chain)

module _ (ds : Digests) where
  -- The loop, from `current`: `none` is the end of the fuel.
  unfoldable pub walk : ℕ → Office → List String → Option Visa → Option (List Visa)
  walk zero s seen current = none
  walk (suc fuel) s seen none = some []
  walk (suc fuel) s seen (some v) =
      let rest = walk fuel s (v.visa_id ∷ seen) (load_visa_by_id ds v.sponsor_visa_id s) in
      if is_seen v.visa_id seen
      then some []
      else if v.sponsor_visa_id == ds.mahamantra
      then some (v ∷ [])
      else elim rest [ none ↦ none | some chain ↦ some (v ∷ chain) ]

  -- As much fuel as there are visas, and two.
  unfoldable pub parampara : String → Office → Option (List Visa)
  unfolding walk
  parampara agent_name s =
      walk (suc (suc (length s.visas))) s [] (load_visa_by_agent ds agent_name s)

  unfoldable pub mahajan_of : String → Office → Option (Option Visa)
  unfolding parampara last
  mahajan_of agent_name s = elim (parampara agent_name s) [
    | none ↦ none
    | some chain ↦ some (last chain)
  ]
