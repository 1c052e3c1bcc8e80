-- ===== src/Immigration/Lineage/Ends.antt =====
-- The walk along the sponsors ends, on whatever table, by its guard against cycles.
use agent_city.Prelude.{
  ℕ, zero, suc, ◌+◌, ◌≤◌, ◌<◌, ◌≡◌, ◌≢◌, refl, ap, String, false, Option, none, some, List, [], ◌∷◌,
  length, arith, eq_iff, if◌then◌else◌, Bool-cases, Option-cases, inl, inr,
}
use agent_city.Prelude.Key.{◌==◌, text_key}
use agent_city.Prelude.Dict.{Dict, lookup}
use agent_city.Visa.{Visa, Digests}
use agent_city.Immigration.{Office, VisaRow, load_visa_by_id, load_visa_by_agent}
use agent_city.Immigration.Lineage.{is_seen, walk, parampara}
use agent_city.Immigration.Lineage.Filed.{IsFiled, visa-load_by_id, visa-load_by_agent}

-- The entries whose id the walk has not seen.
unseen : List String → Dict String VisaRow → ℕ
unseen seen [] = 0
unseen seen ((id, r) ∷ d) = (if is_seen id seen then 0 else 1) + unseen seen d

unseen-le : (seen : List String) (d : Dict String VisaRow) → unseen seen d ≤ length d
unfolding unseen
unseen-le seen [] = omega arith
unseen-le seen ((id, r) ∷ d) = ground (arith, unseen-le seen d)

unseen-more :
    (k : String) (seen : List String) (d : Dict String VisaRow)
    → unseen (k ∷ seen) d ≤ unseen seen d
unfolding unseen is_seen
unseen-more k seen [] = omega arith
unseen-more k seen ((id, r) ∷ d) = ground (arith, unseen-more k seen d)

-- Seeing an id of the table for the first time leaves fewer.
unseen-drop :
    (k : String) (q : VisaRow) (seen : List String) (d : Dict String VisaRow)
    → lookup k d ≡ some q
    → is_seen k seen ≡ false
    → unseen (k ∷ seen) d < unseen seen d
unfolding unseen is_seen lookup
unseen-drop k q seen [] found new = ground arith
unseen-drop k q seen ((id, r) ∷ d) found new = elim (Bool-cases (id == k)) [
  | inl same ↦ ground (
    arith,
    eq_iff id k,
    eq_iff k id,
    ap (λ j. is_seen j seen) ((eq_iff id k).0 same),
    unseen-more k seen d,
  )
  | inr other ↦ ground (arith, unseen-drop k q seen d (ground arith) new, eq_iff k id, eq_iff id k)
]

module _ (ds : Digests) (s : Office) (filed : IsFiled s.visas) where
  -- The visa at which the walk stands is one of the table.
  Listed : Option Visa → Type 0
  Listed current = (v : Visa) → current ≡ some v → lookup v.visa_id s.visas ≢ none

  walk-ends :
      (fuel : ℕ) (seen : List String) (current : Option Visa)
      → Listed current
      → unseen seen s.visas < fuel
      → walk ds fuel s seen current ≢ none
  unfolding walk Listed
  walk-ends zero seen current listed h = λ e. ground arith
  walk-ends (suc fuel) seen none listed h = λ e. ground arith
  walk-ends (suc fuel) seen (some v) listed h = elim (Bool-cases (is_seen v.visa_id seen)) [
    | inl again ↦ λ e. ground arith
    | inr new ↦ elim (Option-cases (lookup v.visa_id s.visas)) [
      | inl missing ↦ absurd (listed v refl missing)
      | inr (q, found) ↦
          let rest =
            walk-ends fuel (v.visa_id ∷ seen) (load_visa_by_id ds v.sponsor_visa_id s)
              (λ w loaded missing.
                let (own, there) = visa-load_by_id ds v.sponsor_visa_id w s filed loaded in
                ground (arith, ap (λ k. lookup k s.visas) own))
              (ground (arith, unseen-drop v.visa_id q seen s.visas found new)) in
          λ e. ground (arith, rest)
    ]
  ]

  -- On every table of visas whose rows stand under their own ids, none empty and no two under one,
  -- with whatever cycles, the walk of `parampara` ends within as many turns as there are visas, and
  -- two.
  pub parampara-ends : (agent_name : String) → parampara ds agent_name s ≢ none
  unfolding parampara Listed
  parampara-ends agent_name =
      walk-ends (suc (suc (length s.visas))) [] (load_visa_by_agent ds agent_name s)
        (λ v loaded missing.
          let (named, there) = visa-load_by_agent ds agent_name v s filed loaded in ground arith)
        (ground (arith, unseen-le [] s.visas))
