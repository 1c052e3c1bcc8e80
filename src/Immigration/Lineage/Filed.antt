-- ===== src/Immigration/Lineage/Filed.antt =====
-- The filing of visas: each row under its own id, and no two under one.
use agent_city.Prelude.{
  ◌≡◌, ◌≢◌, refl, sym, ap, ◌∙◌, String, false, some, [], ◌∷◌, All, arith, eq_iff, Bool-cases,
  Option-cases, inl, inr,
}
use agent_city.Prelude.Key.{◌==◌, text_key}
use agent_city.Prelude.Dict.{Dict, lookup, replace, Unique, All-replace, Unique-replace, All-lookup}
use agent_city.Visa.{Visa, Digests, post_init}
use agent_city.Immigration.{
  VisaRow, visa_row, row_to_visa, latest_visa_of, load_visa_by_id, load_visa_by_agent, Office,
}

-- An entry of the table stands under its id, which is not empty.
abbrev pub Filed : String × VisaRow → Type 0
Filed e = (e.1.visa_id ≡ e.0) × (e.0 ≢ "")

unfoldable pub IsFiled : Dict String VisaRow → Type 0
IsFiled d = Unique d × All Filed d

other_key :
    (k id : String) (r : VisaRow) (d : Dict String VisaRow)
    → All (λ e. id ≢ e.0) d
    → lookup k d ≡ some r
    → (id == k) ≡ false
unfolding lookup
other_key k id r [] h found = ground arith
other_key k id r ((j, q) ∷ d) h found = elim (Bool-cases (j == k)) [
  | inl same ↦ ground (arith, eq_iff j k, eq_iff id k, h.0)
  | inr other ↦ other_key k id r d h.1 (ground arith)
]

-- The latest visa of an agent is found under its id.
pub lookup-latest :
    (name : String) (r : VisaRow) (d : Dict String VisaRow)
    → IsFiled d
    → latest_visa_of name d ≡ some r
    → lookup r.visa_id d ≡ some r
unfolding IsFiled lookup latest_visa_of
lookup-latest name r [] filed h = ground arith
lookup-latest name r ((id, q) ∷ d) filed h = elim (Option-cases (latest_visa_of name d)) [
  | inl nothing ↦ ground (arith, eq_iff id r.visa_id, filed.1.0.0)
  | inr (p, found) ↦
      let there = lookup-latest name p d (filed.0.1, filed.1.1) found in
      ground
        (arith, eq_iff id r.visa_id, filed.1.0.0, there, other_key p.visa_id id p d filed.0.0 there)
]

pub IsFiled-replace :
    (r : VisaRow) (d : Dict String VisaRow)
    → r.visa_id ≢ ""
    → IsFiled d
    → IsFiled (replace r.visa_id r d)
unfolding IsFiled
IsFiled-replace r d named filed =
    (Unique-replace r.visa_id r d filed.0, All-replace Filed r.visa_id r d (refl, named) filed.1)

-- What is loaded of a filed row is the row, with its id.
module _ (ds : Digests) where
  pub row-row_to_visa : (r : VisaRow) → r.visa_id ≢ "" → visa_row (row_to_visa ds r) ≡ r
  unfolding row_to_visa post_init
  row-row_to_visa r named = ground (arith, eq_iff r.visa_id "")

  pub visa-load_by_id :
      (id : String) (v : Visa) (s : Office)
      → IsFiled s.visas
      → load_visa_by_id ds id s ≡ some v
      → (v.visa_id ≡ id) × (lookup id s.visas ≡ some (visa_row v))
  unfolding IsFiled load_visa_by_id
  visa-load_by_id id v s filed h = elim (Option-cases (lookup id s.visas)) [
    | inl missing ↦ absurd (ground arith)
    | inr (r, found) ↦
        let (own, named) = All-lookup Filed id r s.visas filed.1 found in
        let loaded : row_to_visa ds r ≡ v = ground arith in
        let kept : visa_row v ≡ r =
          ap visa_row (sym loaded) ∙ row-row_to_visa r (λ e. named (sym own ∙ e)) in
        (ap (λ q. q.visa_id) kept ∙ own, ground arith)
  ]

  pub visa-load_by_agent :
      (name : String) (v : Visa) (s : Office)
      → IsFiled s.visas
      → load_visa_by_agent ds name s ≡ some v
      → (v.visa_id ≢ "") × (lookup v.visa_id s.visas ≡ some (visa_row v))
  unfolding IsFiled load_visa_by_agent
  visa-load_by_agent name v s filed h = elim (Option-cases (latest_visa_of name s.visas)) [
    | inl missing ↦ absurd (ground arith)
    | inr (r, found) ↦
        let there = lookup-latest name r s.visas filed found in
        let (own, named) = All-lookup Filed r.visa_id r s.visas filed.1 there in
        let loaded : row_to_visa ds r ≡ v = ground arith in
        let kept : visa_row v ≡ r = ap visa_row (sym loaded) ∙ row-row_to_visa r named in
        let same : v.visa_id ≡ r.visa_id = ap (λ q. q.visa_id) kept in
        (λ e. named (sym same ∙ e), ground arith)
  ]
