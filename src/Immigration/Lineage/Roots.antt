-- ===== src/Immigration/Lineage/Roots.antt =====
-- Where the lineage of a visa leads: to a visa of depth 0, in as many steps as its depth.
use agent_city.Prelude.{
  ℕ, zero, suc, ◌<◌, ◌≡◌, refl, sym, ap, ◌∙◌, String, true, false, none, some, List, [], ◌∷◌,
  length, arith, eq_iff, Bool-cases, Option-cases, inl, inr,
}
use mathlib.Core.Path.{subst}
use agent_city.Prelude.Key.{◌==◌, text_key}
use agent_city.Prelude.Dict.{Dict, lookup, Every}
use agent_city.Visa.{Visa, Digests}
use agent_city.Immigration.{Office, VisaRow, visa_row, load_visa_by_id, load_visa_by_agent}
use agent_city.Immigration.Lineage.{is_seen, walk, parampara, mahajan_of, last}
use agent_city.Immigration.Lineage.Filed.{IsFiled, visa-load_by_id, visa-load_by_agent}
use agent_city.Immigration.Lineage.Ends.{parampara-ends}

module _ (ds : Digests) where
  -- A row is the root, or one deeper than the row of its sponsor.
  pub data Rooted (d : Dict String VisaRow) (r : VisaRow) : Type 0 where
    root_row : r.sponsor_visa_id ≡ ds.mahamantra → r.lineage_depth ≡ 0 → Rooted d r
    deeper_row :
        (q : VisaRow)
        → lookup r.sponsor_visa_id d ≡ some q
        → r.lineage_depth ≡ suc q.lineage_depth
        → Rooted d r

  abbrev pub IsRooted : Dict String VisaRow → Type 0
  IsRooted d = (lookup ds.mahamantra d ≡ none) × Every (λ id r. Rooted d r) d

  -- A line of visas, each with the id of the next as its sponsor's, down to the root.
  pub data Line : Visa → List Visa → Type 0 where
    root : {v : Visa} → v.sponsor_visa_id ≡ ds.mahamantra → v.lineage_depth ≡ 0 → Line v (v ∷ [])
    link :
        {v w : Visa} {chain : List Visa}
        → v.sponsor_visa_id ≡ w.visa_id
        → v.lineage_depth ≡ suc w.lineage_depth
        → Line w chain
        → Line v (v ∷ chain)

  pub Line-length :
      {v : Visa} {chain : List Visa} → Line v chain → length chain ≡ suc v.lineage_depth
  Line-length (root top depth) = ground arith
  Line-length (link step depth line) = ground (arith, Line-length line)

  pub Line-last :
      {v : Visa} {chain : List Visa}
      → Line v chain
      → (g : Visa) × (last chain ≡ some g)
        × (g.sponsor_visa_id ≡ ds.mahamantra)
        × (g.lineage_depth ≡ 0)
  unfolding last
  Line-last {v} (root top depth) = (v, refl, top, depth)
  Line-last (link step depth (root {v = w} top depth')) = (w, refl, top, depth')
  Line-last (link step depth (link step' depth' line)) = Line-last (link step' depth' line)

  module _ (s : Office) (filed : IsFiled s.visas) (rooted : IsRooted s.visas) where
    -- What has been seen is deeper than `n`.
    Above : ℕ → List String → Type 0
    Above n seen =
        (j : String) (q : VisaRow)
        → is_seen j seen ≡ true
        → lookup j s.visas ≡ some q
        → n < q.lineage_depth

    NextIsLine : ℕ → Type 0
    NextIsLine fuel =
        (seen : List String) (v : Visa) (chain : List Visa)
        → lookup v.visa_id s.visas ≡ some (visa_row v)
        → Above v.lineage_depth seen
        → walk ds fuel s seen (some v) ≡ some chain
        → Line v chain

    -- One turn of the loop, at a visa that is not the root.
    step_below :
        (fuel : ℕ) (seen : List String) (v : Visa) (chain : List Visa) (q : VisaRow)
        → NextIsLine fuel
        → lookup v.visa_id s.visas ≡ some (visa_row v)
        → Above v.lineage_depth seen
        → is_seen v.visa_id seen ≡ false
        → (v.sponsor_visa_id == ds.mahamantra) ≡ false
        → lookup v.sponsor_visa_id s.visas ≡ some q
        → v.lineage_depth ≡ suc q.lineage_depth
        → walk ds (suc fuel) s seen (some v) ≡ some chain
        → Line v chain
    unfolding walk Above NextIsLine is_seen load_visa_by_id
    step_below fuel seen v chain q next there above new below found depth h =
        let id = v.sponsor_visa_id in
        elim (Option-cases (load_visa_by_id ds id s)) [
          | inl missing ↦ absurd (ground arith)
          | inr (w, loaded) ↦
              let (own, kept) = visa-load_by_id ds id w s filed loaded in
              let deeper : v.lineage_depth ≡ suc w.lineage_depth = ground (arith, kept, found) in
              elim (Option-cases (walk ds fuel s (v.visa_id ∷ seen) (load_visa_by_id ds id s))) [
                | inl lost ↦ absurd (ground arith)
                | inr (rest, walked) ↦
                    let line =
                      next (v.visa_id ∷ seen) w rest (ap (λ k. lookup k s.visas) own ∙ kept)
                        (λ j p seen_j at_j. elim (Bool-cases (v.visa_id == j)) [
                          | inl same ↦ ground (
                            arith,
                            there,
                            at_j,
                            ap (λ k. lookup k s.visas) ((eq_iff v.visa_id j).0 same),
                          )
                          | inr other ↦ ground (arith, above j p (ground arith) at_j)
                        ])
                        (ap (walk ds fuel s (v.visa_id ∷ seen)) (sym loaded) ∙ walked) in
                    subst (Line v) (ground arith) (link (sym own) deeper line)
              ]
        ]

    walk-Line :
        (fuel : ℕ) (seen : List String) (v : Visa) (chain : List Visa)
        → lookup v.visa_id s.visas ≡ some (visa_row v)
        → Above v.lineage_depth seen
        → walk ds fuel s seen (some v) ≡ some chain
        → Line v chain
    unfolding walk Above NextIsLine
    walk-Line zero seen v chain there above h = absurd (ground arith)
    walk-Line (suc fuel) seen v chain there above h = elim (Bool-cases (is_seen v.visa_id seen)) [
      | inl again ↦ absurd (ground (arith, above v.visa_id (visa_row v) again there))
      | inr new ↦ elim (rooted.1 v.visa_id (visa_row v) there) [
        | root_row top depth ↦ elim (Bool-cases (v.sponsor_visa_id == ds.mahamantra)) [
          | inl same ↦ subst (Line v) (ground arith) (root top depth)
          | inr other ↦ absurd (ground (arith, eq_iff v.sponsor_visa_id ds.mahamantra))
        ]
        | deeper_row q found depth ↦ elim (Bool-cases (v.sponsor_visa_id == ds.mahamantra)) [
          | inl top ↦ absurd (
              ground (
                arith,
                rooted.0,
                ap (λ k. lookup k s.visas) ((eq_iff v.sponsor_visa_id ds.mahamantra).0 top),
              ))
          | inr below ↦
              step_below fuel seen v chain q (walk-Line fuel) there above new below found depth h
        ]
      ]
    ]

    -- In a table of filed and rooted visas, the lineage of an agent that has a visa is a line from that
    -- visa to the root, of as many visas as its depth and one; and what is returned as the founder of
    -- every agent is the root, of depth 0.
    pub parampara-Line :
        (agent_name : String) (v : Visa)
        → load_visa_by_agent ds agent_name s ≡ some v
        → (chain : List Visa) × (parampara ds agent_name s ≡ some chain)
          × Line v chain
          × (length chain ≡ suc v.lineage_depth)
          × ((g : Visa) × (mahajan_of ds agent_name s ≡ some (some g))
              × (g.sponsor_visa_id ≡ ds.mahamantra)
              × (g.lineage_depth ≡ 0))
    unfolding parampara mahajan_of Above is_seen
    parampara-Line agent_name v loaded = elim (Option-cases (parampara ds agent_name s)) [
      | inl lost ↦ absurd (parampara-ends ds s filed agent_name lost)
      | inr (chain, found) ↦
          let (named, there) = visa-load_by_agent ds agent_name v s filed loaded in
          let walked : walk ds (suc (suc (length s.visas))) s [] (some v) ≡ some chain =
            ap (walk ds (suc (suc (length s.visas))) s []) (sym loaded) ∙ found in
          let line : Line v chain =
            walk-Line (suc (suc (length s.visas))) [] v chain there
              (λ j q seen_j at_j. ground arith) walked in
          let (g, at_end, top, zero_depth) = Line-last line in
          (chain, found, line, Line-length line, (g, ground (arith, at_end), top, zero_depth))
    ]
