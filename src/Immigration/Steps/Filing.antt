-- ===== src/Immigration/Steps/Filing.antt =====
-- What it takes to put a visa on file so that every lineage still leads to the root.
use agent_city.Prelude.{
  ℕ, ◌≡◌, ◌≢◌, ap, ◌∙◌, String, some, arith, eq_iff, Bool-cases, Option-cases, inl, inr,
}
use mathlib.Core.Path.{subst}
use agent_city.Prelude.Key.{◌==◌, text_key}
use agent_city.Prelude.Dict.{Dict, lookup, replace, lookup-replace}
use agent_city.Visa.{Visa, Digests}
use agent_city.Immigration.{
  Office, VisaRow, visa_row, Application, ApplicationStatus, save_visa, save_application,
  load_application,
}
use agent_city.Immigration.Process.{process}
use agent_city.Immigration.Lineage.Filed.{IsFiled, IsFiled-replace}
use agent_city.Immigration.Lineage.Roots.{Rooted, root_row, deeper_row, IsRooted}

-- Digests are not empty, and none is that of the Mahamantra.
abbrev pub HasIds : Digests → Type 0
HasIds ds =
    (name : String) (t : ℕ) (sponsor : String)
    → (ds.visa_digest name t sponsor ≢ "") × (ds.visa_digest name t sponsor ≢ ds.mahamantra)

module _ (ds : Digests) where
  -- The genesis visa is on file, at depth 0.
  abbrev pub HasGenesis : Dict String VisaRow → Visa → Type 0
  HasGenesis d g =
      (g.visa_id ≢ "") × ((q : VisaRow) × (lookup g.visa_id d ≡ some q) × (q.lineage_depth ≡ 0))

  abbrev pub IsRegistry : Office → Type 0
  IsRegistry s = IsFiled s.visas × IsRooted ds s.visas × HasGenesis s.visas s.genesis_visa

  -- A row takes the place of none, or of one of its depth.
  unfoldable pub Fits : VisaRow → Dict String VisaRow → Type 0
  Fits r d = (q : VisaRow) → lookup r.visa_id d ≡ some q → q.lineage_depth ≡ r.lineage_depth

  Rooted-replace :
      (r x : VisaRow) (d : Dict String VisaRow)
      → Fits r d
      → Rooted ds d x
      → Rooted ds (replace r.visa_id r d) x
  unfolding Fits
  Rooted-replace r x d fits (root_row top depth) = root_row top depth
  Rooted-replace r x d fits (deeper_row q there depth) =
      elim (Bool-cases (r.visa_id == x.sponsor_visa_id)) [
        | inl same ↦ deeper_row r (ground (arith, lookup-replace r.visa_id x.sponsor_visa_id r d)) (
            ground (
              arith,
              fits q (ap (λ k. lookup k d) ((eq_iff r.visa_id x.sponsor_visa_id).0 same) ∙ there),
            ))
        | inr other ↦
            deeper_row q (ground (arith, lookup-replace r.visa_id x.sponsor_visa_id r d)) depth
      ]

  pub IsRegistry-save :
      (v : Visa) (s : Office)
      → v.visa_id ≢ ""
      → v.visa_id ≢ ds.mahamantra
      → Fits (visa_row v) s.visas
      → Rooted ds s.visas (visa_row v)
      → IsRegistry s
      → IsRegistry (save_visa v s)
  unfolding save_visa Fits
  IsRegistry-save v s named apart fits rooted
        (filed, (no_root, all_rooted), (g_named, (q, at_q, depth))) =
      (
        IsFiled-replace (visa_row v) s.visas named filed,
        (
          ground (
            arith,
            lookup-replace v.visa_id ds.mahamantra (visa_row v) s.visas,
            eq_iff v.visa_id ds.mahamantra,
          ),
          λ k r at_k. elim (Bool-cases (v.visa_id == k)) [
            | inl same ↦
                subst (Rooted ds (replace v.visa_id (visa_row v) s.visas))
                  (ground (arith, lookup-replace v.visa_id k (visa_row v) s.visas))
                  (Rooted-replace (visa_row v) (visa_row v) s.visas fits rooted)
            | inr other ↦
                Rooted-replace (visa_row v) r s.visas fits
                  (all_rooted k r (ground (arith, lookup-replace v.visa_id k (visa_row v) s.visas)))
          ],
        ),
        (
          g_named,
          elim (Bool-cases (v.visa_id == s.genesis_visa.visa_id)) [
            | inl same ↦ (
              visa_row v,
              ground (arith, lookup-replace v.visa_id s.genesis_visa.visa_id (visa_row v) s.visas),
              ground (
                arith,
                fits q (
                    ap (λ k. lookup k s.visas) ((eq_iff v.visa_id s.genesis_visa.visa_id).0 same)
                    ∙ at_q),
              ),
            )
            | inr other ↦ (
              q,
              ground (arith, lookup-replace v.visa_id s.genesis_visa.visa_id (visa_row v) s.visas),
              depth,
            )
          ],
        ),
      )

  -- Without a change to the visas.
  pub IsRegistry-same :
      (s s' : Office)
      → s'.visas ≡ s.visas
      → s'.genesis_visa ≡ s.genesis_visa
      → IsRegistry s
      → IsRegistry s'
  IsRegistry-same s s' same_visas same_genesis good = rw same_visas (rw same_genesis good)

  visas-process :
      (expected : ApplicationStatus) (change : Application → Application) (id : String) (s : Office)
      → ((process ds expected change id s).0.visas ≡ s.visas)
        × ((process ds expected change id s).0.genesis_visa ≡ s.genesis_visa)
  unfolding process save_application
  visas-process expected change id s = elim (Option-cases (load_application ds id s)) [
    | inl missing ↦ (ground arith, ground arith)
    | inr (app, loaded) ↦ (ground arith, ground arith)
  ]

  pub process-IsRegistry :
      (expected : ApplicationStatus) (change : Application → Application) (id : String) (s : Office)
      → IsRegistry s
      → IsRegistry (process ds expected change id s).0
  process-IsRegistry expected change id s =
      IsRegistry-same s (process ds expected change id s).0 (visas-process expected change id s).0
        (visas-process expected change id s).1
