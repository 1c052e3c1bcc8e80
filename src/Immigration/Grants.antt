-- ===== src/Immigration/Grants.antt =====
-- What the grant of citizenship and its revocation leave on file.
use agent_city.Prelude.{
  ℕ, ◌+◌, ◌≡◌, ◌≢◌, refl, sym, ap, ◌∙◌, String, none, some, arith, eq_iff, Option-cases, inl, inr,
}
use agent_city.Prelude.Key.{text_key, ==-refl}
use agent_city.Prelude.Dict.{lookup-replace}
use agent_city.Visa.{Visa, Digests, issue_visa, restrictions_of, post_init}
use agent_city.Immigration.{
  Office, Application, council_approved, citizenship_granted, place, visa_row, application_row,
  save_visa, save_application, load_application, load_visa_by_id, load_visa_by_agent, row_to_visa,
  row_to_application,
}
use agent_city.Immigration.Process.{grant_citizenship, citizen_visa, sponsorship}

module _ (ds : Digests) where
  -- What was saved of a visa that has an id and the restrictions of its class is loaded as it was.
  load-save_visa :
      (v : Visa) (s : Office)
      → v.visa_id ≢ ""
      → v.restrictions ≡ restrictions_of v.visa_class
      → load_visa_by_id ds v.visa_id (save_visa v s) ≡ some v
  unfolding load_visa_by_id row_to_visa save_visa post_init
  load-save_visa v s named standard = ground (
    arith,
    lookup-replace v.visa_id v.visa_id (visa_row v) s.visas,
    ==-refl v.visa_id,
    eq_iff v.visa_id "",
  )

  -- An application is loaded as it was saved, with the visa that its id now stands for.
  load-save_application :
      (app : Application) (v : Visa) (s : Office)
      → v.visa_id ≢ ""
      → load_visa_by_id ds v.visa_id s ≡ some v
      → load_application ds app.application_id
          (save_application (record app { issued_visa = some v }) s)
        ≡ some (record app { issued_visa = some v })
  unfolding load_application row_to_application save_application
  load-save_application app v s named there = ground (
    arith,
    lookup-replace app.application_id app.application_id
        (application_row (record app { issued_visa = some v })) s.applications,
    ==-refl app.application_id,
    eq_iff v.visa_id "",
  )

  visas-save_application :
      (id : String) (app : Application) (s : Office)
      → load_visa_by_id ds id (save_application app s) ≡ load_visa_by_id ds id s
  unfolding load_visa_by_id save_application
  visas-save_application id app s = refl

  module _ (now : ℕ) (app_id sponsor : String) (app : Application) (s : Office) where
    visa : Visa
    visa = citizen_visa ds now app_id sponsor app s

    citizen_visa_lem :
        ((name : String) (t : ℕ) (by : String) → ds.visa_digest name t by ≢ "")
        → (visa.visa_id ≢ "")
          × (visa.restrictions ≡ restrictions_of visa.visa_class)
          × (visa.agent_name ≡ app.agent_name)
          × (visa.visa_class ≡ app.requested_visa_class)
          × (visa.lineage_depth
              ≡ elim (load_visa_by_agent ds sponsor s) [ none ↦ 1 | some w ↦ w.lineage_depth + 1 ])
    unfolding visa citizen_visa sponsorship issue_visa post_init
    citizen_visa_lem ids = elim (Option-cases (load_visa_by_agent ds sponsor s)) [
      | inl missing ↦
          let named = ids app.agent_name now "city_genesis" in
          (λ e. ground (arith, named), ground arith, ground arith, ground arith, ground arith)
      | inr (w, there) ↦
          let named = ids app.agent_name now sponsor in
          (λ e. ground (arith, named), ground arith, ground arith, ground arith, ground arith)
    ]

  -- A grant on an application that the council approved returns a visa for its agent, of the class
  -- that was asked for, one deeper than the sponsor's visa where the sponsor has one and of depth 1
  -- where not; afterwards that visa is loaded by its id, and the application is loaded as granted,
  -- with that visa. Digests are not empty.
  pub grant_citizenship_lem :
      (now : ℕ) (app_id sponsor : String) (app : Application) (s : Office)
      → ((name : String) (t : ℕ) (by : String) → ds.visa_digest name t by ≢ "")
      → load_application ds app_id s ≡ some app
      → app.status ≡ council_approved
      → (v : Visa) × ((grant_citizenship ds now app_id sponsor s).1 ≡ some v)
        × (v.agent_name ≡ app.agent_name)
        × (v.visa_class ≡ app.requested_visa_class)
        × (v.lineage_depth
            ≡ elim (load_visa_by_agent ds sponsor s) [ none ↦ 1 | some w ↦ w.lineage_depth + 1 ])
        × (load_visa_by_id ds v.visa_id (grant_citizenship ds now app_id sponsor s).0 ≡ some v)
        × (load_application ds app.application_id (grant_citizenship ds now app_id sponsor s).0
            ≡ some (record app { status = citizenship_granted; issued_visa = some v }))
  unfolding grant_citizenship visa
  grant_citizenship_lem now app_id sponsor app s ids loaded ready =
      let v = citizen_visa ds now app_id sponsor app s in
      let granted = record app { status = citizenship_granted } in
      let (named, standard, agent, asked, depth) = citizen_visa_lem now app_id sponsor app s ids in
      let at_ = ap place ready in
      let saved : save_application (record granted { issued_visa = some v }) (save_visa v s)
          ≡ (grant_citizenship ds now app_id sponsor s).0 =
        ground arith in
      let on_file = load-save_visa v s named standard in
      (
        v,
        ground arith,
        agent,
        asked,
        depth,
        ap (load_visa_by_id ds v.visa_id) (sym saved)
            ∙ visas-save_application v.visa_id (record granted { issued_visa = some v })
                (save_visa v s)
            ∙ on_file,
        ap (load_application ds app.application_id) (sym saved)
            ∙ load-save_application granted v (save_visa v s) named on_file,
      )
