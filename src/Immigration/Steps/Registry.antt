-- ===== src/Immigration/Steps/Registry.antt =====
-- In every office that can be reached the visas are filed and rooted, so every lineage leads to the root.
use agent_city.Prelude.{
  ℕ, suc, ◌≡◌, ◌≢◌, refl, sym, ap, ◌∙◌, String, none, some, List, [], arith, eq_iff, Bool-cases,
  Option-cases, inl, inr, length,
}
use mathlib.Core.Path.{subst}
use agent_city.Prelude.Key.{text_key, ==-refl}
use agent_city.Prelude.Dict.{lookup, replace, erase}
use agent_city.Visa.{Visa, Digests, issue_visa, revoke_visa, post_init}
use agent_city.Visa.Lifecycle.{revoke_visa-never_valid}
use agent_city.Immigration.{
  Office, visa_row, Application, open_office, first_visa_of, save_visa, save_application,
  load_visa_by_agent, load_application, genesis, same_status, pending, under_review, approved,
  council_pending, council_approved,
}
use agent_city.Immigration.Process.{
  submit_application, start_review, complete_review, move_to_council, record_council_vote,
  register_mahajan, mahajan, grant_citizenship, citizen_visa, sponsorship, revoke_citizenship,
  reviewing, judge, putting_to_vote, decide,
}
use agent_city.Immigration.Lineage.{parampara, mahajan_of}
use agent_city.Immigration.Lineage.Filed.{IsFiled, visa-load_by_agent}
use agent_city.Immigration.Lineage.Roots.{Rooted, root_row, deeper_row, Line, parampara-Line}
use agent_city.Immigration.Steps.{
  Step, Reach, opened, stepped, submit, review, complete, convene, conclude, found, grant, revoke,
}
use agent_city.Immigration.Steps.Filing.{
  HasIds, IsRegistry, Fits, IsRegistry-save, IsRegistry-same, process-IsRegistry,
}

module _ (ds : Digests) where
  module _ (ids : HasIds ds) where
    mahajan-IsRegistry :
        (now : ℕ) (name : String) (s : Office)
        → lookup (ds.visa_digest name now "city_genesis") s.visas ≡ none
        → IsRegistry ds s
        → IsRegistry ds (register_mahajan ds now name s).0
    unfolding register_mahajan mahajan issue_visa post_init Fits
    mahajan-IsRegistry now name s free good =
        let (filed, rooted, (g_named, (q, at_q, depth))) = good in
        let (named, apart) = ids name now "city_genesis" in
        IsRegistry-save ds (mahajan ds now name s) s named apart (λ r there. absurd (ground arith))
          (deeper_row q (ground (arith, eq_iff s.genesis_visa.visa_id "")) (ground arith)) good

    revoked-IsRegistry :
        (now : ℕ) (reason : String) (v : Visa) (s : Office)
        → (v.visa_id ≢ "") × (lookup v.visa_id s.visas ≡ some (visa_row v))
        → IsRegistry ds s
        → IsRegistry ds (save_visa (revoke_visa ds now reason v) s)
    unfolding Fits
    revoked-IsRegistry now reason v s (named, there) good =
        let w = revoke_visa ds now reason v in
        let (invalid, rights, same_id, same_sponsor, same_depth) =
          revoke_visa-never_valid ds now now reason v named in
        let (filed, (no_root, all_rooted), has_genesis) = good in
        IsRegistry-save ds w s (λ e. named (sym same_id ∙ e))
          (λ e. ground (arith, no_root, there, ap (λ k. lookup k s.visas) (sym same_id ∙ e)))
          (λ q at_q. ground (arith, same_depth, there, at_q, ap (λ k. lookup k s.visas) same_id))
          (elim (all_rooted v.visa_id (visa_row v) there) [
            | root_row top depth ↦ root_row (same_sponsor ∙ top) (same_depth ∙ depth)
            | deeper_row q at_q depth ↦
                deeper_row q (ap (λ k. lookup k s.visas) same_sponsor ∙ at_q) (same_depth ∙ depth)
          ])
          good

    citizen-Rooted :
        (now : ℕ) (app_id sponsor : String) (app : Application) (s : Office)
        → IsRegistry ds s
        → Rooted ds s.visas (visa_row (citizen_visa ds now app_id sponsor app s))
          × ((citizen_visa ds now app_id sponsor app s).visa_id ≢ "")
          × ((citizen_visa ds now app_id sponsor app s).visa_id ≢ ds.mahamantra)
    unfolding citizen_visa sponsorship issue_visa post_init
    citizen-Rooted now app_id sponsor app s (filed, rooted, (g_named, (q, at_q, depth))) =
        elim (Option-cases (load_visa_by_agent ds sponsor s)) [
          | inl missing ↦
              let (named, apart) = ids app.agent_name now "city_genesis" in
              (
                deeper_row q (ground (arith, eq_iff s.genesis_visa.visa_id "")) (ground arith),
                λ e. ground (arith, named),
                λ e. ground (arith, apart),
              )
          | inr (v, loaded) ↦
              let (named, apart) = ids app.agent_name now sponsor in
              let (v_named, at_v) = visa-load_by_agent ds sponsor v s filed loaded in
              (
                deeper_row (visa_row v) (ground (arith, eq_iff v.visa_id "")) (ground arith),
                λ e. ground (arith, named),
                λ e. ground (arith, apart),
              )
        ]

    grant-IsRegistry :
        (now : ℕ) (app_id sponsor : String) (s : Office)
        → ((app : Application)
            → load_application ds app_id s ≡ some app
            → lookup (citizen_visa ds now app_id sponsor app s).visa_id s.visas ≡ none)
        → IsRegistry ds s
        → IsRegistry ds (grant_citizenship ds now app_id sponsor s).0
    unfolding grant_citizenship save_application Fits
    grant-IsRegistry now app_id sponsor s free good =
        elim (Option-cases (load_application ds app_id s)) [
          | inl missing ↦
              IsRegistry-same ds s (grant_citizenship ds now app_id sponsor s).0 (ground arith)
                (ground arith) good
          | inr (app, loaded) ↦ elim (Bool-cases (same_status app.status council_approved)) [
            | inl ready ↦
                let visa = citizen_visa ds now app_id sponsor app s in
                let (rooted, named, apart) = citizen-Rooted now app_id sponsor app s good in
                IsRegistry-same ds (save_visa visa s) (grant_citizenship ds now app_id sponsor s).0
                  (ground arith) (ground arith)
                  (IsRegistry-save ds visa s named apart
                    (λ q there. absurd (ground (arith, free app loaded))) rooted good)
            | inr early ↦
                IsRegistry-same ds s (grant_citizenship ds now app_id sponsor s).0 (ground arith)
                  (ground arith) good
          ]
        ]

    revoke-IsRegistry :
        (now : ℕ) (name reason : String) (s : Office)
        → IsRegistry ds s
        → IsRegistry ds (revoke_citizenship ds now name reason s).0
    unfolding revoke_citizenship
    revoke-IsRegistry now name reason s good = elim (Option-cases (load_visa_by_agent ds name s)) [
      | inl missing ↦
          IsRegistry-same ds s (revoke_citizenship ds now name reason s).0 (ground arith)
            (ground arith) good
      | inr (v, loaded) ↦
          let saved : save_visa (revoke_visa ds now reason v) s
              ≡ (revoke_citizenship ds now name reason s).0 =
            ground arith in
          subst (IsRegistry ds) saved
            (revoked-IsRegistry now reason v s (visa-load_by_agent ds name v s good.0 loaded) good)
    ]

    genesis-IsRegistry : (now : ℕ) → IsRegistry ds (open_office ds now [] [])
    unfolding open_office genesis issue_visa post_init first_visa_of save_visa replace erase lookup
        IsFiled
    genesis-IsRegistry now =
        let (named, apart) = ids "city_genesis" now "MAHAMANTRA" in
        let g = genesis ds now in
        (
          ((tt, tt), ((refl, named), tt)),
          (
            ground (arith, eq_iff g.visa_id ds.mahamantra, apart),
            λ k r there. root_row (ground arith) (ground arith),
          ),
          (named, (visa_row g, ground (arith, ==-refl g.visa_id), refl)),
        )

    Step-IsRegistry : {s s' : Office} → Step ds s s' → IsRegistry ds s → IsRegistry ds s'
    unfolding submit_application save_application start_review complete_review move_to_council
        record_council_vote
    Step-IsRegistry {s} (submit now now' name reason c free) good =
        IsRegistry-same ds s (submit_application ds now now' name reason c s).0 refl refl good
    Step-IsRegistry {s} (review now app_id reviewer) good =
        process-IsRegistry ds pending (reviewing now reviewer) app_id s good
    Step-IsRegistry {s} (complete now app_id r) good =
        process-IsRegistry ds under_review (judge now r) app_id s good
    Step-IsRegistry {s} (convene app_id vote_id) good =
        process-IsRegistry ds approved (putting_to_vote vote_id) app_id s good
    Step-IsRegistry {s} (conclude now app_id said vote_tally) good =
        process-IsRegistry ds council_pending (decide now said vote_tally) app_id s good
    Step-IsRegistry {s} (found now name free) good = mahajan-IsRegistry now name s free good
    Step-IsRegistry {s} (grant now app_id sponsor free) good =
        grant-IsRegistry now app_id sponsor s free good
    Step-IsRegistry {s} (revoke now name reason) good = revoke-IsRegistry now name reason s good

    Reach-IsRegistry : {s : Office} → Reach ds s → IsRegistry ds s
    Reach-IsRegistry (opened now) = genesis-IsRegistry now
    Reach-IsRegistry (stepped earlier step) = Step-IsRegistry step (Reach-IsRegistry earlier)

    -- In every office that a sequence of operations reaches from that of an empty file, whose digests
    -- are neither empty nor the Mahamantra's nor any on file, the lineage of an agent that has a visa
    -- is a line of sponsors from that visa to the root, of as many visas as its depth and one; and
    -- `mahajan_of` returns a visa of depth 0, whose sponsor is the Mahamantra.
    pub Reach-Line :
        {s : Office} (reached : Reach ds s) (agent_name : String) (v : Visa)
        → load_visa_by_agent ds agent_name s ≡ some v
        → (chain : List Visa) × (parampara ds agent_name s ≡ some chain)
          × Line ds v chain
          × (length chain ≡ suc v.lineage_depth)
          × ((g : Visa) × (mahajan_of ds agent_name s ≡ some (some g))
              × (g.sponsor_visa_id ≡ ds.mahamantra)
              × (g.lineage_depth ≡ 0))
    Reach-Line {s} reached agent_name v loaded =
        let (filed, rooted, has_genesis) = Reach-IsRegistry reached in
        parampara-Line ds s filed rooted agent_name v loaded
