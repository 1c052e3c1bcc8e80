-- ===== src/Immigration/Steps/Journey/Kept.antt =====
-- In every office that can be reached, applications are sound, and every step keeps them on their journey.
use agent_city.Prelude.{
  ℕ, ◌≡◌, refl, sym, ap, ◌∙◌, String, none, some, arith, eq_iff, Bool-cases, Option-cases, inl, inr,
}
use mathlib.Core.Path.{subst}
use mathlib.Core.Option.{some-injective}
use agent_city.Prelude.Key.{◌==◌, text_key}
use agent_city.Prelude.Dict.{lookup, lookup-replace, Every, Every-replace}
use agent_city.Visa.{Visa, VisaClass, Digests}
use agent_city.Immigration.{
  Office, Application, ApplicationRow, ApplicationReason, ApplicationStatus, pending, under_review,
  approved, council_pending, council_approved, citizenship_granted, same_status, application_row,
  save_application, save_visa, load_application, row_to_application, open_office, first_visa_of,
}
use agent_city.Immigration.Process.{
  process, reviewing, judge, putting_to_vote, decide, submit_application, start_review,
  complete_review, move_to_council, record_council_vote, register_mahajan, grant_citizenship,
  citizen_visa, revoke_citizenship,
}
use agent_city.Immigration.Steps.{
  Step, Reach, opened, stepped, submit, review, complete, convene, conclude, found, grant, revoke,
}
use agent_city.Immigration.Steps.Journey.{
  Moves, grants, was_checked, was_elected, IsSound, Continues, Continues-refl, same_status-eq,
}
use agent_city.Immigration.Steps.Journey.Changes.{
  IsChange, reviewing-IsChange, judge-IsChange, putting_to_vote-IsChange, decide-IsChange,
}

module _ (ds : Digests) where
  Sound : Office → Type 0
  Sound s = Every IsSound s.applications

  -- Every row on file is still on file, one move further at most.
  abbrev pub Follows : Office → Office → Type 0
  Follows s s' =
      (id : String) (r : ApplicationRow)
      → lookup id s.applications ≡ some r
      → (r' : ApplicationRow) × (lookup id s'.applications ≡ some r') × Continues r r'

  Follows-same : (s s' : Office) → s'.applications ≡ s.applications → Follows s s'
  Follows-same s s' same id r at_id = (r, ap (lookup id) same ∙ at_id, Continues-refl r)

  Follows-save :
      (app : Application) (s : Office)
      → ((r : ApplicationRow)
          → lookup app.application_id s.applications ≡ some r
          → Continues r (application_row app))
      → Follows s (save_application app s)
  unfolding save_application
  Follows-save app s next id r at_id = elim (Bool-cases (app.application_id == id)) [
    | inl same ↦ (
      application_row app,
      ground (arith, lookup-replace app.application_id id (application_row app) s.applications),
      next r (ap (λ k. lookup k s.applications) ((eq_iff app.application_id id).0 same) ∙ at_id),
    )
    | inr other ↦ (
      r,
      ground (arith, lookup-replace app.application_id id (application_row app) s.applications),
      Continues-refl r,
    )
  ]

  -- What is loaded under an id is made of the row under it.
  load-row :
      (id : String) (app : Application) (s : Office)
      → load_application ds id s ≡ some app
      → (r : ApplicationRow) × (lookup id s.applications ≡ some r)
        × (row_to_application ds s r ≡ app)
  unfolding load_application
  load-row id app s h = elim (Option-cases (lookup id s.applications)) [
    | inl missing ↦ absurd (ground arith)
    | inr (r, there) ↦ (r, there, ground arith)
  ]

  row_status :
      {a : ApplicationStatus} (r : ApplicationRow) (app : Application) (s : Office)
      → row_to_application ds s r ≡ app
      → app.status ≡ a
      → r.status ≡ a
  unfolding row_to_application
  row_status r app s made at_ = ap (λ q. q.status) made ∙ at_

  unmoved : (s s' : Office) → s'.applications ≡ s.applications → Sound s → Sound s' × Follows s s'
  unfolding Sound
  unmoved s s' same fine =
      (λ id r there. fine id r (ap (lookup id) (sym same) ∙ there), Follows-same s s' same)

  module _ (expected : ApplicationStatus) (change : Application → Application)
      (is : IsChange ds expected change) where
    -- The change of the row under `id`, saved.
    change-Sound :
        (id : String) (s : Office) (r : ApplicationRow) (app : Application)
        → Sound s
        → lookup id s.applications ≡ some r
        → row_to_application ds s r ≡ app
        → r.status ≡ expected
        → Sound (save_application (change app) s) × Follows s (save_application (change app) s)
    unfolding Sound save_application
    change-Sound id s r app fine there made at_ =
        let next =
          subst (λ a. IsSound id (application_row (change a))) made
            (is.sound id s r at_ (fine id r there)) in
        let goes =
          subst (λ a. Continues r (application_row (change a))) made (is.continues s r at_) in
        let own : (change app).application_id ≡ id = next.own in
        (
          Every-replace IsSound (change app).application_id (application_row (change app))
              s.applications (subst (λ k. IsSound k (application_row (change app))) (sym own) next)
              fine,
          Follows-save (change app) s (λ q at_q.
              subst (λ x. Continues x (application_row (change app)))
                (some-injective r q
                  (sym there ∙ ap (λ k. lookup k s.applications) (sym own) ∙ at_q))
                goes),
        )

    process-Sound :
        (id : String) (s : Office)
        → Sound s
        → Sound (process ds expected change id s).0 × Follows s (process ds expected change id s).0
    unfolding process
    process-Sound id s fine = elim (Option-cases (load_application ds id s)) [
      | inl missing ↦ unmoved s (process ds expected change id s).0 (ground arith) fine
      | inr (app, loaded) ↦ elim (Bool-cases (same_status app.status expected)) [
        | inr other ↦ unmoved s (process ds expected change id s).0 (ground arith) fine
        | inl ready ↦
            let (r, there, made) = load-row id app s loaded in
            let saved : save_application (change app) s ≡ (process ds expected change id s).0 =
              ground arith in
            subst (λ s'. Sound s' × Follows s s') saved
              (change-Sound id s r app fine there made
                (row_status r app s made (same_status-eq app.status expected ready)))
      ]
    ]

  submit-Sound :
      (now now' : ℕ) (name : String) (reason : ApplicationReason) (c : VisaClass) (s : Office)
      → lookup (ds.application_digest name now) s.applications ≡ none
      → Sound s
      → Sound (submit_application ds now now' name reason c s).0
        × Follows s (submit_application ds now now' name reason c s).0
  unfolding submit_application Sound save_application
  submit-Sound now now' name reason c s free fine =
      let app = (submit_application ds now now' name reason c s).1 in
      (
        Every-replace IsSound app.application_id (application_row app) s.applications
            (record { own = refl; checked = λ h. ground arith; elected = λ h. ground arith }) fine,
        Follows-save app s (λ r there. absurd (ground arith)),
      )

  -- The grant of a visa is a change of its own, made of the visa.
  abbrev granting : Visa → Application → Application
  granting v app = record app { issued_visa = some v; status = citizenship_granted }

  granting-IsChange : (v : Visa) → IsChange ds council_approved (granting v)
  unfolding row_to_application
  granting-IsChange v = record {
    sound = λ id s q at_ fine. record {
      own = fine.own;
      checked = λ h. fine.checked (ap was_checked at_);
      elected = λ h. fine.elected (ap was_elected at_);
    };
    continues = λ s q at_. record {
      moves = subst (λ a. Moves a citizenship_granted) (sym at_) grants;
      agent = refl;
      asked = refl;
    };
  }

  grant-Sound :
      (now : ℕ) (app_id sponsor : String) (s : Office)
      → Sound s
      → Sound (grant_citizenship ds now app_id sponsor s).0
        × Follows s (grant_citizenship ds now app_id sponsor s).0
  unfolding grant_citizenship save_visa save_application Sound
  grant-Sound now app_id sponsor s fine = elim (Option-cases (load_application ds app_id s)) [
    | inl missing ↦ unmoved s (grant_citizenship ds now app_id sponsor s).0 (ground arith) fine
    | inr (app, loaded) ↦ elim (Bool-cases (same_status app.status council_approved)) [
      | inr other ↦ unmoved s (grant_citizenship ds now app_id sponsor s).0 (ground arith) fine
      | inl ready ↦
          let v = citizen_visa ds now app_id sponsor app s in
          let (r, there, made) = load-row app_id app s loaded in
          let (fine', goes) =
            change-Sound council_approved (granting v) (granting-IsChange v) app_id s r app fine
              there made
              (row_status r app s made (same_status-eq app.status council_approved ready)) in
          let same : (grant_citizenship ds now app_id sponsor s).0.applications
              ≡ (save_application (granting v app) s).applications =
            ground arith in
          (
            λ id q at_q. fine' id q (ap (lookup id) (sym same) ∙ at_q),
            λ id q at_q.
                let (q', at_q', on) = goes id q at_q in (q', ap (lookup id) same ∙ at_q', on),
          )
    ]
  ]

  Step-Sound : {s s' : Office} → Step ds s s' → Sound s → Sound s' × Follows s s'
  unfolding start_review complete_review move_to_council record_council_vote register_mahajan
      revoke_citizenship save_visa
  Step-Sound {s} (submit now now' name reason c free) fine =
      submit-Sound now now' name reason c s free fine
  Step-Sound {s} (review now app_id reviewer) fine =
      process-Sound pending (reviewing now reviewer) (reviewing-IsChange ds now reviewer) app_id s
        fine
  Step-Sound {s} (complete now app_id r) fine =
      process-Sound under_review (judge now r) (judge-IsChange ds now r) app_id s fine
  Step-Sound {s} (convene app_id vote_id) fine =
      process-Sound approved (putting_to_vote vote_id) (putting_to_vote-IsChange ds vote_id) app_id
        s fine
  Step-Sound {s} (conclude now app_id said tally) fine =
      process-Sound council_pending (decide now said tally) (decide-IsChange ds now said tally)
        app_id s fine
  Step-Sound {s} (found now name free) fine = unmoved s (register_mahajan ds now name s).0 refl fine
  Step-Sound {s} (grant now app_id sponsor free) fine = grant-Sound now app_id sponsor s fine
  Step-Sound {s} (revoke now name reason) fine =
      unmoved s (revoke_citizenship ds now name reason s).0 (ground arith) fine

  Reach-Sound : {s : Office} → Reach ds s → Sound s
  unfolding Sound open_office save_visa lookup first_visa_of
  Reach-Sound (opened now) = λ id r there. absurd (ground arith)
  Reach-Sound (stepped earlier step) = (Step-Sound step (Reach-Sound earlier)).0

  -- In every office that a sequence of operations reaches from that of an empty file, where no digest
  -- that is made is of a document on file, each application is on file under its id; one that was
  -- approved, or is past that, has passed both checks; and one that the council approved, or that was
  -- granted, has the council's approval recorded.
  pub Reach-IsSound : {s : Office} → Reach ds s → Every IsSound s.applications
  unfolding Sound
  Reach-IsSound reached = Reach-Sound reached

  -- From every office that a sequence of operations reaches from that of an empty file, where no
  -- digest that is made is of a document on file, whatever the operation, an application that is on
  -- file stays on file under its id, for the same agent and the same class of visa, and its status
  -- stays or makes one move: from pending to under review, from there to approved or rejected, from
  -- approved to the council, from there to the council's approval or rejection, and from its approval
  -- to the grant.
  pub Step-Continues : {s s' : Office} → Reach ds s → Step ds s s' → Follows s s'
  Step-Continues reached step = (Step-Sound step (Reach-Sound reached)).1
