-- ===== src/Referendum/Reached.antt =====
-- What holds of every referendum, whatever the engine was asked to do.
use mathlib.Core.Path.{subst}
use mathlib.Core.Option.{none-ne-some}
use agent_city.Prelude.{
  ℕ, ◌≡◌, ◌⊎◌, refl, sym, String, false, Option, some, [], ◌∷◌, arith, Bool-cases, Option-cases,
  inl, inr,
}
use agent_city.Prelude.Key.{◌==◌, text_key}
use agent_city.Prelude.Dict.{Dict, lookup, Every, Every-insert}
use agent_city.Referendum.{
  Referendum, ReferendumConfig, ReferendumTrigger, VoteChoice, Results, is_passed, is_draft,
  calculate_results, weight_of,
}
use agent_city.Referendum.Engine.{
  Engine, new_engine, create_referendum, start_petition, start_voting, sign_petition, cast_vote,
  finalize, finalize_all, finalize_expired_referendums, trigger_council_referral,
  trigger_automatic_referendum, put, voting_started, petition_started,
}

-- One call of an operation on the engine.
pub data Step (e : Engine) : Engine → Type 0 where
  create :
      (now : ℕ) (title description proposer : String) (trigger : ReferendumTrigger)
      → Step e (create_referendum now title description proposer trigger e).0
  petition : (now : ℕ) (id : String) → Step e (start_petition now id e).0
  sign :
      (digest : String → String) (now : ℕ) (id name : String) (prana : ℕ)
      → Step e (sign_petition digest now id name prana e).0
  open_vote : (now : ℕ) (id : String) → Step e (start_voting now id e).0
  vote :
      (now : ℕ) (id name : String) (choice : VoteChoice) (prana : ℕ)
      → Step e (cast_vote now id name choice prana e).0
  close :
      (digest : Results → String) (now : ℕ) → Step e (finalize_expired_referendums digest now e).0
  refer :
      (now : ℕ) (title description proposer : String)
      → Step e (trigger_council_referral now title description proposer e).0
  automatic :
      (now : ℕ) (reason description : String)
      → Step e (trigger_automatic_referendum now reason description e).0

-- The engines that calls lead to from a new one.
pub data Reached (config : Option ReferendumConfig) : Engine → Type 0 where
  start : Reached config (new_engine config)
  after : {e e' : Engine} → Reached config e → Step e e' → Reached config e'

pub record IsEmpty (r : Referendum) : Type 0 where
  pub no_votes : r.votes ≡ []
  pub no_signatures : r.petition_signatures ≡ []
  pub not_passed : is_passed r.status ≡ false

abbrev AllEmpty : Engine → Type 0
AllEmpty e = Every (λ _ r. IsEmpty r) e.referendums

start_voting-AllEmpty :
    (now : ℕ) (id : String) (e : Engine) → AllEmpty e → AllEmpty (start_voting now id e).0
unfolding start_voting
start_voting-AllEmpty now id e h = elim (Option-cases (lookup id e.referendums)) [
  | inl missing ↦
      let p : (start_voting now id e).0 ≡ e = ground (arith, missing) in subst AllEmpty (sym p) h
  | inr (r, known) ↦
      let p : (start_voting now id e).0 ≡ put id (voting_started now r) e = ground (arith, known) in
      subst AllEmpty (sym p) (
        Every-insert (λ _ r. IsEmpty r) id (voting_started now r) e.referendums
          (record {
            no_votes = refl;
            no_signatures = (h id r known).no_signatures;
            not_passed = refl;
          })
          h)
]

create-AllEmpty :
    (now : ℕ) (title description proposer : String) (trigger : ReferendumTrigger) (e : Engine)
    → AllEmpty e
    → AllEmpty (create_referendum now title description proposer trigger e).0
unfolding create_referendum
create-AllEmpty now title description proposer trigger e h =
    Every-insert (λ _ r. IsEmpty r) _ _ e.referendums
      (record { no_votes = refl; no_signatures = refl; not_passed = refl }) h

petition-AllEmpty :
    (now : ℕ) (id : String) (e : Engine) → AllEmpty e → AllEmpty (start_petition now id e).0
unfolding start_petition
petition-AllEmpty now id e h = elim (Option-cases (lookup id e.referendums)) [
  | inl missing ↦
      let p : (start_petition now id e).0 ≡ e = ground (arith, missing) in subst AllEmpty (sym p) h
  | inr (r, known) ↦ elim (Bool-cases (is_draft r.status)) [
    | inl yet ↦
        let p : (start_petition now id e).0 ≡ put id (petition_started now r) e =
          ground (arith, known, yet) in
        subst AllEmpty (sym p) (
          Every-insert (λ _ r. IsEmpty r) id (petition_started now r) e.referendums
            (record { no_votes = refl; no_signatures = refl; not_passed = refl }) h)
    | inr over ↦
        let p : (start_petition now id e).0 ≡ e = ground (arith, known, over) in
        subst AllEmpty (sym p) h
  ]
]

sign-AllEmpty :
    (digest : String → String) (now : ℕ) (id name : String) (prana : ℕ) (e : Engine)
    → AllEmpty e
    → AllEmpty (sign_petition digest now id name prana e).0
unfolding sign_petition
sign-AllEmpty digest now id name prana e h = elim cases [
  | inl same ↦ subst AllEmpty (sym same) h
  | inr opened ↦ subst AllEmpty (sym opened) (start_voting-AllEmpty now id e h)
]
  where
    cases :
        ((sign_petition digest now id name prana e).0 ≡ e)
        ⊎ ((sign_petition digest now id name prana e).0 ≡ (start_voting now id e).0)
    cases = ground arith

vote-AllEmpty :
    (now : ℕ) (id name : String) (choice : VoteChoice) (prana : ℕ) (e : Engine)
    → AllEmpty e
    → AllEmpty (cast_vote now id name choice prana e).0
unfolding cast_vote
vote-AllEmpty now id name choice prana e h =
    let p : (cast_vote now id name choice prana e).0 ≡ e = ground arith in subst AllEmpty (sym p) h

finalize-IsEmpty :
    (digest : Results → String) (now : ℕ) (r r' : Referendum)
    → IsEmpty r
    → finalize digest now r ≡ some r'
    → IsEmpty r'
unfolding finalize calculate_results weight_of
finalize-IsEmpty digest now r r' h f = record {
  no_votes = ground (arith, h.no_votes, f);
  no_signatures = ground (arith, h.no_signatures, f);
  not_passed = ground (arith, h.no_votes, f);
}

-- What stands in the dict after the loop stood there before it, or is what the loop made of that.
finalize_all-from :
    (digest : Results → String) (now : ℕ) (d : Dict String Referendum) (id : String)
    (r' : Referendum)
    → lookup id (finalize_all digest now d).0 ≡ some r'
    → (r : Referendum) × (lookup id d ≡ some r) × ((finalize digest now r ≡ some r') ⊎ (r ≡ r'))
unfolding lookup finalize_all
finalize_all-from digest now [] id r' h = absurd (none-ne-some r' h)
finalize_all-from digest now ((j, q) ∷ d) id r' h = elim (Bool-cases (j == id)) [
  | inl here ↦ elim (Option-cases (finalize digest now q)) [
    | inl left_alone ↦ (q, ground (arith, here), inr (ground (arith, h, here, left_alone)))
    | inr (q', made) ↦ (q, ground (arith, here), inl (ground (arith, h, here, made)))
  ]
  | inr other ↦
      let back : lookup id (finalize_all digest now d).0 ≡ some r' = ground (arith, h, other) in
      let (r, there, how) = finalize_all-from digest now d id r' back in
      (r, ground (arith, other, there), how)
]

close-AllEmpty :
    (digest : Results → String) (now : ℕ) (e : Engine)
    → AllEmpty e
    → AllEmpty (finalize_expired_referendums digest now e).0
unfolding finalize_expired_referendums
close-AllEmpty digest now e h id r' found =
    let (r, there, how) = finalize_all-from digest now e.referendums id r' found in
    elim how [
      | inl made ↦ finalize-IsEmpty digest now r r' (h id r there) made
      | inr same ↦ subst IsEmpty same (h id r there)
    ]

Step-AllEmpty : {e e' : Engine} (step : Step e e') → AllEmpty e → AllEmpty e'
unfolding trigger_council_referral trigger_automatic_referendum
Step-AllEmpty {e} (create now title description proposer trigger) h =
    create-AllEmpty now title description proposer trigger e h
Step-AllEmpty {e} (petition now id) h = petition-AllEmpty now id e h
Step-AllEmpty {e} (sign digest now id name prana) h = sign-AllEmpty digest now id name prana e h
Step-AllEmpty {e} (open_vote now id) h = start_voting-AllEmpty now id e h
Step-AllEmpty {e} (vote now id name choice prana) h = vote-AllEmpty now id name choice prana e h
Step-AllEmpty {e} (close digest now) h = close-AllEmpty digest now e h
Step-AllEmpty {e} (refer now title description proposer) h =
    start_voting-AllEmpty now _ _ (create-AllEmpty now title description proposer _ e h)
Step-AllEmpty {e} (automatic now reason description) h =
    start_voting-AllEmpty now _ _ (create-AllEmpty now _ description _ _ e h)

-- Whatever an engine is asked to do, petitions to be signed and votes to be cast among it, no referendum
-- in it has a vote or a signature, and none has passed.
pub Reached-IsEmpty :
    {config : Option ReferendumConfig} {e : Engine} (reached : Reached config e) (id : String)
    (r : Referendum)
    → lookup id e.referendums ≡ some r
    → IsEmpty r
unfolding new_engine lookup
Reached-IsEmpty start id r h = absurd (none-ne-some r h)
Reached-IsEmpty (after reached step) id r h = Step-AllEmpty step (Reached-IsEmpty reached) id r h
