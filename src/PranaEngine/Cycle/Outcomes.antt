-- ===== src/PranaEngine/Cycle/Outcomes.antt =====
-- A metabolic cycle charges each agent in memory once, and names those that fall dormant.
use agent_city.Prelude.{
  ℕ, ◌+◌, ◌≡◌, ◌≢◌, sym, ap, ◌∙◌, String, Bool, true, false, none, some, List, [], ◌∷◌, arith,
  eq_iff, Bool-cases, Option-cases, inl, inr,
}
use mathlib.Core.Path.{subst}
use agent_city.Prelude.Key.{◌==◌, text_key, ==-refl}
use agent_city.Prelude.Dict.{Dict, lookup, lookup-insert, Unique}
use agent_city.Prelude.Int.{ℤ}
use agent_city.PranaEngine.{
  PranaEngine, has, is_in, cost_of, max_age_of, charged, is_dormant, metabolize_one,
  metabolize_names, metabolize_batch,
}
use agent_city.PranaEngine.Cycle.{
  names_of, Distinct, Unique-Distinct, present, kept, Same, after, sleeps_after, Charged,
  one-Charged, after-Same, names-Split, names-Same, is_in-add,
}

module _ (costs : Dict String ℤ) where
  -- What the cycle makes of an agent with prana `p` and cycle `c`.
  pub record Outcome (name : String) (p : ℤ) (c : ℕ) (e e' : PranaEngine) (dormant : List String)
      : Type 0 where
    pub prana : lookup name e'.prana ≡ some (charged (cost_of costs name e) p)
    pub cycle : lookup name e'.cycle ≡ some (c + 1)
    pub dirty : is_in name e'.dirty ≡ true
    pub sleeps :
        is_in name dormant
        ≡ is_dormant (charged (cost_of costs name e) p) (max_age_of name e) (c + 1)

  cost_of-Same :
      (name : String) (e e1 : PranaEngine)
      → Same name e e1
      → cost_of costs name e1 ≡ cost_of costs name e
  unfolding cost_of
  cost_of-Same name e e1 same = ground (arith, same.classes, same.configs)

  max_age_of-Same :
      (name : String) (e e1 : PranaEngine) → Same name e e1 → max_age_of name e1 ≡ max_age_of name e
  unfolding max_age_of
  max_age_of-Same name e e1 same = ground (arith, same.classes, same.configs)

  -- The first name of the loop.
  first-Outcome :
      (n : String) (names : List String) (p : ℤ) (c : ℕ) (e e' : PranaEngine)
      (dormant : List String)
      → metabolize_names costs (n ∷ names) e ≡ some (e', dormant)
      → is_in n names ≡ false
      → lookup n e.prana ≡ some p
      → lookup n e.cycle ≡ some c
      → Outcome n p c e e' dormant
  unfolding after sleeps_after is_in
  first-Outcome n names p c e e' dormant h out had aged =
      let split = names-Split costs n names e e' dormant h in
      let one = one-Charged costs n e split.e1 split.sleeps split.first in
      let (later, awake) = names-Same costs names n split.e1 e' split.rest split.others out in
      let same_p : one.p ≡ p = ground (arith, one.had) in
      let same_c : one.c ≡ c = ground (arith, one.aged) in
      record {
        prana =
            later.prana
            ∙ ap (λ x. lookup n x.prana) (sym one.result)
            ∙ ground (
              arith,
              same_p,
              ==-refl n,
              lookup-insert n n (charged (cost_of costs n e) one.p) e.prana,
            );
        cycle =
            later.cycle
            ∙ ap (λ x. lookup n x.cycle) (sym one.result)
            ∙ ground (arith, same_c, ==-refl n, lookup-insert n n (one.c + 1) e.cycle);
        dirty = later.dirty (
            ap (λ x. is_in n x.dirty) (sym one.result)
            ∙ ground (arith, ==-refl n, is_in-add n n e.dirty));
        sleeps =
            ap (is_in n) (sym split.named)
            ∙ ground (arith, awake, ==-refl n, one.slept, same_p, same_c);
      }

  names-Outcome :
      (names : List String) (name : String) (p : ℤ) (c : ℕ) (e e' : PranaEngine)
      (dormant : List String)
      → Distinct names
      → metabolize_names costs names e ≡ some (e', dormant)
      → is_in name names ≡ true
      → lookup name e.prana ≡ some p
      → lookup name e.cycle ≡ some c
      → Outcome name p c e e' dormant
  unfolding is_in Distinct
  names-Outcome [] name p c e e' dormant once h there had aged = absurd (ground arith)
  names-Outcome (n ∷ names) name p c e e' dormant once h there had aged =
      elim (Bool-cases (n == name)) [
        | inl same ↦
            let eq : n ≡ name = (eq_iff n name).0 same in
            subst (λ k. Outcome k p c e e' dormant) eq
              (first-Outcome n names p c e e' dormant h once.0 (ap (λ k. lookup k e.prana) eq ∙ had)
                (ap (λ k. lookup k e.cycle) eq ∙ aged))
        | inr other ↦
            let split = names-Split costs n names e e' dormant h in
            let one = one-Charged costs n e split.e1 split.sleeps split.first in
            let now : Same name e split.e1 =
              subst (Same name e) one.result (after-Same costs n name one.p one.c e other) in
            let on =
              names-Outcome names name p c split.e1 e' split.rest once.1 split.others (ground arith)
                (now.prana ∙ had) (now.cycle ∙ aged) in
            let cost = cost_of-Same name e split.e1 now in
            let age = max_age_of-Same name e split.e1 now in
            record {
              prana = on.prana ∙ ap (λ x. some (charged x p)) cost;
              cycle = on.cycle;
              dirty = on.dirty;
              sleeps =
                  ap (is_in name) (sym split.named)
                  ∙ ground (arith, other)
                  ∙ on.sleeps
                  ∙ ap (λ x. is_dormant (charged x p) (max_age_of name split.e1) (c + 1)) cost
                  ∙ ap (λ x. is_dormant (charged (cost_of costs name e) p) x (c + 1)) age;
            }
      ]

  -- Charging one agent takes no agent out of memory.
  Charged-still :
      (n m : String) (e e1 : PranaEngine) (sleeps : Bool)
      → Charged costs n e e1 sleeps
      → (lookup m e.prana ≢ none) × (lookup m e.cycle ≢ none)
      → (lookup m e1.prana ≢ none) × (lookup m e1.cycle ≢ none)
  unfolding after
  Charged-still n m e e1 sleeps one (had, aged) = elim (Bool-cases (n == m)) [
    | inl same ↦
        let paid = charged (cost_of costs n e) one.p in
        (
          λ gone. ground (
            arith,
            same,
            lookup-insert n m paid e.prana,
            ap (λ x. lookup m x.prana) one.result ∙ gone,
          ),
          λ gone. ground (
            arith,
            same,
            lookup-insert n m (one.c + 1) e.cycle,
            ap (λ x. lookup m x.cycle) one.result ∙ gone,
          ),
        )
    | inr other ↦
        let now = subst (Same m e) one.result (after-Same costs n m one.p one.c e other) in
        (λ gone. had (sym now.prana ∙ gone), λ gone. aged (sym now.cycle ∙ gone))
  ]

  names-return :
      (names : List String) (e : PranaEngine)
      → ((n : String)
          → is_in n names ≡ true
          → (lookup n e.prana ≢ none) × (lookup n e.cycle ≢ none))
      → metabolize_names costs names e ≢ none
  unfolding metabolize_names metabolize_one is_in
  names-return [] e has = λ lost. ground arith
  names-return (n ∷ names) e has =
      let (had, aged) = has n (ground (arith, ==-refl n)) in
      elim (Option-cases (metabolize_one costs n e)) [
        | inl missing ↦ elim (Option-cases (lookup n e.prana)) [
          | inl no_prana ↦ absurd (had no_prana)
          | inr (p, at_p) ↦ elim (Option-cases (lookup n e.cycle)) [
            | inl no_cycle ↦ absurd (aged no_cycle)
            | inr (c, at_c) ↦ absurd (ground arith)
          ]
        ]
        | inr ((e1, sleeps), first) ↦
            let one = one-Charged costs n e e1 sleeps first in
            let later =
              names-return names e1
                (λ m there. Charged-still n m e e1 sleeps one (has m (ground arith))) in
            λ lost. ground (arith, later)
      ]

  pub metabolize_batch-Outcome :
      (e : PranaEngine)
      → Unique e.prana
      → ((n : String) (p : ℤ) → lookup n e.prana ≡ some p → lookup n e.cycle ≢ none)
      → (e' : PranaEngine) × (dormant : List String) × (metabolize_batch costs e
          ≡ some (e', dormant))
        × ((name : String) (p : ℤ) (c : ℕ)
            → lookup name e.prana ≡ some p
            → lookup name e.cycle ≡ some c
            → Outcome name p c e e' dormant)
  unfolding metabolize_batch
  metabolize_batch-Outcome e once whole =
      elim (Option-cases (metabolize_names costs (names_of e.prana) e)) [
        | inl lost ↦ absurd (
            names-return (names_of e.prana) e
              (λ n there.
                let (p, had) = kept n e.prana there in (λ no_prana. ground arith, whole n p had))
              lost)
        | inr ((e1, named), done) ↦
            let e' = record e1 { metabolize_count = e1.metabolize_count + 1 } in
            (
              e',
              named,
              ground arith,
              λ name p c had aged.
                  let on =
                    names-Outcome (names_of e.prana) name p c e e1 named
                      (Unique-Distinct e.prana once) done (present name p e.prana had) had aged in
                  record {
                    prana = on.prana;
                    cycle = on.cycle;
                    dirty = on.dirty;
                    sleeps = on.sleeps;
                  },
            )
      ]
