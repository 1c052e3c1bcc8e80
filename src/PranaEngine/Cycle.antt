-- ===== src/PranaEngine/Cycle.antt =====
-- The loop of a metabolic cycle: what one turn does, and that it leaves the other agents alone.
pub mod Outcomes
use agent_city.Prelude.{
  ℕ, ◌+◌, ◌≡◌, ◌≢◌, refl, sym, ap, ◌∙◌, String, Bool, true, false, not, ◌&&◌, ◌||◌, Option, none,
  some, List, [], ◌∷◌, ◌++◌, map, arith, eq_iff, if◌then◌else◌, Bool-cases, Option-cases, inl, inr,
  All,
}
use mathlib.Core.Path.{subst}
use agent_city.Prelude.Key.{◌==◌, text_key, ==-refl}
use agent_city.Prelude.Dict.{Dict, lookup, insert, lookup-insert, Unique}
use agent_city.Prelude.Int.{ℤ, pos, ◌+ℤ◌, ◌-ℤ◌, ◌≤ℤ◌, leb_ℤ, ltb_ℤ, int_laws}
use agent_city.PranaEngine.{
  PranaEngine, ClassConfig, get, has, is_in, add, cost_of, max_age_of, charged, is_dormant,
  metabolize_one, metabolize_names, metabolize_batch, get_or,
}

abbrev pub names_of : {V : Type 0} → Dict String V → List String
names_of d = map (λ entry. entry.0) d

pub Distinct : List String → Type 0
Distinct [] = Unit
Distinct (n ∷ names) = (is_in n names ≡ false) × Distinct names

absent : (n : String) (d : Dict String ℤ) → All (λ e. n ≢ e.0) d → is_in n (names_of d) ≡ false
unfolding is_in
absent n [] h = refl
absent n ((j, v) ∷ d) h = ground (arith, eq_iff j n, h.0, absent n d h.1)

pub Unique-Distinct : (d : Dict String ℤ) → Unique d → Distinct (names_of d)
unfolding Distinct
Unique-Distinct [] h = tt
Unique-Distinct ((j, v) ∷ d) h = (absent j d h.0, Unique-Distinct d h.1)

pub present :
    (n : String) (p : ℤ) (d : Dict String ℤ) → lookup n d ≡ some p → is_in n (names_of d) ≡ true
unfolding is_in lookup
present n p [] h = ground arith
present n p ((j, v) ∷ d) h = ground (arith, eq_iff j n, present n p d)

pub kept :
    (n : String) (d : Dict String ℤ) → is_in n (names_of d) ≡ true → (p : ℤ) × (lookup n d ≡ some p)
unfolding is_in lookup
kept n [] h = absurd (ground arith)
kept n ((j, v) ∷ d) h = elim (Bool-cases (j == n)) [
  | inl same ↦ (v, ground arith)
  | inr other ↦ let (p, there) = kept n d (ground arith) in (p, ground arith)
]

is_in-append :
    (n m : String) (names : List String) → is_in n (names ++ m ∷ []) ≡ (is_in n names || m == n)
unfolding is_in
is_in-append n m [] = ground arith
is_in-append n m (k ∷ names) = ground (arith, is_in-append n m names)

pub is_in-add :
    (n m : String) (names : List String) → is_in n (add m names) ≡ (m == n || is_in n names)
unfolding add
is_in-add n m names = elim (Bool-cases (m == n)) [
  | inl same ↦ ground (arith, is_in-append n m names, ap (λ k. is_in k names) ((eq_iff m n).0 same))
  | inr other ↦ ground (arith, is_in-append n m names)
]

-- What has not changed for an agent, and in the settings.
pub record Same (name : String) (e e' : PranaEngine) : Type 0 where
  pub prana : lookup name e'.prana ≡ lookup name e.prana
  pub cycle : lookup name e'.cycle ≡ lookup name e.cycle
  pub classes : e'.class_of ≡ e.class_of
  pub configs : e'.class_configs ≡ e.class_configs
  pub dirty : is_in name e.dirty ≡ true → is_in name e'.dirty ≡ true

module _ (costs : Dict String ℤ) where
  -- An agent that has been charged.
  unfoldable pub after : String → ℤ → ℕ → PranaEngine → PranaEngine
  after n p c e = record e {
    prana = insert n (charged (cost_of costs n e) p) e.prana;
    cycle = insert n (c + 1) e.cycle;
    dirty = add n e.dirty;
  }

  pub sleeps_after : String → ℤ → ℕ → PranaEngine → Bool
  sleeps_after n p c e = is_dormant (charged (cost_of costs n e) p) (max_age_of n e) (c + 1)

  pub record Charged (n : String) (e e1 : PranaEngine) (sleeps : Bool) : Type 0 where
    pub p : ℤ
    pub c : ℕ
    pub had : lookup n e.prana ≡ some p
    pub aged : lookup n e.cycle ≡ some c
    pub result : after n p c e ≡ e1
    pub slept : sleeps_after n p c e ≡ sleeps

  pub one-Charged :
      (n : String) (e e1 : PranaEngine) (sleeps : Bool)
      → metabolize_one costs n e ≡ some (e1, sleeps)
      → Charged n e e1 sleeps
  unfolding metabolize_one after sleeps_after
  one-Charged n e e1 sleeps h = elim (Option-cases (lookup n e.prana)) [
    | inl missing ↦ absurd (ground arith)
    | inr (p, had) ↦ elim (Option-cases (lookup n e.cycle)) [
      | inl missing ↦ absurd (ground arith)
      | inr (c, aged) ↦ record {
        p = p;
        c = c;
        had = had;
        aged = aged;
        result = ground arith;
        slept = ground arith;
      }
    ]
  ]

  pub after-Same :
      (n name : String) (p : ℤ) (c : ℕ) (e : PranaEngine)
      → (n == name) ≡ false
      → Same name e (after n p c e)
  unfolding after
  after-Same n name p c e other = record {
    prana = ground (arith, lookup-insert n name (charged (cost_of costs n e) p) e.prana);
    cycle = ground (arith, lookup-insert n name (c + 1) e.cycle);
    classes = refl;
    configs = refl;
    dirty = λ h. ground (arith, is_in-add name n e.dirty);
  }

  pub Same-trans :
      (name : String) (e e1 e2 : PranaEngine) → Same name e e1 → Same name e1 e2 → Same name e e2
  Same-trans name e e1 e2 a b = record {
    prana = b.prana ∙ a.prana;
    cycle = b.cycle ∙ a.cycle;
    classes = b.classes ∙ a.classes;
    configs = b.configs ∙ a.configs;
    dirty = λ h. b.dirty (a.dirty h);
  }

  -- The rest of the loop, after the first name.
  pub record Split (n : String) (names : List String) (e e' : PranaEngine) (dormant : List String)
      : Type 0 where
    pub e1 : PranaEngine
    pub sleeps : Bool
    pub rest : List String
    pub first : metabolize_one costs n e ≡ some (e1, sleeps)
    pub others : metabolize_names costs names e1 ≡ some (e', rest)
    pub named : (if sleeps then n ∷ rest else rest) ≡ dormant

  pub names-Split :
      (n : String) (names : List String) (e e' : PranaEngine) (dormant : List String)
      → metabolize_names costs (n ∷ names) e ≡ some (e', dormant)
      → Split n names e e' dormant
  unfolding metabolize_names
  names-Split n names e e' dormant h = elim (Option-cases (metabolize_one costs n e)) [
    | inl lost ↦ absurd (ground arith)
    | inr ((e1, sleeps), first) ↦ elim (Option-cases (metabolize_names costs names e1)) [
      | inl lost ↦ absurd (ground arith)
      | inr ((e2, rest), others) ↦
          let same : e2 ≡ e' = ground arith in
          record {
            e1 = e1;
            sleeps = sleeps;
            rest = rest;
            first = first;
            others = others ∙ ap (λ x. some (x, rest)) same;
            named = ground arith;
          }
    ]
  ]

  pub names-Same :
      (names : List String) (name : String) (e e' : PranaEngine) (dormant : List String)
      → metabolize_names costs names e ≡ some (e', dormant)
      → is_in name names ≡ false
      → Same name e e' × (is_in name dormant ≡ false)
  unfolding metabolize_names is_in
  names-Same [] name e e' dormant h out =
      let same : e ≡ e' = ground arith in
      (
        subst (Same name e) same
            (record { prana = refl; cycle = refl; classes = refl; configs = refl; dirty = λ k. k }),
        ground arith,
      )
  names-Same (n ∷ names) name e e' dormant h out =
      let split = names-Split n names e e' dormant h in
      let one = one-Charged n e split.e1 split.sleeps split.first in
      let (later, awake) =
        names-Same names name split.e1 e' split.rest split.others (ground arith) in
      let now = subst (Same name e) one.result (after-Same n name one.p one.c e (ground arith)) in
      (Same-trans name e split.e1 e' now later, ground (arith, split.named, awake))
