-- ===== src/PranaEngine/Whole.antt =====
-- Every operation keeps the engine whole: prana once for each agent, and a cycle for each of them.
use agent_city.Prelude.{
  ℕ, ◌+◌, ◌≡◌, refl, sym, ap, ◌∙◌, String, Option, some, List, [], ◌∷◌, arith, eq_iff, Bool-cases,
  Option-cases, inl, inr,
}
use mathlib.Core.Path.{subst}
use agent_city.Prelude.Key.{◌==◌, text_key}
use agent_city.Prelude.Dict.{
  Dict, lookup, insert, lookup-insert, lookup-erase, Unique, Unique-insert, Unique-erase,
}
use agent_city.Prelude.Int.{ℤ, ◌+ℤ◌, ◌-ℤ◌, ltb_ℤ}
use agent_city.PranaEngine.{
  PranaEngine, ClassConfig, AgentRow, boot, load_rows, is_living, credit, debit, register_agent,
  remove_agent, metabolize_batch, metabolize_names, flush, class_or_standard, charged, cost_of,
}
use agent_city.PranaEngine.Flush.{HasCycles, flush-same}
use agent_city.PranaEngine.Cycle.{after, names_of, one-Charged, names-Split}

pub record IsWhole (e : PranaEngine) : Type 0 where
  pub once : Unique e.prana
  pub cycles : HasCycles e

-- Prana written for an agent that has it, or together with a cycle.
IsWhole-insert :
    (n : String) (p : ℤ) (c : ℕ) (e e' : PranaEngine)
    → e'.prana ≡ insert n p e.prana
    → e'.cycle ≡ insert n c e.cycle
    → IsWhole e
    → IsWhole e'
IsWhole-insert n p c e e' same_prana same_cycle whole = record {
  once = subst Unique (sym same_prana) (Unique-insert n p e.prana whole.once);
  cycles = λ m q had gone. elim (Bool-cases (n == m)) [
    | inl same ↦
        ground (arith, same, lookup-insert n m c e.cycle, ap (lookup m) (sym same_cycle) ∙ gone)
    | inr other ↦
        whole.cycles m q
          (ground (arith, other, lookup-insert n m p e.prana, ap (lookup m) (sym same_prana) ∙ had))
          (ground
            (arith, other, lookup-insert n m c e.cycle, ap (lookup m) (sym same_cycle) ∙ gone))
  ];
}

IsWhole-pay :
    (n : String) (p q : ℤ) (e e' : PranaEngine)
    → lookup n e.prana ≡ some q
    → e'.prana ≡ insert n p e.prana
    → e'.cycle ≡ e.cycle
    → IsWhole e
    → IsWhole e'
IsWhole-pay n p q e e' had same_prana same_cycle whole = record {
  once = subst Unique (sym same_prana) (Unique-insert n p e.prana whole.once);
  cycles = λ m q' had' gone. elim (Bool-cases (n == m)) [
    | inl same ↦
        whole.cycles m q (ap (λ k. lookup k e.prana) (sym ((eq_iff n m).0 same)) ∙ had)
          (ap (lookup m) (sym same_cycle) ∙ gone)
    | inr other ↦
        whole.cycles m q'
          (ground
            (arith, other, lookup-insert n m p e.prana, ap (lookup m) (sym same_prana) ∙ had'))
          (ap (lookup m) (sym same_cycle) ∙ gone)
  ];
}

IsWhole-same :
    (e e' : PranaEngine) → e'.prana ≡ e.prana → e'.cycle ≡ e.cycle → IsWhole e → IsWhole e'
IsWhole-same e e' same_prana same_cycle whole = record {
  once = subst Unique (sym same_prana) whole.once;
  cycles = λ m p had gone.
      whole.cycles m p (ap (lookup m) (sym same_prana) ∙ had)
        (ap (lookup m) (sym same_cycle) ∙ gone);
}

IsWhole-remove : (n : String) (e : PranaEngine) → IsWhole e → IsWhole (remove_agent n e)
unfolding remove_agent
IsWhole-remove n e whole = record {
  once = Unique-erase n e.prana whole.once;
  cycles = λ m p had gone. elim (Bool-cases (n == m)) [
    | inl same ↦ ground (arith, same, lookup-erase n m e.prana)
    | inr other ↦
        whole.cycles m p (ground (arith, other, lookup-erase n m e.prana))
          (ground (arith, other, lookup-erase n m e.cycle))
  ];
}

IsWhole-load : (rows : List AgentRow) (e : PranaEngine) → IsWhole e → IsWhole (load_rows rows e)
unfolding load_rows
IsWhole-load [] e whole = whole
IsWhole-load (r ∷ rows) e whole =
    let loaded = record e {
      prana = insert r.name r.prana e.prana;
      cycle = insert r.name r.cell_cycle e.cycle;
      class_of = insert r.name (class_or_standard r.prana_class) e.class_of;
      active_status = insert r.name r.cell_active e.active_status;
    } in
    elim (Bool-cases (is_living r.status)) [
      | inl living ↦ rw living (
          IsWhole-load rows loaded
            (IsWhole-insert r.name r.prana r.cell_cycle e loaded refl refl whole))
      | inr other ↦ rw other (IsWhole-load rows e whole)
    ]

IsWhole-credit :
    (n : String) (amount : ℤ) (e : PranaEngine) → IsWhole e → IsWhole (credit n amount e).0
unfolding credit
IsWhole-credit n amount e whole = elim (Option-cases (lookup n e.prana)) [
  | inl missing ↦ IsWhole-same e (credit n amount e).0 (ground arith) (ground arith) whole
  | inr (q, had) ↦
      IsWhole-pay n (q +ℤ amount) q e (credit n amount e).0 had (ground arith) (ground arith) whole
]

IsWhole-debit :
    (n : String) (amount : ℤ) (e : PranaEngine) → IsWhole e → IsWhole (debit n amount e).0
unfolding debit
IsWhole-debit n amount e whole = elim (Option-cases (lookup n e.prana)) [
  | inl missing ↦ IsWhole-same e (debit n amount e).0 (ground arith) (ground arith) whole
  | inr (q, had) ↦ elim (Bool-cases (ltb_ℤ q amount)) [
    | inl poor ↦ IsWhole-same e (debit n amount e).0 (ground arith) (ground arith) whole
    | inr rich ↦
        IsWhole-pay n (q -ℤ amount) q e (debit n amount e).0 had (ground arith) (ground arith) whole
  ]
]

after-IsWhole :
    (costs : Dict String ℤ) (n : String) (p : ℤ) (c : ℕ) (e : PranaEngine)
    → IsWhole e
    → IsWhole (after costs n p c e)
unfolding after
after-IsWhole costs n p c e whole =
    IsWhole-insert n (charged (cost_of costs n e) p) (c + 1) e (after costs n p c e) refl refl whole

IsWhole-names :
    (costs : Dict String ℤ) (names : List String) (e e' : PranaEngine) (dormant : List String)
    → metabolize_names costs names e ≡ some (e', dormant)
    → IsWhole e
    → IsWhole e'
unfolding metabolize_names
IsWhole-names costs [] e e' dormant h whole = subst IsWhole (ground arith) whole
IsWhole-names costs (n ∷ names) e e' dormant h whole =
    let split = names-Split costs n names e e' dormant h in
    let one = one-Charged costs n e split.e1 split.sleeps split.first in
    IsWhole-names costs names split.e1 e' split.rest split.others
      (subst IsWhole one.result (after-IsWhole costs n one.p one.c e whole))

-- One call of an operation.
pub data Step (e : PranaEngine) : PranaEngine → Type 0 where
  booting :
      (rows : List AgentRow) (cs : Option (Dict String ClassConfig)) → Step e (boot rows cs e).0
  earning : (n : String) (amount : ℤ) → Step e (credit n amount e).0
  paying : (n : String) (amount : ℤ) → Step e (debit n amount e).0
  joining : (n : String) (p : ℤ) (c : ℕ) (cls : String) → Step e (register_agent n p c cls e)
  leaving : (n : String) → Step e (remove_agent n e)
  metabolizing :
      (costs : Dict String ℤ) (e' : PranaEngine) (dormant : List String)
      → metabolize_batch costs e ≡ some (e', dormant)
      → Step e e'
  flushing :
      (rows rows' : List AgentRow) (count : ℕ) (e' : PranaEngine)
      → flush e rows ≡ some (e', rows', count)
      → Step e e'

boot-IsWhole :
    (rows : List AgentRow) (cs : Option (Dict String ClassConfig)) (e : PranaEngine)
    → IsWhole (boot rows cs e).0
unfolding boot lookup
boot-IsWhole rows cs e =
    IsWhole-load rows _ (record { once = tt; cycles = λ m p had gone. ground arith })

Step-IsWhole : {e e' : PranaEngine} → Step e e' → IsWhole e → IsWhole e'
unfolding metabolize_batch register_agent
Step-IsWhole {e} (booting rows cs) whole = boot-IsWhole rows cs e
Step-IsWhole {e} (earning n amount) whole = IsWhole-credit n amount e whole
Step-IsWhole {e} (paying n amount) whole = IsWhole-debit n amount e whole
Step-IsWhole {e} (joining n p c cls) whole =
    IsWhole-insert n p c e (register_agent n p c cls e) refl refl whole
Step-IsWhole {e} (leaving n) whole = IsWhole-remove n e whole
Step-IsWhole {e} (metabolizing costs e' dormant h) whole =
    elim (Option-cases (metabolize_names costs (names_of e.prana) e)) [
      | inl lost ↦ absurd (ground arith)
      | inr ((e1, named), done) ↦
          let counted : record e1 { metabolize_count = e1.metabolize_count + 1 } ≡ e' =
            ground arith in
          subst IsWhole counted (
            IsWhole-same e1 _ refl refl
              (IsWhole-names costs (names_of e.prana) e e1 named done whole))
    ]
Step-IsWhole {e} (flushing rows rows' count e' h) whole =
    let (same_prana, same_cycle) = flush-same e e' rows rows' count h in
    IsWhole-same e e' same_prana same_cycle whole

-- From a start on any table of agents.
pub data Reach : PranaEngine → Type 0 where
  booted :
      (rows : List AgentRow) (cs : Option (Dict String ClassConfig)) (e : PranaEngine)
      → Reach (boot rows cs e).0
  stepped : {e e' : PranaEngine} → Reach e → Step e e' → Reach e'

pub Reach-IsWhole : {e : PranaEngine} → Reach e → IsWhole e
Reach-IsWhole (booted rows cs e) = boot-IsWhole rows cs e
Reach-IsWhole (stepped earlier step) = Step-IsWhole step (Reach-IsWhole earlier)
