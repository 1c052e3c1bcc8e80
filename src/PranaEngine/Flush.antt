-- ===== src/PranaEngine/Flush.antt =====
-- What a flush leaves in SQLite, and that a cycle and a flush do not fail on an engine that is whole.
use agent_city.Prelude.{
  ℕ, ◌+◌, ◌≡◌, ◌≢◌, refl, sym, ap, ◌∙◌, String, Option, none, some, List, [], ◌∷◌, arith, eq_iff,
  if◌then◌else◌, Bool-cases, Option-cases, inl, inr, length,
}
use agent_city.Prelude.Key.{◌==◌, text_key}
use agent_city.Prelude.Dict.{lookup}
use agent_city.Prelude.Int.{ℤ}
use agent_city.PranaEngine.{PranaEngine, AgentRow, is_in, update_row, flush_names, flush, get_cycle}

-- Every agent with prana has a cycle.
abbrev pub HasCycles : PranaEngine → Type 0
HasCycles e = (n : String) (p : ℤ) → lookup n e.prana ≡ some p → lookup n e.cycle ≢ none

-- The row of an agent: names are the primary key.
unfoldable pub row_of : String → List AgentRow → Option AgentRow
row_of name [] = none
row_of name (r ∷ rows) = if r.name == name then some r else row_of name rows

-- A row with what memory holds of its agent.
unfoldable pub written : String → PranaEngine → AgentRow → AgentRow
unfolding get_cycle
written name e r = elim (lookup name e.prana) [
  | none ↦ r
  | some p ↦ record r { prana = p; cell_cycle = get_cycle name e }
]

written-none :
    (name : String) (e : PranaEngine) (r : AgentRow)
    → lookup name e.prana ≡ none
    → written name e r ≡ r
unfolding written
written-none name e r missing = ground arith

written-some :
    (name : String) (e : PranaEngine) (p : ℤ) (c : ℕ)
    → lookup name e.prana ≡ some p
    → lookup name e.cycle ≡ some c
    → (r : AgentRow) → written name e r ≡ record r { prana = p; cell_cycle = c }
unfolding written
written-some name e p c had aged r = ground arith

row_of-update :
    (n name : String) (p : ℤ) (c : ℕ) (rows : List AgentRow) (r : AgentRow)
    → row_of name rows ≡ some r
    → row_of name (update_row n p c rows)
      ≡ some (if n == name then record r { prana = p; cell_cycle = c } else r)
unfolding row_of update_row
row_of-update n name p c [] r h = ground arith
row_of-update n name p c (q ∷ rows) r h =
    ground
      (arith, eq_iff q.name name, eq_iff q.name n, eq_iff n name, row_of-update n name p c rows r)

module _ (e : PranaEngine) (whole : HasCycles e) where
  names-row :
      (names : List String) (name : String) (rows : List AgentRow) (r : AgentRow)
      → row_of name rows ≡ some r
      → (rows' : List AgentRow) × (flush_names names e rows ≡ some rows')
        × (row_of name rows' ≡ some (if is_in name names then written name e r else r))
  unfolding flush_names is_in
  names-row [] name rows r h = (rows, refl, h)
  names-row (n ∷ names) name rows r h = elim (Option-cases (lookup n e.prana)) [
    | inl missing ↦
        let (rows', done, there) = names-row names name rows r h in
        (
          rows',
          ground arith,
          elim (Bool-cases (n == name)) [
            | inl same ↦
                let here : lookup name e.prana ≡ none =
                  ap (λ k. lookup k e.prana) (sym ((eq_iff n name).0 same)) ∙ missing in
                there ∙ ground (arith, written-none name e r here)
            | inr other ↦ there ∙ ground (arith, other)
          ],
        )
    | inr (p, had) ↦ elim (Option-cases (lookup n e.cycle)) [
      | inl lost ↦ absurd (whole n p had lost)
      | inr (c, aged) ↦
          let r1 = if n == name then record r { prana = p; cell_cycle = c } else r in
          let (rows', done, there) =
            names-row names name (update_row n p c rows) r1 (row_of-update n name p c rows r h) in
          (
            rows',
            ground arith,
            elim (Bool-cases (n == name)) [
              | inl same ↦
                  let eq = sym ((eq_iff n name).0 same) in
                  let written_now =
                    written-some name e p c (ap (λ k. lookup k e.prana) eq ∙ had)
                      (ap (λ k. lookup k e.cycle) eq ∙ aged) in
                  there ∙ ground (arith, same, written_now r, written_now r1)
              | inr other ↦ there ∙ ground (arith, other)
            ],
          )
    ]
  ]

  pub flush-row :
      (name : String) (rows : List AgentRow) (r : AgentRow)
      → row_of name rows ≡ some r
      → (e' : PranaEngine) × (rows' : List AgentRow) × (count : ℕ) × (flush e rows
          ≡ some (e', rows', count))
        × (e'.dirty ≡ [])
        × (e'.prana ≡ e.prana)
        × (count ≡ length e.dirty)
        × (row_of name rows' ≡ some (if is_in name e.dirty then written name e r else r))
  unfolding flush is_in
  flush-row name rows r there = at_dirty e.dirty refl
    where
      at_dirty :
          (names : List String)
          → names ≡ e.dirty
          → (e' : PranaEngine) × (rows' : List AgentRow) × (count : ℕ) × (flush e rows
              ≡ some (e', rows', count))
            × (e'.dirty ≡ [])
            × (e'.prana ≡ e.prana)
            × (count ≡ length e.dirty)
            × (row_of name rows' ≡ some (if is_in name e.dirty then written name e r else r))
      at_dirty [] eq = (
        e,
        rows,
        0,
        ground arith,
        sym eq,
        refl,
        ground arith,
        there ∙ ap (λ d. some (if is_in name d then written name e r else r)) eq,
      )
      at_dirty (n ∷ names) eq =
          let (rows', done, found) = names-row (n ∷ names) name rows r there in
          (
            record e { dirty = []; flush_count = e.flush_count + 1 },
            rows',
            length (n ∷ names),
            ground arith,
            refl,
            refl,
            ap length eq,
            found ∙ ap (λ d. some (if is_in name d then written name e r else r)) eq,
          )

-- A flush changes nothing that an agent has in memory.
pub flush-same :
    (e e' : PranaEngine) (rows rows' : List AgentRow) (count : ℕ)
    → flush e rows ≡ some (e', rows', count)
    → (e'.prana ≡ e.prana) × (e'.cycle ≡ e.cycle)
unfolding flush
flush-same e e' rows rows' count h = (ground arith, ground arith)
