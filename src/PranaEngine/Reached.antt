-- ===== src/PranaEngine/Reached.antt =====
-- The cycle and the flush of every engine that can be reached: neither fails.
use agent_city.Prelude.{
  ℕ, ◌+◌, ◌≡◌, refl, true, ◌&&◌, ◌||◌, String, some, List, [], length, if◌then◌else◌,
}
use agent_city.Prelude.Key.{text_key}
use agent_city.Prelude.Dict.{Dict, lookup}
use agent_city.Prelude.Int.{ℤ, pos, ◌-ℤ◌, ltb_ℤ, leb_ℤ}
use agent_city.PranaEngine.{
  PranaEngine, AgentRow, is_in, metabolize_batch, flush, cost_of, max_age_of, charged, is_dormant,
}
use agent_city.PranaEngine.Cycle.Outcomes.{Outcome, metabolize_batch-Outcome}
use agent_city.PranaEngine.Flush.{row_of, written, flush-row}
use agent_city.PranaEngine.Whole.{Reach, Reach-IsWhole}

-- An agent with prana `p` at cycle `c`, after a metabolic cycle in which it costs `cost` and its class lives
-- for `max_age` cycles, or for ever if that is negative.
pub record Metabolized (name : String) (p : ℤ) (c : ℕ) (cost max_age : ℤ) (e' : PranaEngine)
    (dormant : List String) : Type 0 where
  pub left : ℤ
  pub is_left : left ≡ (if ltb_ℤ (pos 0) cost then p -ℤ cost else p)
  pub prana : lookup name e'.prana ≡ some left
  pub cycle : lookup name e'.cycle ≡ some (c + 1)
  pub dirty : is_in name e'.dirty ≡ true
  pub sleeps :
      is_in name dormant
      ≡ (leb_ℤ left (pos 0) || (leb_ℤ (pos 0) max_age && leb_ℤ max_age (pos (c + 1))))

Outcome-Metabolized :
    (costs : Dict String ℤ) (name : String) (p : ℤ) (c : ℕ) (e e' : PranaEngine)
    (dormant : List String)
    → Outcome costs name p c e e' dormant
    → Metabolized name p c (cost_of costs name e) (max_age_of name e) e' dormant
unfolding charged is_dormant
Outcome-Metabolized costs name p c e e' dormant on = record {
  left = charged (cost_of costs name e) p;
  is_left = refl;
  prana = on.prana;
  cycle = on.cycle;
  dirty = on.dirty;
  sleeps = on.sleeps;
}

-- In every engine that a sequence of operations reaches from a boot, a metabolic cycle returns: every agent
-- in memory has its prana less its cost, where the cost is positive, and is one cycle older and to be
-- flushed; and it is named dormant exactly if no prana is left, or its class has an age limit and that is
-- reached.
pub Reach-metabolizes :
    {e : PranaEngine} (reached : Reach e) (costs : Dict String ℤ) (name : String) (p : ℤ) (c : ℕ)
    → lookup name e.prana ≡ some p
    → lookup name e.cycle ≡ some c
    → (e' : PranaEngine) × (dormant : List String) × (metabolize_batch costs e ≡ some (e', dormant))
      × Metabolized name p c (cost_of costs name e) (max_age_of name e) e' dormant
Reach-metabolizes {e} reached costs name p c had aged =
    let whole = Reach-IsWhole reached in
    let (e', dormant, done, on) = metabolize_batch-Outcome costs e whole.once whole.cycles in
    (e', dormant, done, Outcome-Metabolized costs name p c e e' dormant (on name p c had aged))

-- In every engine that a sequence of operations reaches from a boot, a flush returns, with nothing
-- left to flush and the same prana in memory; and in the table the row of each agent that was to be
-- flushed holds the prana and the cycle in memory, where memory has the agent, and every other row is
-- as it was.
pub Reach-flushes :
    {e : PranaEngine} (reached : Reach e) (name : String) (rows : List AgentRow) (r : AgentRow)
    → row_of name rows ≡ some r
    → (e' : PranaEngine) × (rows' : List AgentRow) × (count : ℕ) × (flush e rows
        ≡ some (e', rows', count))
      × (e'.dirty ≡ [])
      × (e'.prana ≡ e.prana)
      × (count ≡ length e.dirty)
      × (row_of name rows' ≡ some (if is_in name e.dirty then written name e r else r))
Reach-flushes {e} reached name rows r there =
    flush-row e (Reach-IsWhole reached).cycles name rows r there
