-- ===== src/Tests/PranaEngine.antt =====
-- A small engine: two agents, one of them nearly exhausted.
use agent_city.Prelude.{
  ℕ, ◌≡◌, refl, String, Bool, true, false, none, some, List, [], ◌∷◌, length, if◌then◌else◌,
}
use agent_city.Prelude.Key.{◌==◌, text_key}
use agent_city.Prelude.Dict.{lookup, insert}
use agent_city.Prelude.Int.{pos}
use agent_city.PranaEngine.{
  cost_of, max_age_of, PranaEngine, AgentRow, boot, load_rows, is_in, metabolize_batch, flush,
}
use agent_city.PranaEngine.Flush.{row_of, written}
use agent_city.PranaEngine.Whole.{Reach, booted}
use agent_city.PranaEngine.Reached.{Metabolized, Reach-metabolizes, Reach-flushes}

abbrev same_name : String → String → Bool
same_name a b = a == b

abbrev ada_row : AgentRow
ada_row = record {
  name = "ada";
  prana = pos 100;
  cell_cycle = 4;
  cell_active = true;
  prana_class = none;
  status = "citizen";
}

abbrev bob_row : AgentRow
bob_row = record {
  name = "bob";
  prana = pos 2;
  cell_cycle = 9;
  cell_active = true;
  prana_class = some "standard";
  status = "active";
}

abbrev asleep : PranaEngine
asleep = record {
  prana = [];
  cycle = [];
  class_of = [];
  active_status = [];
  dirty = [];
  class_configs = [];
  metabolize_count = 0;
  flush_count = 0;
  booted = false;
}

abbrev awake : PranaEngine
awake = (boot (ada_row ∷ bob_row ∷ []) none asleep).0

reached : Reach awake
reached = booted (ada_row ∷ bob_row ∷ []) none asleep

has_ada : lookup "ada" awake.prana ≡ some (pos 100)
unfolding boot load_rows lookup insert
has_ada = refl

ada_aged : lookup "ada" awake.cycle ≡ some 4
unfolding boot load_rows lookup insert
ada_aged = refl

Reach-metabolizes_example :
    (e' : PranaEngine) × (dormant : List String) × (metabolize_batch [] awake ≡ some (e', dormant))
    × Metabolized "ada" (pos 100) 4 (cost_of [] "ada" awake) (max_age_of "ada" awake) e' dormant
Reach-metabolizes_example = Reach-metabolizes reached [] "ada" (pos 100) 4 has_ada ada_aged

row_there : row_of "bob" (ada_row ∷ bob_row ∷ []) ≡ some bob_row
unfolding row_of
row_there = refl

Reach-flushes_example :
    (e' : PranaEngine) × (rows' : List AgentRow) × (count : ℕ) × (flush awake
        (ada_row ∷ bob_row ∷ [])
      ≡ some (e', rows', count))
    × (e'.dirty ≡ [])
    × (e'.prana ≡ awake.prana)
    × (count ≡ length awake.dirty)
    × (row_of "bob" rows'
        ≡ some (if is_in "bob" awake.dirty then written "bob" awake bob_row else bob_row))
Reach-flushes_example = Reach-flushes reached "bob" (ada_row ∷ bob_row ∷ []) bob_row row_there
