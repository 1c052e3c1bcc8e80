-- ===== src/PranaEngine.antt =====
-- city/prana_engine.py: prana in memory, over the table `agents` in SQLite. The table is its columns that
-- the engine reads or writes. A set of names is a list without repetition.
pub mod Balance
pub mod Cycle
pub mod Flush
pub mod Whole
pub mod Reached
use agent_city.Prelude.{
  ℕ, ◌+◌, String, Bool, true, false, not, ◌&&◌, ◌||◌, Option, none, some, List, [], ◌∷◌, ◌++◌,
  length, map, keep, if◌then◌else◌,
}
use agent_city.Prelude.Key.{◌==◌, text_key}
use agent_city.Prelude.Dict.{Dict, lookup, contains, insert, erase}
use agent_city.Prelude.Int.{ℤ, pos, ◌+ℤ◌, ◌-ℤ◌, leb_ℤ, ltb_ℤ}

-- A class of agents in city.yaml: the keys that may be missing are options.
pub record ClassConfig : Type 0 where
  pub metabolic_cost : Option ℤ
  pub max_age : Option ℤ

pub record PranaEngine : Type 0 where
  pub prana : Dict String ℤ
  pub cycle : Dict String ℕ
  pub class_of : Dict String String
  pub active_status : Dict String Bool
  pub dirty : List String
  pub class_configs : Dict String ClassConfig
  pub metabolize_count : ℕ
  pub flush_count : ℕ
  pub booted : Bool

-- A row of `agents`.
pub record AgentRow : Type 0 where
  pub name : String
  pub prana : ℤ
  pub cell_cycle : ℕ
  pub cell_active : Bool
  pub prana_class : Option String
  pub status : String

unfoldable pub is_in : String → List String → Bool
is_in name [] = false
is_in name (n ∷ names) = n == name || is_in name names

-- `self._dirty.add(name)` and `self._dirty.discard(name)`
unfoldable pub add : String → List String → List String
unfolding is_in
add name names = if is_in name names then names else names ++ name ∷ []

unfoldable pub discard : String → List String → List String
discard name names = keep (λ n. not (n == name)) names

abbrev get_or {ℓ} : {A : Type ℓ} → Option A → A → A
get_or none default = default
get_or (some a) default = a

unfoldable pub get : String → PranaEngine → ℤ
get name e = get_or (lookup name e.prana) (pos 0)

unfoldable pub get_cycle : String → PranaEngine → ℕ
get_cycle name e = get_or (lookup name e.cycle) 0

unfoldable pub has : String → PranaEngine → Bool
has name e = contains name e.prana

abbrev pub is_living : String → Bool
is_living status = status == "citizen" || status == "active"

-- `row["prana_class"] or "standard"`
abbrev pub class_or_standard : Option String → String
class_or_standard none = "standard"
class_or_standard (some c) = if c == "" then "standard" else c

-- The loop of `boot`, over the rows that the query selects.
unfoldable pub load_rows : List AgentRow → PranaEngine → PranaEngine
load_rows [] e = e
load_rows (r ∷ rows) e =
    let loaded = record e {
      prana = insert r.name r.prana e.prana;
      cycle = insert r.name r.cell_cycle e.cycle;
      class_of = insert r.name (class_or_standard r.prana_class) e.class_of;
      active_status = insert r.name r.cell_active e.active_status;
    } in
    load_rows rows (if is_living r.status then loaded else e)

abbrev or_configs :
    Option (Dict String ClassConfig) → Dict String ClassConfig → Dict String ClassConfig
or_configs none old = old
or_configs (some []) old = old
or_configs (some (c ∷ cs)) old = c ∷ cs

unfoldable pub boot :
    List AgentRow → Option (Dict String ClassConfig) → PranaEngine → PranaEngine × ℕ
unfolding load_rows
boot rows agent_classes e = (
  load_rows rows (record e {
    prana = [];
    cycle = [];
    class_of = [];
    active_status = [];
    dirty = [];
    class_configs = or_configs agent_classes e.class_configs;
    booted = true;
  }),
  length (keep (λ r. is_living r.status) rows),
)

unfoldable pub credit : String → ℤ → PranaEngine → PranaEngine × ℤ
credit name amount e = elim (lookup name e.prana) [
  | none ↦ (e, pos 0)
  | some p ↦ (
    record e { prana = insert name (p +ℤ amount) e.prana; dirty = add name e.dirty },
    p +ℤ amount,
  )
]

unfoldable pub debit : String → ℤ → PranaEngine → PranaEngine × Bool
debit name amount e = elim (lookup name e.prana) [
  | none ↦ (e, false)
  | some p ↦
      if ltb_ℤ p amount
      then (e, false)
      else (record e { prana = insert name (p -ℤ amount) e.prana; dirty = add name e.dirty }, true)
]

unfoldable pub register_agent : String → ℤ → ℕ → String → PranaEngine → PranaEngine
register_agent name prana cycle prana_class e = record e {
  prana = insert name prana e.prana;
  cycle = insert name cycle e.cycle;
  class_of = insert name prana_class e.class_of;
  active_status = insert name true e.active_status;
}

unfoldable pub remove_agent : String → PranaEngine → PranaEngine
remove_agent name e = record e {
  prana = erase name e.prana;
  cycle = erase name e.cycle;
  class_of = erase name e.class_of;
  active_status = erase name e.active_status;
  dirty = discard name e.dirty;
}

abbrev cost_in : Option ClassConfig → ℤ → ℤ
cost_in none default = default
cost_in (some c) default = get_or c.metabolic_cost default

abbrev age_in : Option ClassConfig → ℤ → ℤ
age_in none default = default
age_in (some c) default = get_or c.max_age default

-- The cost of one agent: its domain's, or its class's, or the standard one, or 3.
unfoldable pub cost_of : Dict String ℤ → String → PranaEngine → ℤ
cost_of domain_costs name e = get_or (lookup name domain_costs) (
    cost_in (lookup (get_or (lookup name e.class_of) "standard") e.class_configs)
      (cost_in (lookup "standard" e.class_configs) (pos 3)))

unfoldable pub max_age_of : String → PranaEngine → ℤ
max_age_of name e =
    age_in (lookup (get_or (lookup name e.class_of) "standard") e.class_configs)
      (age_in (lookup "standard" e.class_configs) (pos 432))

unfoldable pub charged : ℤ → ℤ → ℤ
charged cost p = if ltb_ℤ (pos 0) cost then p -ℤ cost else p

-- Exhausted, or past an age limit that is not negative.
unfoldable pub is_dormant : ℤ → ℤ → ℕ → Bool
is_dormant prana max_age cycle =
    leb_ℤ prana (pos 0) || leb_ℤ (pos 0) max_age && leb_ℤ max_age (pos cycle)

-- One turn of the loop; `none` is the `KeyError` of an agent without prana or without a cycle.
unfoldable pub metabolize_one : Dict String ℤ → String → PranaEngine → Option (PranaEngine × Bool)
unfolding cost_of max_age_of charged is_dormant
metabolize_one domain_costs name e = elim (lookup name e.prana) [
  | none ↦ none
  | some p ↦ elim (lookup name e.cycle) [
    | none ↦ none
    | some c ↦
        let p' = charged (cost_of domain_costs name e) p in
        some (
          record e {
            prana = insert name p' e.prana;
            cycle = insert name (c + 1) e.cycle;
            dirty = add name e.dirty;
          },
          is_dormant p' (max_age_of name e) (c + 1),
        )
  ]
]

unfoldable pub metabolize_names :
    Dict String ℤ → List String → PranaEngine → Option (PranaEngine × List String)
unfolding metabolize_one
metabolize_names domain_costs [] e = some (e, [])
metabolize_names domain_costs (n ∷ names) e = elim (metabolize_one domain_costs n e) [
  | none ↦ none
  | some (e', sleeps) ↦ elim (metabolize_names domain_costs names e') [
    | none ↦ none
    | some (e'', dormant) ↦ some (e'', if sleeps then n ∷ dormant else dormant)
  ]
]

unfoldable pub metabolize_batch : Dict String ℤ → PranaEngine → Option (PranaEngine × List String)
unfolding metabolize_names
metabolize_batch domain_costs e =
    elim (metabolize_names domain_costs (map (λ entry. entry.0) e.prana) e) [
      | none ↦ none
      | some (e', dormant) ↦
          some (record e' { metabolize_count = e'.metabolize_count + 1 }, dormant)
    ]

-- `UPDATE agents SET prana = ?, cell_cycle = ? WHERE name = ?`
unfoldable pub update_row : String → ℤ → ℕ → List AgentRow → List AgentRow
update_row name p c [] = []
update_row name p c (r ∷ rows) =
    let rest = update_row name p c rows in
    (if r.name == name then record r { prana = p; cell_cycle = c } else r) ∷ rest

-- The batch; `none` is the `KeyError` of an agent without a cycle, which stops it before it runs.
unfoldable pub flush_names : List String → PranaEngine → List AgentRow → Option (List AgentRow)
flush_names [] e rows = some rows
flush_names (n ∷ names) e rows = elim (lookup n e.prana) [
  | none ↦ flush_names names e rows
  | some p ↦ elim (lookup n e.cycle) [
    | none ↦ none
    | some c ↦ flush_names names e (update_row n p c rows)
  ]
]

unfoldable pub flush : PranaEngine → List AgentRow → Option (PranaEngine × List AgentRow × ℕ)
unfolding flush_names update_row
flush e rows = elim e.dirty [
  | [] ↦ some (e, rows, 0)
  | n ∷ names ↦ elim (flush_names (n ∷ names) e rows) [
    | none ↦ none
    | some rows' ↦
        some (record e { dirty = []; flush_count = e.flush_count + 1 }, rows', length (n ∷ names))
  ]
]

pub record Stats : Type 0 where
  pub agents_in_memory : ℕ
  pub dirty_count : ℕ
  pub metabolize_cycles : ℕ
  pub flush_count : ℕ
  pub booted : Bool

unfoldable pub stats : PranaEngine → Stats
stats e = record {
  agents_in_memory = length e.prana;
  dirty_count = length e.dirty;
  metabolize_cycles = e.metabolize_count;
  flush_count = e.flush_count;
  booted = e.booted;
}
