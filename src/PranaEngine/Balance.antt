-- ===== src/PranaEngine/Balance.antt =====
-- What credits, debits and a metabolic cycle do to the prana in memory.
use agent_city.Prelude.{◌≡◌, String, ◌&&◌, some, arith, eq_iff, if◌then◌else◌}
use agent_city.Prelude.Key.{◌==◌, text_key}
use agent_city.Prelude.Dict.{lookup, lookup-insert}
use agent_city.Prelude.Int.{ℤ, ◌-ℤ◌, leb_ℤ}
use agent_city.PranaEngine.{PranaEngine, get, debit}

-- A debit of a known agent succeeds exactly if its balance covers the amount; then the amount is
-- taken, and nothing else changes in any balance, and where it is refused nothing changes at all.
pub debit_lem :
    (name other : String) (p amount : ℤ) (e : PranaEngine)
    → lookup name e.prana ≡ some p
    → ((debit name amount e).1 ≡ leb_ℤ amount p)
      × (get other (debit name amount e).0
          ≡ (if (debit name amount e).1 && name == other then p -ℤ amount else get other e))
      × ((debit name amount e).0 ≡ (if (debit name amount e).1 then (debit name amount e).0 else e))
unfolding debit get
debit_lem name other p amount e there = (
  ground arith,
  ground (arith, lookup-insert name other (p -ℤ amount) e.prana, eq_iff name other),
  ground arith,
)
