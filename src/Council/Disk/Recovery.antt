-- ===== src/Council/Disk/Recovery.antt =====
-- What the backups are good for: which state is loaded after damage, and what a load that fails
-- leaves behind.
use agent_city.Prelude.{ℕ, zero, suc, ◌≤◌, ◌≡◌, List, [], ◌∷◌, arith, length}
use agent_city.Council.{Council, fresh}
use agent_city.Council.Disk.{corrupt, Disk, auto_save, load}
use agent_city.Council.Disk.RoundTrip.{IsKeyed, restore-to_dict}

-- The saves of one council after another.
abbrev pub saves : List Council → Disk → Disk
saves [] d = d
saves (c ∷ cs) d = saves cs (auto_save c d)

-- The `k` newest files no longer decode.
abbrev pub damage : ℕ → Disk → Disk
damage zero d = d
damage (suc zero) d = record d { primary = corrupt }
damage (suc (suc zero)) d = record d { primary = corrupt; bak = corrupt }
damage (suc (suc (suc zero))) d = record d { primary = corrupt; bak = corrupt; bak_1 = corrupt }
damage (suc (suc (suc (suc zero)))) d = record d {
  primary = corrupt;
  bak = corrupt;
  bak_1 = corrupt;
  bak_2 = corrupt;
}
damage _ d = record d {
  primary = corrupt;
  bak = corrupt;
  bak_1 = corrupt;
  bak_2 = corrupt;
  bak_3 = corrupt;
}

-- After a save of a council in whose dicts no key stands twice, and up to five more saves, with as
-- many of the newest files damaged as there were later saves, a start loads the council that the first
-- of them saved.
pub load_after_damage :
    (c : Council) (later : List Council) (d : Disk)
    → IsKeyed c
    → length later ≤ 5
    → load (damage (length later) (saves later (auto_save c d))) ≡ c
unfolding load auto_save
load_after_damage c [] d k h = rw (restore-to_dict c fresh k)
load_after_damage c (c₁ ∷ []) d k h = rw (restore-to_dict c fresh k)
load_after_damage c (c₁ ∷ c₂ ∷ []) d k h = rw (restore-to_dict c fresh k)
load_after_damage c (c₁ ∷ c₂ ∷ c₃ ∷ []) d k h = rw (restore-to_dict c fresh k)
load_after_damage c (c₁ ∷ c₂ ∷ c₃ ∷ c₄ ∷ []) d k h = rw (restore-to_dict c fresh k)
load_after_damage c (c₁ ∷ c₂ ∷ c₃ ∷ c₄ ∷ c₅ ∷ []) d k h = rw (restore-to_dict c fresh k)
load_after_damage c (c₁ ∷ c₂ ∷ c₃ ∷ c₄ ∷ c₅ ∷ c₆ ∷ cs) d k h = absurd (omega arith)
