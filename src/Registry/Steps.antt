-- ===== src/Registry/Steps.antt =====
-- The operations on the registry in any order.
use agent_city.Prelude.{◌≡◌, String, Bool, true, Option, List}
use agent_city.Prelude.Int.{ℤ}
use agent_city.Access.{Membrane, ClaimLevel}
use agent_city.Registry.{Codec, Registry, Identity, verify_event_chain}
use agent_city.Registry.Lifecycle.{
  Jiva, Profile, discover, register, activate, freeze, unfreeze, revive, exile, archive,
  assign_role, update_claim_level,
}
use agent_city.Registry.Prana.{
  AgentClass, donate_prana, award_prana, debit_prana, burn_prana, mint_prana, metabolize_all,
}
use agent_city.Registry.Operators.{register_operator, update_operator_access}
use agent_city.Registry.Chain.{
  IsChained, Keeps-whole, transition-IsChained, discover-IsChained, register-IsChained,
  freeze-IsChained, unfreeze-IsChained, revive-IsChained, exile-IsChained, archive-IsChained,
  assign_role-IsChained, update_claim_level-IsChained, donate-IsChained, award-IsChained,
  debit-IsChained, burn-IsChained, mint-IsChained, metabolize-IsChained,
  register_operator-IsChained, update_operator_access-IsChained,
}

-- One call of an operation on the registry.
pub data Step (codec : Codec) (r : Registry) : Registry → Type 0 where
  discovers :
      (now name : String) (jiva : Jiva) (class : String) (profile : Option Profile)
      → Step codec r (discover codec now name jiva class profile r)
  registers :
      (now name : String) (jiva : Jiva) (class : String) (identity : Identity) (summary : String)
      (refused : Bool) (profile : Option Profile)
      → Step codec r (register codec now name jiva class identity summary refused profile r).0
  activates : (now name : String) → Step codec r (activate codec now name r)
  freezes :
      (now name reason author : String) (membrane : Option Membrane)
      → Step codec r (freeze codec now name reason author membrane r).0
  unfreezes :
      (now name reason author : String) (membrane : Option Membrane)
      → Step codec r (unfreeze codec now name reason author membrane r).0
  revives :
      (now name : String) (dose : ℤ) (sponsor reason author : String) (membrane : Option Membrane)
      → Step codec r (revive codec now name dose sponsor reason author membrane r).0
  exiles :
      (now name reason author : String) (membrane : Option Membrane)
      → Step codec r (exile codec now name reason author membrane r).0
  archives :
      (now name reason author : String) (membrane : Option Membrane)
      → Step codec r (archive codec now name reason author membrane r).0
  assigns :
      (now name role reason author : String) (membrane : Option Membrane)
      → Step codec r (assign_role codec now name role reason author membrane r).0
  levels :
      (now name : String) (target : ClaimLevel) (author : String) (membrane : Option Membrane)
      → Step codec r (update_claim_level codec now name target author membrane r).0
  donates :
      (now donor recipient : String) (amount : ℤ) (reason : String)
      → Step codec r (donate_prana codec now donor recipient amount reason r).0
  awards :
      (now name : String) (amount : ℤ) (source : String)
      → Step codec r (award_prana codec now name amount source r).0
  debits :
      (now name : String) (amount : ℤ) (reason : String)
      → Step codec r (debit_prana codec now name amount reason r).0
  burns :
      (now : String) (refused : Bool) (amount : ℤ) (reason source : String)
      → Step codec r (burn_prana codec now refused amount reason source r).0
  mints :
      (now : String) (refused : Bool) (target : String) (amount : ℤ) (reason category : String)
      → Step codec r (mint_prana codec now refused target amount reason category r).0
  metabolizes :
      (now : String) (classes : String → AgentClass) (busy : List String)
      → Step codec r (metabolize_all codec now classes busy r).0
  registers_operator :
      (short : String → String) (now name type class by author : String)
      (membrane : Option Membrane)
      → Step codec r (register_operator codec short now name type class by author membrane r).0
  updates_operator :
      (now name class reason author : String) (membrane : Option Membrane)
      → Step codec r (update_operator_access codec now name class reason author membrane r).0

Step-IsChained :
    (codec : Codec) {r r' : Registry} (step : Step codec r r')
    → IsChained codec r
    → IsChained codec r'
unfolding activate
Step-IsChained codec (discovers now a b c d) h = discover-IsChained codec now a b c d _ h
Step-IsChained codec (registers now a b c d e f g) h =
    Keeps-whole (register-IsChained codec now a b c d e f g _ h)
Step-IsChained codec (activates now a) h = transition-IsChained codec now a _ _ _ _ h
Step-IsChained codec (freezes now a b c d) h = Keeps-whole (freeze-IsChained codec now a b c d _ h)
Step-IsChained codec (unfreezes now a b c d) h =
    Keeps-whole (unfreeze-IsChained codec now a b c d _ h)
Step-IsChained codec (revives now a b c d e f) h =
    Keeps-whole (revive-IsChained codec now a b c d e f _ h)
Step-IsChained codec (exiles now a b c d) h = Keeps-whole (exile-IsChained codec now a b c d _ h)
Step-IsChained codec (archives now a b c d) h =
    Keeps-whole (archive-IsChained codec now a b c d _ h)
Step-IsChained codec (assigns now a b c d e) h =
    Keeps-whole (assign_role-IsChained codec now a b c d e _ h)
Step-IsChained codec (levels now a b c d) h =
    Keeps-whole (update_claim_level-IsChained codec now a b c d _ h)
Step-IsChained codec (donates now a b c d) h = Keeps-whole (donate-IsChained codec now a b c d _ h)
Step-IsChained codec (awards now a b c) h = Keeps-whole (award-IsChained codec now a b c _ h)
Step-IsChained codec (debits now a b c) h = Keeps-whole (debit-IsChained codec now a b c _ h)
Step-IsChained codec (burns now a b c d) h = Keeps-whole (burn-IsChained codec now a b c d _ h)
Step-IsChained codec (mints now a b c d e) h = Keeps-whole (mint-IsChained codec now a b c d e _ h)
Step-IsChained codec (metabolizes now a b) h = metabolize-IsChained codec now a b _ h
Step-IsChained codec (registers_operator s now a b c d e f) h =
    Keeps-whole (register_operator-IsChained codec now s a b c d e f _ h)
Step-IsChained codec (updates_operator now a b c d e) h =
    Keeps-whole (update_operator_access-IsChained codec now a b c d e _ h)

-- Calls one after the other.
pub data Steps (codec : Codec) (r : Registry) : Registry → Type 0 where
  none_more : Steps codec r r
  and_then : {r' r'' : Registry} → Steps codec r r' → Step codec r' r'' → Steps codec r r''

-- From an event ledger that verify_event_chain accepts, whatever the registry is asked to do, and whatever
-- of that it refuses, verify_event_chain accepts the ledger afterwards.
pub Steps-verified :
    (codec : Codec) {r r' : Registry} (steps : Steps codec r r')
    → verify_event_chain codec r ≡ true
    → verify_event_chain codec r' ≡ true
Steps-verified codec none_more h = h
Steps-verified codec (and_then steps step) h =
    (Step-IsChained codec step (record { verified = Steps-verified codec steps h })).verified
