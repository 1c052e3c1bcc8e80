-- ===== src/Registry/Chain.antt =====
-- The ledger of events stays whole, whatever the registry is asked to do.
use agent_city.Prelude.{
  ◌≡◌, refl, String, Bool, true, not, Option, List, [], ◌∷◌, ◌++◌, arith, if_either, option_either,
}
use agent_city.Prelude.Key.{text_key, ==-refl}
use agent_city.Prelude.Int.{ℤ, ltb_ℤ}
use agent_city.Access.{Membrane, ClaimLevel, access_of}
use agent_city.Registry.{
  Codec, Registry, Event, Identity, verify_from, verify_event_chain, event_hash, last_hash,
  last_event_hash, record_event, transition, get, AgentStatus, is_living,
}
use agent_city.Registry.Lifecycle.{
  Jiva, Profile, discover, register, freeze, unfreeze, revive, exile, archive, assign_role,
  update_claim_level,
}
use agent_city.Registry.Prana.{
  AgentClass, donate_prana, award_prana, debit_prana, burn_prana, mint_prana, metabolize_all,
  revive_if_rich, freeze_each,
}
use agent_city.Registry.Operators.{get_operator, register_operator, update_operator_access}

pub record IsChained (codec : Codec) (r : Registry) : Type 0 where
  pub verified : verify_event_chain codec r ≡ true

pub data Keeps (codec : Codec) {A : Type 0} (p : Registry × A) : Type 0 where
  whole : IsChained codec p.0 → Keeps codec p

pub Keeps-whole :
    {codec : Codec} {A : Type 0} {p : Registry × A} → Keeps codec p → IsChained codec p.0
Keeps-whole (whole h) = h

verify_from-append :
    (codec : Codec) (prev : String) (es : List Event) (e : Event)
    → verify_from codec prev es ≡ true
    → e.event_hash
      ≡ event_hash codec e.timestamp e.agent_name e.event_type e.details (last_hash prev es)
    → verify_from codec prev (es ++ e ∷ []) ≡ true
unfolding verify_from last_hash
verify_from-append codec prev [] e h q = rw q (ground (arith, ==-refl e.event_hash, q))
verify_from-append codec prev (x ∷ es) e h q =
    ground (arith, h, verify_from-append codec x.event_hash es e, q)

record_event-IsChained :
    (codec : Codec) (now name type : String) (from_status : Option String)
    (to_status details : String) (r : Registry)
    → IsChained codec r
    → IsChained codec (record_event codec now name type from_status to_status details r)
unfolding verify_event_chain record_event last_event_hash
record_event-IsChained codec now name type from_status to_status details r h = record {
  verified = verify_from-append codec "GENESIS" r.events _ h.verified refl;
}

-- A change of the other tables leaves the ledger as it is.
same_events-IsChained :
    (codec : Codec) (r r' : Registry)
    → r'.events ≡ r.events
    → IsChained codec r
    → IsChained codec r'
unfolding verify_event_chain
same_events-IsChained codec r r' e h = record { verified = rw e h.verified }

module _ (codec : Codec) (now : String) where
  pub transition-IsChained :
      (name : String) (a b : AgentStatus) (reason : String) (r : Registry)
      → IsChained codec r
      → IsChained codec (transition codec now name a b reason r)
  unfolding transition
  transition-IsChained name a b reason r h =
      record_event-IsChained codec now _ _ _ _ _ _ (same_events-IsChained codec r _ refl h)

  pub discover-IsChained :
      (name : String) (jiva : Jiva) (class : String) (profile : Option Profile) (r : Registry)
      → IsChained codec r
      → IsChained codec (discover codec now name jiva class profile r)
  unfolding discover
  discover-IsChained name jiva class profile r h =
      option_either (IsChained codec) (get name r)
        (record_event-IsChained codec now _ _ _ _ _ _ (same_events-IsChained codec r _ refl h))
        (λ _. h)

  pub register-IsChained :
      (name : String) (jiva : Jiva) (class : String) (identity : Identity) (summary : String)
      (refused : Bool) (profile : Option Profile) (r : Registry)
      → IsChained codec r
      → Keeps codec (register codec now name jiva class identity summary refused profile r)
  unfolding register
  register-IsChained name jiva class identity summary refused profile r h =
      let known = discover-IsChained name jiva class profile r h in
      if_either (Keeps codec) _ (whole h) (
        if_either (Keeps codec) refused (whole known) (
          whole (
            record_event-IsChained codec now _ _ _ _ _ _
              (same_events-IsChained codec _ _ refl known))))

  pub freeze-IsChained :
      (name reason author : String) (membrane : Option Membrane) (r : Registry)
      → IsChained codec r
      → Keeps codec (freeze codec now name reason author membrane r)
  unfolding freeze
  freeze-IsChained name reason author membrane r h = if_either (Keeps codec) _ (whole h) (
      option_either (Keeps codec) (get name r) (whole h)
        (λ a. if_either (Keeps codec) _ (whole h) (whole (transition-IsChained _ _ _ _ r h))))

  pub unfreeze-IsChained :
      (name reason author : String) (membrane : Option Membrane) (r : Registry)
      → IsChained codec r
      → Keeps codec (unfreeze codec now name reason author membrane r)
  unfolding unfreeze
  unfreeze-IsChained name reason author membrane r h =
      if_either (Keeps codec) _ (whole h) (whole (transition-IsChained _ _ _ _ r h))

  pub revive-IsChained :
      (name : String) (dose : ℤ) (sponsor reason author : String) (membrane : Option Membrane)
      (r : Registry)
      → IsChained codec r
      → Keeps codec (revive codec now name dose sponsor reason author membrane r)
  unfolding revive
  revive-IsChained name dose sponsor reason author membrane r h =
      if_either (Keeps codec) _ (whole h) (
        option_either (Keeps codec) (get name r) (whole h) (λ a.
          if_either (Keeps codec) _ (whole h) (
            whole (
              record_event-IsChained codec now _ _ _ _ _ _
                (transition-IsChained _ _ _ _ _ (same_events-IsChained codec r _ refl h))))))

  pub exile-IsChained :
      (name reason author : String) (membrane : Option Membrane) (r : Registry)
      → IsChained codec r
      → Keeps codec (exile codec now name reason author membrane r)
  unfolding exile
  exile-IsChained name reason author membrane r h = if_either (Keeps codec) _ (whole h) (
      option_either (Keeps codec) (get name r) (whole h)
        (λ a. whole (transition-IsChained _ _ _ _ r h)))

  pub archive-IsChained :
      (name reason author : String) (membrane : Option Membrane) (r : Registry)
      → IsChained codec r
      → Keeps codec (archive codec now name reason author membrane r)
  unfolding archive
  archive-IsChained name reason author membrane r h = if_either (Keeps codec) _ (whole h) (
      option_either (Keeps codec) (get name r) (whole h)
        (λ a. whole (transition-IsChained _ _ _ _ r h)))

  pub assign_role-IsChained :
      (name role reason author : String) (membrane : Option Membrane) (r : Registry)
      → IsChained codec r
      → Keeps codec (assign_role codec now name role reason author membrane r)
  unfolding assign_role
  assign_role-IsChained name role reason author membrane r h = if_either (Keeps codec) _ (whole h) (
      option_either (Keeps codec) (get name r) (whole h) (λ a.
        whole
          (record_event-IsChained codec now _ _ _ _ _ _ (same_events-IsChained codec r _ refl h))))

  pub update_claim_level-IsChained :
      (name : String) (target : ClaimLevel) (author : String) (membrane : Option Membrane)
      (r : Registry)
      → IsChained codec r
      → Keeps codec (update_claim_level codec now name target author membrane r)
  unfolding update_claim_level
  update_claim_level-IsChained name target author membrane r h =
      if_either (Keeps codec) _ (whole h) (
        whole
          (record_event-IsChained codec now _ _ _ _ _ _ (same_events-IsChained codec r _ refl h)))

  pub revive_if_rich-IsChained :
      (name : String) (was_frozen : Bool) (sponsor reason : String) (r : Registry)
      → IsChained codec r
      → Keeps codec (revive_if_rich codec now name was_frozen sponsor reason r)
  unfolding revive_if_rich
  revive_if_rich-IsChained name was_frozen sponsor reason r h =
      if_either (Keeps codec) _ (revive-IsChained _ _ _ _ _ _ r h) (whole h)

  pub donate-IsChained :
      (donor recipient : String) (amount : ℤ) (reason : String) (r : Registry)
      → IsChained codec r
      → Keeps codec (donate_prana codec now donor recipient amount reason r)
  unfolding donate_prana
  donate-IsChained donor recipient amount reason r h =
      option_either (Keeps codec) (get donor r) (whole h) (λ d.
        option_either (Keeps codec) (get recipient r) (whole h) (λ a.
          if_either (Keeps codec) (not (is_living d.status)) (whole h) (
            if_either (Keeps codec) (ltb_ℤ d.prana amount) (whole h) (
              revive_if_rich-IsChained _ _ _ _ _ (
                record_event-IsChained codec now _ _ _ _ _ _
                  (same_events-IsChained codec r _ refl h))))))

  pub award-IsChained :
      (name : String) (amount : ℤ) (source : String) (r : Registry)
      → IsChained codec r
      → Keeps codec (award_prana codec now name amount source r)
  unfolding award_prana
  award-IsChained name amount source r h = if_either (Keeps codec) _ (whole h) (
      option_either (Keeps codec) (get name r) (whole h) (λ a.
        revive_if_rich-IsChained _ _ _ _ _
          (record_event-IsChained codec now _ _ _ _ _ _ (same_events-IsChained codec r _ refl h))))

  pub debit-IsChained :
      (name : String) (amount : ℤ) (reason : String) (r : Registry)
      → IsChained codec r
      → Keeps codec (debit_prana codec now name amount reason r)
  unfolding debit_prana
  debit-IsChained name amount reason r h = if_either (Keeps codec) _ (whole h) (
      option_either (Keeps codec) (get name r) (whole h) (λ a.
        if_either (Keeps codec) (not (is_living a.status)) (whole h) (
          if_either (Keeps codec) (ltb_ℤ a.prana amount) (whole h) (
            whole (
              record_event-IsChained codec now _ _ _ _ _ _
                (same_events-IsChained codec r _ refl h))))))

  pub burn-IsChained :
      (refused : Bool) (amount : ℤ) (reason source : String) (r : Registry)
      → IsChained codec r
      → Keeps codec (burn_prana codec now refused amount reason source r)
  unfolding burn_prana
  burn-IsChained refused amount reason source r h = if_either (Keeps codec) _ (whole h) (
      if_either (Keeps codec) refused (whole h)
        (whole (record_event-IsChained codec now _ _ _ _ _ r h)))

  pub mint-IsChained :
      (refused : Bool) (target : String) (amount : ℤ) (reason category : String) (r : Registry)
      → IsChained codec r
      → Keeps codec (mint_prana codec now refused target amount reason category r)
  unfolding mint_prana
  mint-IsChained refused target amount reason category r h = if_either (Keeps codec) _ (whole h) (
      if_either (Keeps codec) refused (whole h)
        (whole (record_event-IsChained codec now _ _ _ _ _ r h)))

  pub freeze_each-IsChained :
      (xs : List String) (r : Registry)
      → IsChained codec r
      → IsChained codec (freeze_each codec now xs r)
  unfolding freeze_each
  freeze_each-IsChained [] r h = h
  freeze_each-IsChained (x ∷ xs) r h =
      freeze_each-IsChained xs _ (Keeps-whole (freeze-IsChained x _ _ _ r h))

  pub metabolize-IsChained :
      (classes : String → AgentClass) (busy : List String) (r : Registry)
      → IsChained codec r
      → IsChained codec (metabolize_all codec now classes busy r).0
  unfolding metabolize_all
  metabolize-IsChained classes busy r h =
      freeze_each-IsChained _ _ (same_events-IsChained codec r _ refl h)

  pub register_operator-IsChained :
      (short : String → String) (name type class by author : String) (membrane : Option Membrane)
      (r : Registry)
      → IsChained codec r
      → Keeps codec (register_operator codec short now name type class by author membrane r)
  unfolding register_operator
  register_operator-IsChained short name type class by author membrane r h =
      if_either (Keeps codec) _ (whole h) (
        option_either (Keeps codec) (get_operator name r)
          (option_either (Keeps codec) (access_of class) (whole h) (λ _. whole (
            record_event-IsChained codec now _ _ _ _ _ _ (same_events-IsChained codec r _ refl h))))
          (λ _. whole h))

  pub update_operator_access-IsChained :
      (name class reason author : String) (membrane : Option Membrane) (r : Registry)
      → IsChained codec r
      → Keeps codec (update_operator_access codec now name class reason author membrane r)
  unfolding update_operator_access
  update_operator_access-IsChained name class reason author membrane r h =
      if_either (Keeps codec) _ (whole h) (
        option_either (Keeps codec) (get_operator name r) (whole h) (λ o.
          option_either (Keeps codec) (access_of class) (whole h) (λ _. whole (
            record_event-IsChained codec now _ _ _ _ _ _
              (same_events-IsChained codec r _ refl h)))))
