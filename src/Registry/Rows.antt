-- ===== src/Registry/Rows.antt =====
-- What a change of one agent's row leaves in the others.
use agent_city.Prelude.{
  ◌≡◌, refl, String, Bool, not, Option, none, some, [], ◌∷◌, if◌then◌else◌, arith, eq_iff,
  Option-cases, inl, inr, if_either, option_either, ◌∙◌,
}
use agent_city.Prelude.Key.{◌==◌, text_key}
use agent_city.Prelude.Int.{ℤ, pos, negsuc, ◌+ℤ◌}
use agent_city.Prelude.Dict.{Dict, lookup}
use agent_city.Registry.{
  Codec, Registry, Agent, get, update, record_event, transition, set_agent, Outcome, value_error,
  is_frozen, frozen, active,
}
use agent_city.Access.{Membrane}
use agent_city.Registry.Lifecycle.{revive, dosed}
use agent_city.Registry.Prana.{prana_of, revive_if_rich, add_prana}

pub lookup-update :
    (name j : String) (f : Agent → Agent) (d : Dict String Agent)
    → lookup j (update name f d)
      ≡ elim (lookup j d) [ none ↦ none | some a ↦ some (if name == j then f a else a) ]
unfolding lookup update
lookup-update name j f [] = refl
lookup-update name j f ((i, a) ∷ d) =
    ground (arith, eq_iff i j, eq_iff i name, eq_iff name j, lookup-update name j f d)

-- A change of a row that leaves its prana.
prana_of-kept :
    (name j : String) (f : Agent → Agent) (r : Registry)
    → ((a : Agent) → (f a).prana ≡ a.prana)
    → prana_of j (set_agent name f r) ≡ prana_of j r
unfolding prana_of get
prana_of-kept name j f r keeps = elim (Option-cases (lookup j r.agents)) [
  | inl missing ↦ ground (arith, lookup-update name j f r.agents, missing)
  | inr (a, there) ↦ ground (arith, lookup-update name j f r.agents, there, keeps a)
]

-- Prana that is added to the row of an agent that is there.
pub prana_of-added :
    (name j : String) (n : ℤ) (r : Registry) (a : Agent)
    → get name r ≡ some a
    → prana_of j (set_agent name (add_prana n) r)
      ≡ (if name == j then prana_of j r +ℤ n else prana_of j r)
unfolding prana_of get
prana_of-added name j n r a known = elim (Option-cases (lookup j r.agents)) [
  | inl missing ↦
      ground (arith, lookup-update name j (add_prana n) r.agents, missing, known, eq_iff name j)
  | inr (b, there) ↦ ground (arith, lookup-update name j (add_prana n) r.agents, there)
]

add_zero : (a : ℤ) → a +ℤ pos 0 ≡ a
unfolding ◌+ℤ◌
add_zero (pos n) = ground arith
add_zero (negsuc n) = ground arith

record SamePrana (j : String) (r : Registry) (p : Registry × Outcome) : Type 0 where
  is_same : prana_of j p.0 ≡ prana_of j r

awoken :
    (codec : Codec) (now name j reason type from_status to_status details : String) (r : Registry)
    → prana_of j (
        record_event codec now name type
          (some from_status)
          to_status
          details
          (transition codec now name frozen active reason (set_agent name (dosed (pos 0)) r)))
      ≡ prana_of j r
unfolding transition record_event prana_of get
awoken codec now name j reason type from_status to_status details r =
    prana_of-kept name j (λ a. record a { status = active; updated_at = now })
      (set_agent name (dosed (pos 0)) r) (λ _. refl)
    ∙ prana_of-kept name j (dosed (pos 0)) r (λ a. add_zero a.prana)

revive-SamePrana :
    (codec : Codec) (now name j sponsor reason author : String) (membrane : Option Membrane)
    (r : Registry)
    → SamePrana j r (revive codec now name (pos 0) sponsor reason author membrane r)
unfolding revive
revive-SamePrana codec now name j sponsor reason author membrane r =
    let same : SamePrana j r (r, value_error) = record { is_same = refl } in
    if_either (SamePrana j r) _ (record { is_same = refl })
      (option_either (SamePrana j r) (get name r) (record { is_same = refl })
        (λ a.
          if_either (SamePrana j r) (not (is_frozen a.status)) same
            (record { is_same = awoken codec now name j _ _ _ _ _ r })))

revive_if_rich-SamePrana :
    (codec : Codec) (now name j : String) (was_frozen : Bool) (sponsor reason : String)
    (r : Registry)
    → SamePrana j r (revive_if_rich codec now name was_frozen sponsor reason r)
unfolding revive_if_rich
revive_if_rich-SamePrana codec now name j was_frozen sponsor reason r =
    if_either (SamePrana j r) _ (revive-SamePrana codec now name j _ _ _ _ r)
      (record { is_same = refl })

-- A revival without a dose changes nobody's prana.
pub prana_of-revive_if_rich :
    (codec : Codec) (now name j : String) (was_frozen : Bool) (sponsor reason : String)
    (r : Registry)
    → prana_of j (revive_if_rich codec now name was_frozen sponsor reason r).0 ≡ prana_of j r
prana_of-revive_if_rich codec now name j was_frozen sponsor reason r =
    (revive_if_rich-SamePrana codec now name j was_frozen sponsor reason r).is_same
