-- ===== src/Registry/Lifecycle.antt =====
-- The life of an agent in the registry, from `discover` to `exile` and `archive`, its role and its claim
-- level. The derivation of its soul and of its identity from its name are arguments, as they come from the
-- steward-protocol. The bank is an argument too: of it, `register` needs to know if it refuses.
use agent_city.Prelude.{
  ℕ, String, Bool, true, false, not, Option, none, some, [], ◌∷◌, ◌++◌, if◌then◌else◌,
}
use agent_city.Prelude.Key.{text_key}
use agent_city.Prelude.Int.{ℤ, ◌+ℤ◌}
use agent_city.Prelude.Json
use agent_city.Prelude.Json.{Json}
use agent_city.Prelude.Texts.{decimal}
use Prim.Native.String.{◌++◌ as join}
use agent_city.Access.{
  Membrane, ClaimLevel, self_claimed, max_claim, rank, operator, AuthorityRequirement,
}
use agent_city.Registry.{
  Codec, Registry, Agent, AgentStatus, Identity, Outcome, returned, permission_error, value_error,
  bank_error, citizen, active, frozen, archived, exiled, is_living, is_frozen, is_gone, get,
  set_agent, record_event, transition, may, root_mutation_requirement,
}

-- What `derive_jiva` gives for a name.
pub record Jiva : Type 0 where
  pub derived : Json
  pub zone : String
  pub prana : ℤ
  pub age : ℕ
  pub is_alive : Bool

-- A profile on Moltbook: what it is written down as, and the two counts that are read from it.
pub record Profile : Type 0 where
  pub json : Json
  pub karma : Option ℕ
  pub followers : Option ℕ

abbrev pub empty_profile : Profile
empty_profile = record { json = Json.object Json.end; karma = none; followers = none }

abbrev pub profile_or_empty : Option Profile → Profile
profile_or_empty none = empty_profile
profile_or_empty (some p) = p

unfoldable pub new_agent : String → String → Jiva → Profile → Agent
new_agent now class jiva profile = record {
  status = AgentStatus.discovered;
  derived = jiva.derived;
  zone = jiva.zone;
  discovered_at = now;
  registered_at = none;
  updated_at = now;
  karma = profile.karma;
  followers = profile.followers;
  identity = none;
  prana = jiva.prana;
  cell_cycle = jiva.age;
  cell_active = jiva.is_alive;
  prana_class = class;
  claim_level = ClaimLevel.discovered;
  claim_verified_at = none;
  civic_role = "citizen";
}

abbrev pub add_agent : String → Agent → Registry → Registry
add_agent name a r = record r { agents = r.agents ++ (name, a) ∷ [] }

-- The class of an agent by its prana, `classify_prana_class`, is the argument `class`.
unfoldable pub discover :
    Codec → String → String → Jiva → String → Option Profile → Registry → Registry
discover codec now name jiva class profile r = elim (get name r) [
  | some _ ↦ r
  | none ↦
      let p = profile_or_empty profile in
      record_event codec now name "discover" none "discovered" (codec.dumps p.json)
        (add_agent name (new_agent now class jiva p) r)
]

abbrev or_old {ℓ} : {A : Type ℓ} → Option A → Option A → Option A
or_old none old = old
or_old (some a) _ = some a

-- The UPDATE that makes a citizen.
unfoldable pub naturalized : String → Identity → Profile → Agent → Agent
naturalized now identity profile a = record a {
  status = citizen;
  claim_level = max_claim a.claim_level self_claimed;
  identity = some identity;
  registered_at = some now;
  updated_at = now;
  karma = or_old profile.karma a.karma;
  followers = or_old profile.followers a.followers;
}

-- Whether an agent is citizen or active already.
unfoldable pub is_citizen : String → Registry → Bool
is_citizen name r = elim (get name r) [ none ↦ false | some a ↦ is_living a.status ]

-- `refused` is whether the bank raises at one of the two transfers; the row of a new agent and its event
-- are in the open transaction by then. `summary` is the text that json.dumps makes of the identity.
unfoldable pub register :
    Codec
    → String
    → String
    → Jiva
    → String
    → Identity
    → String
    → Bool
    → Option Profile
    → Registry
    → Registry × Outcome
register codec now name jiva class identity summary refused profile r =
    let p = profile_or_empty profile in
    let known = discover codec now name jiva class profile r in
    if is_citizen name r then (r, returned) else if refused then (known, bank_error) else (
      record_event codec now name "register" (some "discovered") "citizen" summary
          (set_agent name (naturalized now identity p) known),
      returned,
    )

unfoldable pub activate : Codec → String → String → Registry → Registry
activate codec now name r = transition codec now name citizen active "First contribution" r

unfoldable pub freeze :
    Codec → String → String → String → String → Option Membrane → Registry → Registry × Outcome
freeze codec now name reason author membrane r =
    if not (may membrane author root_mutation_requirement)
    then (r, permission_error)
    else elim (get name r) [
      | none ↦ (r, value_error)
      | some a ↦
          if is_gone a.status
          then (r, value_error)
          else (transition codec now name a.status frozen reason r, returned)
    ]

-- The status that the agent has is not looked at.
unfoldable pub unfreeze :
    Codec → String → String → String → String → Option Membrane → Registry → Registry × Outcome
unfreeze codec now name reason author membrane r =
    if not (may membrane author root_mutation_requirement)
    then (r, permission_error)
    else (transition codec now name frozen active reason r, returned)

abbrev pub dosed : ℤ → Agent → Agent
dosed dose a = record a { prana = a.prana +ℤ dose; cell_active = true }

unfoldable pub revive :
    Codec
    → String
    → String
    → ℤ
    → String
    → String
    → String
    → Option Membrane
    → Registry
    → Registry × Outcome
revive codec now name dose sponsor reason author membrane r =
    let entry = Json.object (
      Json.field "prana_dose" (Json.number dose) (
        Json.field "sponsor" (Json.text sponsor)
          (Json.field "reason" (Json.text reason) Json.end))) in
    if not (may membrane author root_mutation_requirement)
    then (r, permission_error)
    else elim (get name r) [
      | none ↦ (r, value_error)
      | some a ↦ if not (is_frozen a.status) then (r, value_error) else (
        record_event codec now name "revive" (some "frozen") "active" (codec.dumps entry)
            (transition codec now name frozen active reason (set_agent name (dosed dose) r)),
        returned,
      )
    ]

unfoldable pub exile :
    Codec → String → String → String → String → Option Membrane → Registry → Registry × Outcome
exile codec now name reason author membrane r =
    if not (may membrane author root_mutation_requirement)
    then (r, permission_error)
    else elim (get name r) [
      | none ↦ (r, value_error)
      | some a ↦ (transition codec now name a.status exiled reason r, returned)
    ]

unfoldable pub archive :
    Codec → String → String → String → String → Option Membrane → Registry → Registry × Outcome
archive codec now name reason author membrane r =
    if not (may membrane author root_mutation_requirement)
    then (r, permission_error)
    else elim (get name r) [
      | none ↦ (r, value_error)
      | some a ↦ (transition codec now name a.status archived reason r, returned)
    ]

unfoldable pub assign_role :
    Codec
    → String
    → String
    → String
    → String
    → String
    → Option Membrane
    → Registry
    → Registry × Outcome
assign_role codec now name role reason author membrane r =
    if not (may membrane author root_mutation_requirement)
    then (r, permission_error)
    else elim (get name r) [
      | none ↦ (r, value_error)
      | some a ↦ (
        record_event codec now name "role_change" (some a.civic_role) role reason
            (set_agent name (λ b. record b { civic_role = role; updated_at = now }) r),
        returned,
      )
    ]

unfoldable pub get_claim_level : String → Registry → ClaimLevel
get_claim_level name r = elim (get name r) [ none ↦ ClaimLevel.discovered | some a ↦ a.claim_level ]

abbrev pub claim_level_requirement : ClaimLevel → ClaimLevel → AuthorityRequirement
claim_level_requirement old target = record { access = operator; claim = max_claim old target }

abbrev pub with_claim : String → ClaimLevel → Agent → Agent
with_claim now target a = record a {
  claim_level = target;
  claim_verified_at = some now;
  updated_at = now;
}

unfoldable pub update_claim_level :
    Codec → String → String → ClaimLevel → String → Option Membrane → Registry → Registry × Outcome
update_claim_level codec now name target author membrane r =
    let old = get_claim_level name r in
    let change = join (decimal (rank old)) (join " → " (decimal (rank target))) in
    if not (may membrane author (claim_level_requirement old target))
    then (r, permission_error)
    else (
      record_event codec now name "claim_level_change" (some (decimal (rank old)))
          (decimal (rank target)) (join "claim_level " change)
          (set_agent name (with_claim now target) r),
      returned,
    )
