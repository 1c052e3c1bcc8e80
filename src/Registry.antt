-- ===== src/Registry.antt =====
-- city/pokedex.py, the agent registry: the tables `agents`, `operators` and `events`, in which each event
-- carries the hash of the one before it. The digest of SHA-256 and json.dumps are the fields of a Codec;
-- the clock is an argument `now`.
pub mod Lifecycle
pub mod Prana
pub mod Operators
pub mod Chain
pub mod Steps
pub mod Rows
use Prim.Native.String.{◌++◌ as join}
use agent_city.Prelude.{
  ℕ, ◌+◌, String, Bool, true, false, not, ◌&&◌, ◌||◌, Option, none, some, List, [], ◌∷◌, ◌++◌, keep,
  leb, length, if◌then◌else◌,
}
use agent_city.Prelude.Key.{◌==◌, text_key}
use agent_city.Prelude.Int.{ℤ}
use agent_city.Prelude.Json.{Json}
use agent_city.Prelude.Dict.{Dict, lookup}
use agent_city.Access.{Membrane, ClaimLevel, sovereign, authorize_ingress, AuthorityRequirement}

pub record Codec : Type 0 where
  pub digest : String → String
  pub dumps : Json → String

pub data AgentStatus : Type 0 where
  discovered citizen active frozen archived exiled : AgentStatus

abbrev pub status_value : AgentStatus → String
status_value AgentStatus.discovered = "discovered"
status_value citizen = "citizen"
status_value active = "active"
status_value frozen = "frozen"
status_value archived = "archived"
status_value exiled = "exiled"

-- status in ("citizen", "active")
abbrev pub is_living : AgentStatus → Bool
is_living citizen = true
is_living active = true
is_living _ = false

abbrev pub is_frozen : AgentStatus → Bool
is_frozen frozen = true
is_frozen _ = false

-- status in ("archived", "exiled")
abbrev pub is_gone : AgentStatus → Bool
is_gone archived = true
is_gone exiled = true
is_gone _ = false

-- What `generate_identity` and the oath put on a citizen's row.
pub record Identity : Type 0 where
  pub fingerprint : String
  pub public_key : String
  pub seed_hash : String
  pub oath_hash : String
  pub oath_signature : String
  pub gpg_fingerprint : String
  pub gpg_public_key : String
  pub gpg_email : String

-- The row of an agent: the columns that the registry reads again, and, in `derived`, those that hold what
-- was derived from its name.
pub record Agent : Type 0 where
  pub status : AgentStatus
  pub derived : Json
  pub zone : String
  pub discovered_at : String
  pub registered_at : Option String
  pub updated_at : String
  pub karma : Option ℕ
  pub followers : Option ℕ
  pub identity : Option Identity
  pub prana : ℤ
  pub cell_cycle : ℕ
  pub cell_active : Bool
  pub prana_class : String
  pub claim_level : ClaimLevel
  pub claim_verified_at : Option String
  pub civic_role : String

pub record Operator : Type 0 where
  pub operator_type : String
  pub access_class : String
  pub fingerprint : String
  pub registered_by : String
  pub registered_at : String
  pub updated_at : String

pub record Event : Type 0 where
  pub timestamp : String
  pub agent_name : String
  pub event_type : String
  pub from_status : Option String
  pub to_status : String
  pub details : String
  pub previous_hash : String
  pub event_hash : String

-- The tables; the events in the order of their ids.
pub record Registry : Type 0 where
  pub agents : Dict String Agent
  pub operators : Dict String Operator
  pub events : List Event

-- What a call comes to: it returns, or it raises a PermissionError, a ValueError, the
-- IntegrityError of a constraint of the table, or what the bank raises.
pub data Outcome : Type 0 where
  returned : Outcome
  permission_error : Outcome
  value_error : Outcome
  bank_error : Outcome
  integrity_error : Outcome

unfoldable pub get : String → Registry → Option Agent
get name r = lookup name r.agents

-- `UPDATE agents SET … WHERE name = ?`
unfoldable pub update : String → (Agent → Agent) → Dict String Agent → Dict String Agent
update name f [] = []
update name f ((j, a) ∷ d) = if j == name then (j, f a) ∷ d else (j, a) ∷ update name f d

abbrev pub set_agent : String → (Agent → Agent) → Registry → Registry
set_agent name f r = record r { agents = update name f r.agents }

-- The hash of the last event, or what stands before the first.
unfoldable pub last_hash : String → List Event → String
last_hash prev [] = prev
last_hash prev (e ∷ es) = last_hash e.event_hash es

unfoldable pub last_event_hash : Registry → String
unfolding last_hash
last_event_hash r = last_hash "GENESIS" r.events

unfoldable pub event_hash : Codec → String → String → String → String → String → String
event_hash codec now name type details prev =
    codec.digest (join now (join name (join type (join details prev))))

unfoldable pub record_event :
    Codec → String → String → String → Option String → String → String → Registry → Registry
unfolding last_event_hash event_hash
record_event codec now name type from_status to_status details r =
    let prev = last_event_hash r in
    let event : Event = record {
      timestamp = now;
      agent_name = name;
      event_type = type;
      from_status = from_status;
      to_status = to_status;
      details = details;
      previous_hash = prev;
      event_hash = event_hash codec now name type details prev;
    } in
    record r { events = r.events ++ event ∷ [] }

-- The loop of `verify_event_chain`.
unfoldable pub verify_from : Codec → String → List Event → Bool
unfolding event_hash
verify_from codec prev [] = true
verify_from codec prev (e ∷ es) =
    let rest = verify_from codec e.event_hash es in
    if e.event_hash == event_hash codec e.timestamp e.agent_name e.event_type e.details prev
    then rest
    else false

unfoldable pub verify_event_chain : Codec → Registry → Bool
unfolding verify_from
verify_event_chain codec r = verify_from codec "GENESIS" r.events

abbrev pub root_mutation_requirement : AuthorityRequirement
root_mutation_requirement = record { access = sovereign; claim = ClaimLevel.discovered }

-- The registry passes itself for the context, and has no attribute `pokedex`: what it knows of the author
-- is not looked up.
unfoldable pub may : Option Membrane → String → AuthorityRequirement → Bool
unfolding authorize_ingress
may membrane author needed = (authorize_ingress none membrane author needed).0

unfoldable pub transition :
    Codec → String → String → AgentStatus → AgentStatus → String → Registry → Registry
unfolding update record_event
transition codec now name from_status to_status reason r =
    record_event codec now name (join "transition_" (status_value to_status))
      (some (status_value from_status)) (status_value to_status) reason
      (set_agent name (λ a. record a { status = to_status; updated_at = now }) r)
