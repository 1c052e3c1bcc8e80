-- ===== src/Access.antt =====
-- city/access.py, city/membrane.py and the claim levels of city/claims.py: what a caller may do, from the
-- snapshot of the membrane that it came through and from what the registry knows of it.
use Prim.Native.String.{◌++◌ as join}
use agent_city.Prelude.{
  ℕ, String, Bool, true, false, Option, none, some, ltb, leb, eqb, ◌||◌, if◌then◌else◌,
}
use agent_city.Prelude.Key.{◌==◌, text_key}

pub data AccessClass : Type 0 where
  observer operator steward sovereign : AccessClass

abbrev pub level : AccessClass → ℕ
level observer = 0
level operator = 1
level steward = 2
level sovereign = 3

abbrev pub can_write : AccessClass → Bool
can_write a = leb (level operator) (level a)

abbrev pub can_modify_protected : AccessClass → Bool
can_modify_protected a = leb (level steward) (level a)

abbrev pub access_value : AccessClass → String
access_value observer = "observer"
access_value operator = "operator"
access_value steward = "steward"
access_value sovereign = "sovereign"

-- `AccessClass(value)`, which raises on any other text.
unfoldable pub access_of : String → Option AccessClass
access_of s =
    if s == "observer"
    then some observer
    else if s == "operator"
    then some operator
    else if s == "steward"
    then some steward
    else if s == "sovereign"
    then some sovereign
    else none

unfoldable pub coerce_access_class : Option String → AccessClass
unfolding access_of
coerce_access_class none = observer
coerce_access_class (some s) = elim (access_of s) [ none ↦ observer | some a ↦ a ]

pub data ClaimLevel : Type 0 where
  discovered self_claimed platform_verified crypto_verified : ClaimLevel

abbrev pub rank : ClaimLevel → ℕ
rank discovered = 0
rank self_claimed = 1
rank platform_verified = 2
rank crypto_verified = 3

abbrev pub claim_name : ClaimLevel → String
claim_name discovered = "discovered"
claim_name self_claimed = "self_claimed"
claim_name platform_verified = "platform_verified"
claim_name crypto_verified = "crypto_verified"

abbrev pub max_claim : ClaimLevel → ClaimLevel → ClaimLevel
max_claim a b = if ltb (rank a) (rank b) then b else a

-- `ClaimLevel(int(value))`, or DISCOVERED where that raises.
unfoldable pub coerce_claim_level : Option ℕ → ClaimLevel
coerce_claim_level none = discovered
coerce_claim_level (some n) =
    if eqb n 1
    then self_claimed
    else if eqb n 2
    then platform_verified
    else if eqb n 3
    then crypto_verified
    else discovered

-- The snapshot of the membrane, a dict of which any key can be missing.
pub record Membrane : Type 0 where
  pub source_class : Option String
  pub access_class : Option String
  pub claim_floor : Option ℕ
  pub auth_route : Option String

abbrev pub no_membrane : Membrane
no_membrane = record {
  source_class = none;
  access_class = none;
  claim_floor = none;
  auth_route = none;
}

abbrev pub internal_membrane_snapshot : String → Membrane
internal_membrane_snapshot source = record {
  source_class = some source;
  access_class = some "sovereign";
  claim_floor = some 3;
  auth_route = some "local";
}

pub record AuthorityRequirement : Type 0 where
  pub access : AccessClass
  pub claim : ClaimLevel

unfoldable pub requirement_for_auth_tier : String → AuthorityRequirement
requirement_for_auth_tier tier =
    if tier == "public"
    then record { access = observer; claim = discovered }
    else if tier == "operator"
    then record { access = operator; claim = discovered }
    else record { access = observer; claim = self_claimed }

-- What the registry behind `ctx.pokedex` answers about an author.
pub record Directory : Type 0 where
  pub operator_access : String → Option (Option String)
  pub agent_status : String → Option String
  pub claim_level : String → ClaimLevel

pub record ResolvedAuthority : Type 0 where
  pub source_class : String
  pub access : AccessClass
  pub claim : ClaimLevel
  pub auth_route : String

unfoldable pub resolved_access : Option Directory → String → AccessClass → AccessClass
unfolding coerce_access_class
resolved_access none author access = access
resolved_access (some d) author access =
    if author == "" then access else elim (d.operator_access author) [
      | none ↦ access
      | some held ↦
          if ltb (level access) (level (coerce_access_class held))
          then coerce_access_class held
          else access
    ]

unfoldable pub resolved_claim : Option Directory → String → ClaimLevel → ClaimLevel
resolved_claim none author claim = claim
resolved_claim (some d) author claim =
    if author == "" then claim else elim (d.agent_status author) [
      | none ↦ claim
      | some status ↦
          if status == "citizen" || status == "active"
          then max_claim (max_claim claim self_claimed) (d.claim_level author)
          else claim
    ]

abbrev or_else : Option String → String → String
or_else none s = s
or_else (some t) s = t

unfoldable pub resolve_authority : Option Directory → Option Membrane → String → ResolvedAuthority
unfolding coerce_access_class coerce_claim_level resolved_access resolved_claim
resolve_authority pokedex membrane author =
    let m : Membrane = elim membrane [ none ↦ no_membrane | some x ↦ x ] in
    record {
      source_class = or_else m.source_class "external";
      access = resolved_access pokedex author (coerce_access_class m.access_class);
      claim = resolved_claim pokedex author (coerce_claim_level m.claim_floor);
      auth_route = or_else m.auth_route "legacy";
    }

unfoldable pub authorize_ingress :
    Option Directory → Option Membrane → String → AuthorityRequirement → Bool × String
unfolding resolve_authority
authorize_ingress pokedex membrane author needed =
    let held = resolve_authority pokedex membrane author in
    if ltb (level held.access) (level needed.access)
    then (false, join "access<" (access_value needed.access))
    else if ltb (rank held.claim) (rank needed.claim)
    then (false, join "claim<" (claim_name needed.claim))
    else (true, "ok")
