-- ===== src/Claims.antt =====
-- city/claims.py: the ClaimManager, which raises the claim level of an agent against a proof. The levels
-- are in the Registry; the challenges that are open are in memory. A nonce and a signature are checked by
-- code outside: the nonce of a challenge and the check of a signature are arguments.
pub mod Ladder
use Prim.Native.String.{◌++◌ as join}
use Prim.Native.String as String
use text.Mathlib.Text
use agent_city.Prelude.{
  ℕ, String, Bool, true, false, not, Option, none, some, List, [], ◌∷◌, leb, length, if◌then◌else◌,
}
use agent_city.Prelude.Key.{◌==◌, text_key}
use agent_city.Prelude.Dict.{Dict, lookup, insert, erase, contains}
use agent_city.Access.{
  ClaimLevel, self_claimed, platform_verified, crypto_verified, rank, internal_membrane_snapshot,
}
use agent_city.Registry.{Codec, Registry, get}
use agent_city.Registry.Lifecycle.{get_claim_level, update_claim_level}

-- `prefix` stands at the start of the text.
unfoldable pub starts_with : String → String → Bool
starts_with String.[] t = true
starts_with (String.◌∷◌ c s) String.[] = false
starts_with (String.◌∷◌ c s) (String.◌∷◌ e t) =
    let rest = starts_with s t in
    if String.◌∷◌ c String.[] == String.◌∷◌ e String.[] then rest else false

-- `s in t`
unfoldable pub is_in : String → String → Bool
is_in s String.[] = starts_with s String.[]
is_in s (String.◌∷◌ c t) =
    let rest = is_in s t in if starts_with s (String.◌∷◌ c t) then true else rest

-- The challenges that are open, by the agent's name.
abbrev pub ClaimManager : Type 0
ClaimManager = Dict String String

abbrev pub claim_tag : String → String
claim_tag name = join "[city-claim:" (join name "]")

-- Whether the agent has the level already; if not, it gets it.
unfoldable pub raise_to : Codec → String → String → ClaimLevel → Registry → Registry × Bool
raise_to codec now name target r =
    if leb (rank target) (rank (get_claim_level name r)) then (r, false) else (
      (update_claim_level codec now name target "" (some (internal_membrane_snapshot "claims"))
          r).0,
      true,
    )

unfoldable pub attempt_self_claim : Codec → String → String → String → Registry → Registry × Bool
attempt_self_claim codec now name title r =
    if not (is_in (claim_tag name) title)
    then (r, false)
    else raise_to codec now name self_claimed r

unfoldable pub initiate_platform_challenge : String → String → ClaimManager → ClaimManager × String
initiate_platform_challenge nonce name m = (insert name nonce m, nonce)

unfoldable pub verify_platform_response :
    Codec → String → String → String → ClaimManager → Registry → (ClaimManager × Registry) × Bool
verify_platform_response codec now name response m r = elim (lookup name m) [
  | none ↦ ((m, r), false)
  | some expected ↦
      if not (is_in expected response)
      then ((m, r), false)
      else let raised = raise_to codec now name platform_verified r in
        ((erase name m, raised.0), raised.1)
]

-- `check` is verify_ownership, on the public key, the payload and the signature.
unfoldable pub verify_identity :
    (String → String → String → Bool) → String → String → String → Registry → Bool
verify_identity check name payload signature r = elim (get name r) [
  | none ↦ false
  | some a ↦ elim a.identity [
    | none ↦ false
    | some i ↦
        if i.fingerprint == ""
        then false
        else if i.public_key == ""
        then false
        else check i.public_key payload signature
  ]
]

unfoldable pub verify_crypto_claim :
    (String → String → String → Bool)
    → Codec
    → String
    → String
    → String
    → String
    → Registry
    → Registry × Bool
verify_crypto_claim check codec now name nonce signature r =
    if not (verify_identity check name nonce signature r)
    then (r, false)
    else raise_to codec now name crypto_verified r

unfoldable pub has_pending_challenge : String → ClaimManager → Bool
has_pending_challenge name m = contains name m

unfoldable pub pending_challenges : ClaimManager → ℕ
pending_challenges m = length m
