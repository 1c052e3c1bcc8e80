-- ===== src/Claims/Ladder.antt =====
-- What a claim does to the levels of the agents.
use mathlib.Core.Path.{subst}
use agent_city.Prelude.{
  ◌≤◌, ◌≡◌, sym, String, Bool, true, false, not, ◌&&◌, none, some, leb, if◌then◌else◌, arith,
  Bool-cases, inl, inr, eq_iff,
}
use agent_city.Prelude.Key.{◌==◌, text_key, ==-refl}
use agent_city.Prelude.Dict.{lookup, contains, lookup-erase}
use agent_city.Access.{
  ClaimLevel, self_claimed, platform_verified, crypto_verified, rank, access_of,
  internal_membrane_snapshot, authorize_ingress, resolve_authority, coerce_access_class,
  coerce_claim_level, resolved_access, resolved_claim,
}
use agent_city.Registry.{Codec, Registry, Agent, get, may, record_event}
use agent_city.Registry.Rows.{lookup-update}
use agent_city.Registry.Lifecycle.{
  get_claim_level, update_claim_level, claim_level_requirement, with_claim,
}
use agent_city.Claims.{
  ClaimManager, claim_tag, is_in, raise_to, attempt_self_claim, verify_platform_response,
  verify_crypto_claim, verify_identity, has_pending_challenge,
}

-- The manager's own membrane is let in whatever the levels are.
may-internal :
    (old target : ClaimLevel)
    → may (some (internal_membrane_snapshot "claims")) "" (claim_level_requirement old target)
      ≡ true
unfolding may authorize_ingress resolve_authority coerce_access_class coerce_claim_level access_of
    resolved_access resolved_claim
may-internal old target = ground arith

-- A call came out with a claim level for the agent `name`, or without one: how the level of `j` stands.
pub record Claimed (name j : String) (target : ClaimLevel) (r : Registry) (p : Registry × Bool)
    : Type 0 where
  pub the_level :
      get_claim_level j p.0 ≡ (if (name == j) && p.1 then target else get_claim_level j r)
  pub never_lower : rank (get_claim_level j r) ≤ rank (get_claim_level j p.0)

unchanged-Claimed :
    (name j : String) (target : ClaimLevel) (r : Registry) → Claimed name j target r (r, false)
unchanged-Claimed name j target r = record { the_level = ground arith; never_lower = omega arith }

level-update :
    (codec : Codec) (now name j : String) (target : ClaimLevel) (r : Registry) (a : Agent)
    → get name r ≡ some a
    → get_claim_level j
        (update_claim_level codec now name target ""
          (some (internal_membrane_snapshot "claims"))
          r).0
      ≡ (if name == j then target else get_claim_level j r)
unfolding update_claim_level get_claim_level get record_event
level-update codec now name j target r a known = ground (
  arith,
  may-internal (get_claim_level name r) target,
  lookup-update name j (with_claim now target) r.agents,
  eq_iff name j,
  known,
)

raise_to-Claimed :
    (codec : Codec) (now name j : String) (target : ClaimLevel) (r : Registry) (a : Agent)
    → get name r ≡ some a
    → Claimed name j target r (raise_to codec now name target r)
unfolding raise_to
raise_to-Claimed codec now name j target r a known =
    let level = level-update codec now name j target r a known in
    elim (Bool-cases (leb (rank target) (rank (get_claim_level name r)))) [
      | inl high ↦ rw high (unchanged-Claimed name j target r)
      | inr low ↦ rw low (record {
        the_level = ground (arith, level);
        never_lower = ground (arith, level, low, eq_iff name j);
      })
    ]

-- The response holds the nonce of the challenge that is open for the agent.
abbrev pub answers_challenge : String → String → ClaimManager → Bool
answers_challenge name response m = elim (lookup name m) [
  | none ↦ false
  | some nonce ↦ is_in nonce response
]

self_claim-Claimed :
    (codec : Codec) (now name j title : String) (r : Registry) (a : Agent)
    → get name r ≡ some a
    → Claimed name j self_claimed r (attempt_self_claim codec now name title r)
unfolding attempt_self_claim
self_claim-Claimed codec now name j title r a known =
    elim (Bool-cases (is_in (claim_tag name) title)) [
      | inl tagged ↦ rw tagged (raise_to-Claimed codec now name j self_claimed r a known)
      | inr untagged ↦ rw untagged (unchanged-Claimed name j self_claimed r)
    ]

abbrev levels_of : (ClaimManager × Registry) × Bool → Registry × Bool
levels_of p = (p.0.1, p.1)

answered :
    (codec : Codec) (now name response : String) (m : ClaimManager) (r : Registry)
    → answers_challenge name response m ≡ true
    → levels_of (verify_platform_response codec now name response m r)
      ≡ raise_to codec now name platform_verified r
unfolding verify_platform_response
answered codec now name response m r right = ground (arith, right)

refused :
    (codec : Codec) (now name response : String) (m : ClaimManager) (r : Registry)
    → answers_challenge name response m ≡ false
    → levels_of (verify_platform_response codec now name response m r) ≡ (r, false)
unfolding verify_platform_response
refused codec now name response m r wrong = ground (arith, wrong)

platform-Claimed :
    (codec : Codec) (now name j response : String) (m : ClaimManager) (r : Registry) (a : Agent)
    → get name r ≡ some a
    → Claimed name j platform_verified r
        (levels_of (verify_platform_response codec now name response m r))
platform-Claimed codec now name j response m r a known =
    elim (Bool-cases (answers_challenge name response m)) [
      | inl right ↦
          let e : levels_of (verify_platform_response codec now name response m r)
              ≡ raise_to codec now name platform_verified r =
            answered codec now name response m r right in
          subst (Claimed name j platform_verified r) (sym e)
            (raise_to-Claimed codec now name j platform_verified r a known)
      | inr wrong ↦
          let e : levels_of (verify_platform_response codec now name response m r) ≡ (r, false) =
            refused codec now name response m r wrong in
          subst (Claimed name j platform_verified r) (sym e)
            (unchanged-Claimed name j platform_verified r)
    ]

crypto-Claimed :
    (check : String → String → String → Bool) (codec : Codec) (now name j nonce signature : String)
    (r : Registry) (a : Agent)
    → get name r ≡ some a
    → Claimed name j crypto_verified r (verify_crypto_claim check codec now name nonce signature r)
unfolding verify_crypto_claim
crypto-Claimed check codec now name j nonce signature r a known =
    elim (Bool-cases (verify_identity check name nonce signature r)) [
      | inl valid ↦ rw valid (raise_to-Claimed codec now name j crypto_verified r a known)
      | inr invalid ↦ rw invalid (unchanged-Claimed name j crypto_verified r)
    ]

-- For an agent of the registry, each of the three proofs sets its level to that of the proof where the
-- call returns True, and leaves it where the call returns False; no level of any agent goes down, and no
-- other agent's changes. A call returns True only against its proof: a title with the agent's tag, a
-- response with the nonce of the challenge that is open for it, or a signature that its public key
-- verifies; and a challenge that was answered is open no longer.
pub claims-Claimed :
    (check : String → String → String → Bool) (codec : Codec)
    (now name j title response nonce signature : String) (m : ClaimManager) (r : Registry)
    (a : Agent)
    → get name r ≡ some a
    → let s = attempt_self_claim codec now name title r in
      let p = verify_platform_response codec now name response m r in
      let c = verify_crypto_claim check codec now name nonce signature r in
      Claimed name j self_claimed r s
      × Claimed name j platform_verified r (p.0.1, p.1)
      × Claimed name j crypto_verified r c
      × (s.1 && not (is_in (claim_tag name) title) ≡ false)
      × (p.1 && not (answers_challenge name response m) ≡ false)
      × (c.1 && not (verify_identity check name nonce signature r) ≡ false)
      × (p.1 && has_pending_challenge name p.0.0 ≡ false)
unfolding attempt_self_claim verify_platform_response verify_crypto_claim has_pending_challenge
    contains
claims-Claimed check codec now name j title response nonce signature m r a known = (
  self_claim-Claimed codec now name j title r a known,
  platform-Claimed codec now name j response m r a known,
  crypto-Claimed check codec now name j nonce signature r a known,
  ground arith,
  ground arith,
  ground arith,
  ground (arith, lookup-erase name name m, ==-refl name),
)
