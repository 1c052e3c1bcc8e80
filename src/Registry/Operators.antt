-- ===== src/Registry/Operators.antt =====
-- The operators: command-line agents, bots and webhooks that are let in by an access class.
use agent_city.Prelude.{
  String, Bool, false, not, Option, none, some, [], ◌∷◌, ◌++◌, ltb, if◌then◌else◌,
}
use agent_city.Prelude.Key.{◌==◌, text_key}
use agent_city.Prelude.Json
use agent_city.Prelude.Json.{Json}
use agent_city.Prelude.Dict.{Dict, lookup}
use Prim.Native.String.{◌++◌ as join}
use agent_city.Access.{
  Membrane, operator, level, access_of, can_write, can_modify_protected, ClaimLevel,
  AuthorityRequirement,
}
use agent_city.Registry.{
  Codec, Registry, Operator, Outcome, returned, permission_error, value_error, integrity_error,
  record_event, may,
}

unfoldable pub operator_requirement : String → AuthorityRequirement
operator_requirement class = record {
  access = elim (access_of class) [
    | none ↦ operator
    | some a ↦ if ltb (level a) (level operator) then operator else a
  ];
  claim = ClaimLevel.discovered;
}

unfoldable pub get_operator : String → Registry → Option Operator
get_operator name r = lookup name r.operators

-- The table has a constraint on the access class. The first 16 characters of a digest are the argument `short`.
unfoldable pub register_operator :
    Codec
    → (String → String)
    → String
    → String
    → String
    → String
    → String
    → String
    → Option Membrane
    → Registry
    → Registry × Outcome
register_operator codec short now name type class by author membrane r =
    let entry = Json.object (
      Json.field "operator_type" (Json.text type)
        (Json.field "registered_by" (Json.text by) Json.end)) in
    let made : Operator = record {
      operator_type = type;
      access_class = class;
      fingerprint =
          short
            (codec.digest (join name (join "|" (join type (join "|" (join by (join "|" now)))))));
      registered_by = by;
      registered_at = now;
      updated_at = now;
    } in
    if not (may membrane author (operator_requirement class))
    then (r, permission_error)
    else elim (get_operator name r) [
      | some _ ↦ (r, returned)
      | none ↦ elim (access_of class) [
        | none ↦ (r, integrity_error)
        | some _ ↦ (
          record_event codec now name "register_operator" none class (codec.dumps entry)
              (record r { operators = r.operators ++ (name, made) ∷ [] }),
          returned,
        )
      ]
    ]

unfoldable pub update_operator :
    String → (Operator → Operator) → Dict String Operator → Dict String Operator
update_operator name f [] = []
update_operator name f ((j, o) ∷ d) =
    if j == name then (j, f o) ∷ d else (j, o) ∷ update_operator name f d

unfoldable pub check_operator_access : String → String → Registry → Bool
check_operator_access name action r = elim (get_operator name r) [
  | none ↦ false
  | some o ↦ elim (access_of o.access_class) [
    | none ↦ false
    | some a ↦
        if action == "write"
        then can_write a
        else if action == "modify_protected"
        then can_modify_protected a
        else false
  ]
]

unfoldable pub update_operator_access :
    Codec
    → String
    → String
    → String
    → String
    → String
    → Option Membrane
    → Registry
    → Registry × Outcome
update_operator_access codec now name class reason author membrane r =
    if not (may membrane author (operator_requirement class))
    then (r, permission_error)
    else elim (get_operator name r) [
      | none ↦ (r, value_error)
      | some o ↦ elim (access_of class) [
        | none ↦ (r, integrity_error)
        | some _ ↦ (
          record_event codec now name "access_change" (some o.access_class) class reason (record r {
            operators =
                update_operator name (λ p. record p { access_class = class; updated_at = now })
                  r.operators;
          }),
          returned,
        )
      ]
    ]
