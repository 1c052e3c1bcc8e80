-- ===== src/Prelude/Json.antt =====
-- A decoded JSON value: what the source passes about as nested dicts.
use Prim.Native.String.{String}
use mathlib.Core.Bool.{Bool}
use mathlib.Core.List.{[], ◌∷◌}
use agent_city.Prelude.Int.{ℤ}
use agent_city.Prelude.Dict.{Dict}

mutual
  pub data Json : Type 0 where
    null : Json
    boolean : Bool → Json
    number : ℤ → Json
    text : String → Json
    array : Items → Json
    object : Fields → Json

  pub data Items : Type 0 where
    nil : Items
    cons : Json → Items → Items

  pub data Fields : Type 0 where
    end : Fields
    field : String → Json → Fields → Fields

-- The entries of an object, as a dict.
abbrev pub entries : Fields → Dict String Json
entries end = []
entries (field k v fs) = (k, v) ∷ entries fs
