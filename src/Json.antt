-- ===== src/Json.antt =====
-- JSON values, as `jsonb` columns, request bodies and queue messages hold them. Numbers are the
-- non-negative integers, the only ones that the program computes for such a value itself; any other
-- number is its text.
use frontdesk_intake.Prelude.{
  ℕ, String, Bool, Option, none, some, List, [], ◌∷◌, ◌==◌, if◌then◌else◌,
}

mutual
  pub data Json : Type 0 where
    null : Json
    bool : Bool → Json
    num : ℕ → Json
    number : String → Json
    str : String → Json
    arr : Items → Json
    obj : Fields → Json

  pub data Items : Type 0 where
    nil : Items
    cons : Json → Items → Items

  pub data Fields : Type 0 where
    end : Fields
    field : String → Json → Fields → Fields

-- `value[key]`: `none` is `undefined`.
unfoldable pub get_field : String → Fields → Option Json
get_field key end = none
get_field key (field k v rest) = if k == key then some v else get_field key rest

unfoldable pub keys : Fields → List String
keys end = []
keys (field k v rest) = k ∷ keys rest

unfoldable pub items : Items → List Json
items nil = []
items (cons v rest) = v ∷ items rest

-- `typeof value === "string"`
abbrev pub as_string : Json → Option String
as_string (str s) = some s
as_string _ = none
