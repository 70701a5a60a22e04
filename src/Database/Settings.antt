-- ===== src/Database/Settings.antt =====
-- db/src/settings.ts: what orgs.settings holds, beyond the shape of its JSON.
use frontdesk_intake.Prelude.{
  String, Bool, true, Option, none, some, List, [], ◌∷◌, any, all, ◌==◌, if◌then◌else◌,
}
use frontdesk_intake.Json.{Json, str, arr, obj, nil, cons, end, field, Items, Fields}
use frontdesk_intake.Database.Tx.{Outcome, ok, err, thrown}

-- a JSON object whose values are texts
pub record Entry : Type 0 where
  pub key : String
  pub value : String

pub record OrgSettings : Type 0 where
  pub categories : List String
  pub lanes : List Entry
  pub category_descriptions : Option (List Entry)
  pub similarity_floor : Option Json

-- `record[key]`
unfoldable pub entry_value : List Entry → String → Option String
entry_value [] key = none
entry_value (e ∷ es) key = if e.key == key then some e.value else entry_value es key

abbrev pub text_items : List String → Items
text_items [] = nil
text_items (t ∷ ts) = cons (str t) (text_items ts)

abbrev pub entry_fields : List Entry → Fields
entry_fields [] = end
entry_fields (e ∷ es) = field e.key (str e.value) (entry_fields es)

abbrev optional_field : String → Option Json → Fields → Fields
optional_field key none rest = rest
optional_field key (some v) rest = field key v rest

abbrev pub descriptions_json : Option (List Entry) → Option Json
descriptions_json none = none
descriptions_json (some es) = some (obj (entry_fields es))

-- the settings as the `jsonb` column stores them
unfoldable pub settings_json : OrgSettings → Json
settings_json s = obj (
    field "categories" (arr (text_items s.categories)) (
      field "lanes" (obj (entry_fields s.lanes)) (
        optional_field "categoryDescriptions" (descriptions_json s.category_descriptions)
          (optional_field "similarityFloor" s.similarity_floor end))))

-- the schema's `refine`
abbrev pub names_configured : OrgSettings → Bool
names_configured s = elim s.category_descriptions [
  | none ↦ true
  | some es ↦ all (λ (e : Entry). any (λ c. c == e.key) s.categories) es
]

-- `orgSettingsSchema.parse`, after the shape was checked
unfoldable pub refine_settings : Outcome OrgSettings → Outcome OrgSettings
refine_settings (err e) = err e
refine_settings (ok s) =
    if names_configured s
    then ok s
    else err (thrown "categoryDescriptions may only name configured categories")
