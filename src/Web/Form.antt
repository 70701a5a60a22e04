-- ===== src/Web/Form.antt =====
-- Values of a submitted form, and `stringField` of web/src/lib/staffActions.ts and actions.ts.
use frontdesk_intake.Prelude.{String, trim}

-- `formData.get(name)`: a text, an uploaded file, or `null`
pub data FormEntry : Type 0 where
  text : String → FormEntry
  file : FormEntry
  absent : FormEntry

abbrev pub FormData : Type 0
FormData = String → FormEntry

unfoldable pub string_field : FormData → String → String
string_field form name = elim (form name) [ text value ↦ trim value | file ↦ "" | absent ↦ "" ]
