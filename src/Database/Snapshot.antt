-- ===== src/Database/Snapshot.antt =====
-- What a staff action stores of a request before and after it, in web/src/lib/staffActions.ts and
-- in the seed.
use frontdesk_intake.Prelude.{ℕ, String, Option, none, some}
use frontdesk_intake.Json.{Json, null, num, str, obj, end, field}
use frontdesk_intake.Database.Enums.{RequestStatus, status_text}

-- The shape of `actions.before` and `actions.after`.
pub record ActionSnapshot : Type 0 where
  pub status : RequestStatus
  pub reply_text : Option String
  pub draft_version : Option ℕ

abbrev pub or_null_str : Option String → Json
or_null_str none = null
or_null_str (some t) = str t

abbrev pub or_null_num : Option ℕ → Json
or_null_num none = null
or_null_num (some n) = num n

-- the object literal that is stored in a `jsonb` column
unfoldable pub snapshot_json : ActionSnapshot → Json
snapshot_json a = obj (
    field "status" (str (status_text a.status)) (
      field "replyText" (or_null_str a.reply_text)
        (field "draftVersion" (or_null_num a.draft_version) end)))
