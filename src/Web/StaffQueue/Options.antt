-- ===== src/Web/StaffQueue/Options.antt =====
-- getStaffQueueFilterOptions of web/src/lib/staffQueue.ts: the filter values of an org.
use frontdesk_intake.Prelude.{
  String, Option, none, some, List, [], map, first, ◌==◌, sort_texts, without_repeats,
}
use frontdesk_intake.Json.{Json, obj, end}
use frontdesk_intake.Database.Enums.{request_statuses}
use frontdesk_intake.Database.Rows.{Database, Org}
use frontdesk_intake.Database.Tx.{Outcome, ok, err}
use frontdesk_intake.Database.Statements.{select_orgs}
use frontdesk_intake.Database.Settings.{OrgSettings, Entry, refine_settings}
use frontdesk_intake.Web.StaffQueue.{StaffQueueFilterOptions}

-- zod's check of the shape of a settings value, before the schema's `refine`
abbrev pub SettingsSchema : Type 0
SettingsSchema = Json → Outcome OrgSettings

-- `row?.settings ?? {}`
abbrev settings_of : Option Org → Json
settings_of none = obj end
settings_of (some o) = o.settings

abbrev pub lane_values : OrgSettings → List String
lane_values settings = map (λ (e : Entry). e.value) settings.lanes

abbrev options_of : Outcome OrgSettings → Outcome StaffQueueFilterOptions
unfolding sort_texts without_repeats
options_of (err e) = err e
options_of (ok settings) = ok (record {
  statuses = request_statuses;
  lanes = sort_texts (without_repeats [] (lane_values settings));
  categories = settings.categories;
})

unfoldable pub get_staff_queue_filter_options :
    SettingsSchema → String → Database → Outcome StaffQueueFilterOptions
unfolding refine_settings sort_texts without_repeats
get_staff_queue_filter_options schema org_id s =
    options_of
      (refine_settings (schema (settings_of (first (select_orgs (λ o. o.id == org_id) s)))))
