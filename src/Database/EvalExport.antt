-- ===== src/Database/EvalExport.antt =====
-- db/src/eval-export.ts: what staff edited and rejected, as candidates for evaluation.
pub mod Command
pub mod Corrections
use frontdesk_intake.Prelude.{
  ℕ, String, Bool, true, false, ◌&&◌, ◌||◌, Option, none, some, List, [], ◌∷◌, ◌++◌, ◌==◌, filter,
  map, any, leb, ltb, nat_beq, if◌then◌else◌,
}
use Prim.Native.String.{◌++◌ as str_append}
use frontdesk_intake.Json.{Json, num, str, obj, get_field}
use frontdesk_intake.Database.Enums.{
  ActionKind, approve, edit, reject, RequestUrgency, urgency_text,
}
use frontdesk_intake.Database.Rows.{Database, Request, Draft, Action}
use frontdesk_intake.Database.Tx.{Outcome, Tx, pure, ok, ◌>>=◌}
use frontdesk_intake.Database.Statements.{select_drafts, visible}
use frontdesk_intake.Database.Order.{Postgres}
use frontdesk_intake.Database.Client.{for_org}

pub record CandidateProvenance : Type 0 where
  pub action : ActionKind
  pub action_id : String
  pub request_id : String
  pub actor : String
  pub at : ℕ
  pub model_reply : Option String
  pub human_reply : Option String
  pub reason : Option String

pub record CandidateExample : Type 0 where
  pub id : String
  pub subject : String
  pub body : String
  pub expected_category : String
  pub expected_urgency : String
  pub provenance : CandidateProvenance

abbrev pub is_exported : ActionKind → Bool
is_exported approve = false
is_exported edit = true
is_exported reject = true

-- `snapshot(value)[key]`: a value that is no object has no fields
unfoldable pub snapshot_field : String → Option Json → Option Json
snapshot_field key (some (obj fields)) = get_field key fields
snapshot_field key _ = none

-- `typeof value === "number"`
abbrev as_number : Option Json → Option ℕ
as_number (some (num n)) = some n
as_number _ = none

abbrev as_text : Option Json → Option String
as_text (some (str s)) = some s
as_text _ = none

unfoldable pub snapshot_version : Option Json → Option ℕ
unfolding snapshot_field
snapshot_version value = as_number (snapshot_field "draftVersion" value)

unfoldable pub snapshot_reply : Option Json → Option String
unfolding snapshot_field
snapshot_reply value = as_text (snapshot_field "replyText" value)

-- INNER JOIN on the org and the request, of the rows that the policies show
abbrev pub joins : Action → Request → Bool
joins a r = r.org_id == a.org_id && r.id == a.request_id

abbrev pub joined : List Action → List Request → List (Action × Request)
joined [] requests = []
joined (a ∷ actions) requests =
    map (λ r. (a, r)) (filter (joins a) requests) ++ joined actions requests

abbrev pub exported_of : String → Action × Request → Bool
exported_of org_id row = row.0.org_id == org_id && is_exported row.0.kind

-- The drafts by request and version. Of two rows with one key the later one counts.
unfoldable pub draft_body : List Draft → String → ℕ → Option String
draft_body [] request_id version = none
draft_body (d ∷ ds) request_id version = elim (draft_body ds request_id version) [
  | some body ↦ some body
  | none ↦ if d.request_id == request_id && nat_beq d.version version then some d.body else none
]

abbrev reply_at : List Draft → String → Option ℕ → Option String
reply_at drafts request_id none = none
reply_at drafts request_id (some version) = draft_body drafts request_id version

abbrev human_text : ActionKind → Option String → Option String
human_text edit text = text
human_text _ text = none

abbrev stated_reason : ActionKind → Option String → Option String
stated_reason reject reason = reason
stated_reason _ reason = none

abbrev category_or : Option String → String
category_or none = "other"
category_or (some c) = c

abbrev urgency_or : Option RequestUrgency → String
urgency_or none = "normal"
urgency_or (some u) = urgency_text u

unfoldable pub candidate : List Draft → Action × Request → CandidateExample
unfolding snapshot_version snapshot_reply draft_body
candidate drafts (a, r) = record {
  id = str_append "candidate-" a.id;
  subject = r.subject;
  body = r.body;
  expected_category = category_or r.category;
  expected_urgency = urgency_or r.urgency;
  provenance = record {
    action = a.kind;
    action_id = a.id;
    request_id = r.id;
    actor = a.actor_email;
    at = a.created_at;
    model_reply = reply_at drafts r.id (snapshot_version a.before);
    human_reply = human_text a.kind (snapshot_reply a.after);
    reason = stated_reason a.kind a.reason;
  };
}

-- The drafts of the requests that the rows name; nothing is read for no rows.
abbrev pub of_rows : String → List (Action × Request) → Draft → Bool
of_rows org_id rows d = d.org_id == org_id && any (λ x. x.1.id == d.request_id) rows

unfoldable pub draft_rows : String → List (Action × Request) → Tx (List Draft)
draft_rows org_id [] = pure []
draft_rows org_id (x ∷ xs) = select_drafts (of_rows org_id (x ∷ xs))

-- `uuid_le` is the server's order of uuids.
module _ (pg : Postgres) (uuid_le : String → String → Bool) where
  -- ORDER BY created_at ASC, id ASC
  abbrev pub oldest_first : Action × Request → Action × Request → Bool
  oldest_first x y =
      ltb x.0.created_at y.0.created_at
      || (nat_beq x.0.created_at y.0.created_at && uuid_le x.0.id y.0.id)

  unfoldable pub select_joined : String → Tx (List (Action × Request))
  select_joined org_id guc s = (
    ok (
        pg.order_by oldest_first (
          filter (exported_of org_id) (
            joined (filter (λ a. visible guc a.org_id) s.actions)
              (filter (λ r. visible guc r.org_id) s.requests)))),
    s,
  )

  unfoldable pub export_tx : String → Tx (List CandidateExample)
  unfolding select_joined draft_rows candidate
  export_tx org_id = do
    rows ← select_joined org_id
    drafts ← draft_rows org_id rows
    pure (map (candidate drafts) rows)

  unfoldable pub export_candidates : String → Database → Outcome (List CandidateExample)
  unfolding export_tx
  export_candidates org_id s = (for_org org_id export_tx s).0
