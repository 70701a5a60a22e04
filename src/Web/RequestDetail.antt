-- ===== src/Web/RequestDetail.antt =====
-- web/src/lib/requestDetail.ts: one request with its drafts, the snippets that the current draft
-- cites, and its audit trail.
pub mod Found
use frontdesk_intake.Prelude.{
  ℕ, String, Bool, true, false, ◌&&◌, not, Option, none, some, List, [], ◌∷◌, ◌++◌, ◌==◌, any,
  first, filter, map, leb, if◌then◌else◌,
}
use frontdesk_intake.Json.{Json, arr, items, as_string}
use frontdesk_intake.Database.Enums.{RequestStatus, RequestUrgency, ActionKind}
use frontdesk_intake.Database.Rows.{Database, Request, Draft, Action, Chunk}
use frontdesk_intake.Database.Tx.{Outcome, Tx, pure, ◌>>=◌}
use frontdesk_intake.Database.Statements.{
  select_requests, select_drafts, select_actions, select_chunks,
}
use frontdesk_intake.Database.Order.{Postgres}
use frontdesk_intake.Database.Client.{for_org}
use frontdesk_intake.Web.Staff.{is_request, is_draft_of, version_desc}

pub record RequestDetailDraft : Type 0 where
  pub id : String
  pub version : ℕ
  pub body : String
  pub citations : List String
  pub confidence : String
  pub model : String
  pub created_at : ℕ

pub record RequestDetailAction : Type 0 where
  pub id : String
  pub actor_email : String
  pub kind : ActionKind
  pub before : Option Json
  pub after : Option Json
  pub reason : Option String
  pub created_at : ℕ

pub record CitationSnippet : Type 0 where
  pub chunk_id : String
  pub text : String

pub record RequestDetailRequest : Type 0 where
  pub id : String
  pub subject : String
  pub body : String
  pub requester_name : Option String
  pub requester_email : Option String
  pub status : RequestStatus
  pub category : Option String
  pub urgency : Option RequestUrgency
  pub lane : Option String
  pub summary : Option String
  pub reply_text : Option String
  pub created_at : ℕ

pub record RequestDetail : Type 0 where
  pub request : RequestDetailRequest
  pub drafts : List RequestDetailDraft
  pub latest_draft : Option RequestDetailDraft
  pub citations : List CitationSnippet
  pub action_history : List RequestDetailAction

pub data RequestDetailView : Type 0 where
  not_found : RequestDetailView
  found : RequestDetail → RequestDetailView

-- the texts of a list, or nothing for a value that is no list
abbrev texts : List Json → List String
texts [] = []
texts (j ∷ js) = let rest = texts js in elim (as_string j) [ none ↦ rest | some s ↦ s ∷ rest ]

unfoldable pub parse_citations : Json → List String
parse_citations (arr values) = texts (items values)
parse_citations _ = []

abbrev pub detail_request : Request → RequestDetailRequest
detail_request r = record {
  id = r.id;
  subject = r.subject;
  body = r.body;
  requester_name = r.requester_name;
  requester_email = r.requester_email;
  status = r.status;
  category = r.category;
  urgency = r.urgency;
  lane = r.lane;
  summary = r.summary;
  reply_text = r.reply_text;
  created_at = r.created_at;
}

unfoldable pub detail_draft : Draft → RequestDetailDraft
unfolding parse_citations
detail_draft d = record {
  id = d.id;
  version = d.version;
  body = d.body;
  citations = parse_citations d.citations;
  confidence = d.confidence;
  model = d.model;
  created_at = d.created_at;
}

abbrev pub detail_action : Action → RequestDetailAction
detail_action a = record {
  id = a.id;
  actor_email = a.actor_email;
  kind = a.kind;
  before = a.before;
  after = a.after;
  reason = a.reason;
  created_at = a.created_at;
}

-- `new Map(rows.map((c) => [c.id, c.text])).get(id)`: the last row with the id
unfoldable pub by_id : List Chunk → String → Option String
by_id [] id = none
by_id (c ∷ cs) id = elim (by_id cs id) [
  | some text ↦ some text
  | none ↦ if c.id == id then some c.text else none
]

-- the cited chunks that were found, in the order of the citations
unfoldable pub snippets : List Chunk → List String → List CitationSnippet
unfolding by_id
snippets rows [] = []
snippets rows (id ∷ ids) =
    let rest = snippets rows ids in
    elim (by_id rows id) [ none ↦ rest | some text ↦ record { chunk_id = id; text = text } ∷ rest ]

abbrev pub is_cited : String → List String → Chunk → Bool
is_cited org_id ids c = c.org_id == org_id && any (λ id. id == c.id) ids

-- nothing is looked up for a draft without citations
unfoldable pub select_cited : String → List String → Tx (List CitationSnippet)
unfolding snippets
select_cited org_id [] = pure []
select_cited org_id (id ∷ ids) = do
  rows ← select_chunks (is_cited org_id (id ∷ ids))
  pure (snippets rows (id ∷ ids))

unfoldable pub citation_snippets : String → Option RequestDetailDraft → Tx (List CitationSnippet)
unfolding select_cited
citation_snippets org_id none = pure []
citation_snippets org_id (some d) = select_cited org_id d.citations

abbrev pub is_action_of : String → String → Action → Bool
is_action_of org_id id a = a.org_id == org_id && a.request_id == id

-- ORDER BY created_at DESC
abbrev pub action_desc : Action → Action → Bool
action_desc a b = leb b.created_at a.created_at

module _ (pg : Postgres) where
  unfoldable pub detail_of : String → String → Option Request → Tx RequestDetailView
  unfolding citation_snippets detail_draft
  detail_of org_id request_id none = pure not_found
  detail_of org_id request_id (some row) = do
    draft_rows ← select_drafts (is_draft_of org_id request_id)
    let draft_list = map detail_draft (pg.order_by version_desc draft_rows)
    cited ← citation_snippets org_id (first draft_list)
    action_rows ← select_actions (is_action_of org_id request_id)
    pure (
        found (record {
          request = detail_request row;
          drafts = draft_list;
          latest_draft = first draft_list;
          citations = cited;
          action_history = map detail_action (pg.order_by action_desc action_rows);
        }))

  unfoldable pub request_detail_tx : String → String → Tx RequestDetailView
  unfolding detail_of
  request_detail_tx request_id org_id = do
    rows ← select_requests (is_request org_id request_id)
    detail_of org_id request_id (first rows)

  unfoldable pub get_request_detail : String → String → Database → Outcome RequestDetailView
  unfolding request_detail_tx
  get_request_detail org_id request_id s = (for_org org_id (request_detail_tx request_id) s).0
