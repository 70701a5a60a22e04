-- ===== src/Database/Rows.antt =====
-- db/src/schema: the tables that the program reads and writes, a row of each as a record.
-- Dates are milliseconds, a `numeric` is the text that the driver returns, `null` is `none`.
use frontdesk_intake.Prelude.{ℕ, String, Bool, Option, List}
use frontdesk_intake.Json.{Json}
use frontdesk_intake.Database.Enums.{
  MemberRole, RequestSource, RequestStatus, RequestUrgency, ActionKind, DocumentStatus,
}

-- schema/orgs.ts
pub record Org : Type 0 where
  pub id : String
  pub slug : String
  pub name : String
  pub is_demo : Bool
  pub daily_token_budget : ℕ
  pub settings : Json
  pub created_at : ℕ

-- schema/org-members.ts
pub record OrgMember : Type 0 where
  pub id : String
  pub org_id : String
  pub email : String
  pub role : MemberRole
  pub created_at : ℕ

-- schema/api-keys.ts
pub record ApiKey : Type 0 where
  pub id : String
  pub org_id : String
  pub key_hash : String
  pub prefix : String
  pub name : String
  pub last_used_at : Option ℕ
  pub revoked_at : Option ℕ
  pub created_at : ℕ

-- schema/requests.ts
pub record Request : Type 0 where
  pub id : String
  pub org_id : String
  pub source : RequestSource
  pub requester_name : Option String
  pub requester_email : Option String
  pub subject : String
  pub body : String
  pub tracking_token : String
  pub status : RequestStatus
  pub category : Option String
  pub urgency : Option RequestUrgency
  pub summary : Option String
  pub lane : Option String
  pub reply_text : Option String
  pub resolved_at : Option ℕ
  pub created_at : ℕ

-- schema/drafts.ts
pub record Draft : Type 0 where
  pub id : String
  pub org_id : String
  pub request_id : String
  pub version : ℕ
  pub body : String
  pub citations : Json
  pub confidence : String
  pub model : String
  pub prompt_version : String
  pub tokens_in : ℕ
  pub tokens_out : ℕ
  pub created_at : ℕ

-- schema/actions.ts
pub record Action : Type 0 where
  pub id : String
  pub org_id : String
  pub request_id : String
  pub actor_email : String
  pub kind : ActionKind
  pub before : Option Json
  pub after : Option Json
  pub reason : Option String
  pub created_at : ℕ

-- schema/documents.ts, less the two columns of raw and extracted content
pub record Document : Type 0 where
  pub id : String
  pub org_id : String
  pub title : String
  pub filename : String
  pub mime : String
  pub sha256 : String
  pub text_content : Option String
  pub status : DocumentStatus
  pub chunk_count : ℕ
  pub error : Option String
  pub created_at : ℕ

-- schema/chunks.ts, less the generated search columns
pub record Chunk : Type 0 where
  pub id : String
  pub org_id : String
  pub document_id : String
  pub ord : ℕ
  pub text : String
  pub created_at : ℕ

pub record Database : Type 0 where
  pub orgs : List Org
  pub org_members : List OrgMember
  pub api_keys : List ApiKey
  pub requests : List Request
  pub drafts : List Draft
  pub actions : List Action
  pub documents : List Document
  pub chunks : List Chunk
