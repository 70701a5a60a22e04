-- ===== src/Database/Enums.antt =====
-- db/src/schema/enums.ts
use frontdesk_intake.Prelude.{ℕ, String, Bool, true, false, ◌≡◌, ◌↔◌, List, [], ◌∷◌, nat_beq, arith}

pub data MemberRole : Type 0 where
  owner staff : MemberRole

pub data RequestSource : Type 0 where
  form api : RequestSource

pub data RequestStatus : Type 0 where
  received triaging drafted needs_human approved rejected : RequestStatus

pub data RequestUrgency : Type 0 where
  low normal high : RequestUrgency

pub data ActionKind : Type 0 where
  approve edit reject : ActionKind

pub data DocumentStatus : Type 0 where
  pending indexed failed : DocumentStatus

-- `requestStatus.enumValues`
abbrev pub request_statuses : List RequestStatus
request_statuses = received ∷ triaging ∷ drafted ∷ needs_human ∷ approved ∷ rejected ∷ []

-- the text that stands for a status in the database and in a query string
unfoldable pub status_text : RequestStatus → String
status_text received = "received"
status_text triaging = "triaging"
status_text drafted = "drafted"
status_text needs_human = "needs_human"
status_text approved = "approved"
status_text rejected = "rejected"

unfoldable pub urgency_text : RequestUrgency → String
urgency_text low = "low"
urgency_text normal = "normal"
urgency_text high = "high"

abbrev status_index : RequestStatus → ℕ
status_index received = 0
status_index triaging = 1
status_index drafted = 2
status_index needs_human = 3
status_index approved = 4
status_index rejected = 5

abbrev pub status_beq : RequestStatus → RequestStatus → Bool
status_beq a b = nat_beq (status_index a) (status_index b)

pub status_beq_iff : (a b : RequestStatus) → (status_beq a b ≡ true) ↔ (a ≡ b)
status_beq_iff a b = ground arith

abbrev pub document_is_pending : DocumentStatus → Bool
document_is_pending pending = true
document_is_pending _ = false
