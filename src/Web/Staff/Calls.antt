-- ===== src/Web/Staff/Calls.antt =====
-- Staff at work: a call of one of the three Server Actions, with the caller's session and what the
-- surroundings supply to it, and a sequence of calls.
use frontdesk_intake.Prelude.{String, Option, List, [], ◌∷◌}
use frontdesk_intake.Database.Rows.{Database}
use frontdesk_intake.Database.Tx.{Outcome, Supply}
use frontdesk_intake.Database.Order.{Postgres}
use frontdesk_intake.Web.Form.{FormData}
use frontdesk_intake.Web.Staff.{
  Navigation, approve_request_action, edit_approve_request_action, reject_request_action,
}

pub data StaffCall : Type 0 where
  approve_call : Supply → Option String → String → StaffCall
  edit_call : Supply → Option String → String → FormData → StaffCall
  reject_call : Supply → Option String → String → FormData → StaffCall

module _ (pg : Postgres) where
  unfoldable pub call : StaffCall → Database → Outcome Navigation × Database
  call (approve_call supply session id) = approve_request_action pg supply session id
  call (edit_call supply session id form) = edit_approve_request_action pg supply session id form
  call (reject_call supply session id form) = reject_request_action pg supply session id form

  -- The calls in the order in which their transactions commit.
  unfoldable pub call_all : List StaffCall → Database → Database
  call_all [] s = s
  call_all (c ∷ cs) s = call_all cs (call c s).1
