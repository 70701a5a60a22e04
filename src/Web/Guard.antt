-- ===== src/Web/Guard.antt =====
-- web/src/lib/auth-guard.ts and web/proxy.ts. Who signed in is a parameter: the email of the
-- session that Auth.js finds for a request, if any.
use frontdesk_intake.Prelude.{
  String, Option, none, some, List, [], ◌∷◌, is_empty, any, ◌==◌, if◌then◌else◌,
}
use frontdesk_intake.Database.Enums.{MemberRole}
use frontdesk_intake.Database.Rows.{Database}
use frontdesk_intake.Database.Tx.{Outcome, ok, err, thrown}
use frontdesk_intake.Database.Order.{Postgres}
use frontdesk_intake.Database.Client.{Membership, resolve_membership}

pub record AuthenticatedMembership : Type 0 where
  pub org_id : String
  pub role : MemberRole
  pub email : String

pub record AuthState : Type 0 where
  pub email : Option String
  pub membership : Option Membership

-- The membership is looked up anew on every request.
unfoldable pub resolve_auth_state : Postgres → Option String → Database → AuthState
resolve_auth_state pg none s = record { email = none; membership = none }
resolve_auth_state pg (some email) s =
    if is_empty email
    then record { email = none; membership = none }
    else record { email = some email; membership = resolve_membership pg email s }

abbrev pub with_email : Membership → String → AuthenticatedMembership
with_email m email = record { org_id = m.org_id; role = m.role; email = email }

-- What a page does about its visitor: send them to sign in, or show the "not a member" page, or
-- go on with the membership.
pub data Visitor : Type 0 where
  redirected : String → Visitor
  not_a_member : Visitor
  member : AuthenticatedMembership → Visitor

abbrev pub page_visitor : Option String → Option Membership → Visitor
page_visitor none m = redirected "/api/auth/signin"
page_visitor (some email) none = not_a_member
page_visitor (some email) (some m) = member (with_email m email)

unfoldable pub require_session_or_redirect : Postgres → Option String → Database → Visitor
unfolding resolve_auth_state
require_session_or_redirect pg session s =
    let state = resolve_auth_state pg session s in page_visitor state.email state.membership

abbrev pub action_member : Option String → Option Membership → Outcome AuthenticatedMembership
action_member (some email) (some m) = ok (with_email m email)
action_member _ _ = err (thrown "Not authenticated, or not a member of any organization.")

unfoldable pub require_membership_for_action :
    Postgres → Option String → Database → Outcome AuthenticatedMembership
unfolding resolve_auth_state
require_membership_for_action pg session s =
    let state = resolve_auth_state pg session s in action_member state.email state.membership

-- proxy.ts: the cheap check of a cookie's presence, given the names of the request's cookies.
abbrev pub session_cookie_names : List String
session_cookie_names = "authjs.session-token" ∷ "__Secure-authjs.session-token" ∷ []

pub data ProxyResult : Type 0 where
  next : ProxyResult
  sign_in : String → ProxyResult

unfoldable pub proxy : List String → String → ProxyResult
proxy cookies pathname =
    if any (λ name. any (λ c. c == name) cookies) session_cookie_names
    then next
    else sign_in pathname
