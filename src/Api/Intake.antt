-- ===== src/Api/Intake.antt =====
-- api/src/routes/requests.ts: POST /api/v1/orgs/:slug/requests, with api-key.ts and turnstile.ts.
pub mod Created
pub mod Ordered
pub mod Refused
pub mod Accepted
use frontdesk_intake.Prelude.{
  ℕ, String, Bool, true, false, ◌&&◌, not, Option, none, some, ◌==◌, ◌≡◌, first, is_empty, trim,
  ltb, utf16_length, nat_beq, if◌then◌else◌,
}
use Prim.Native.String.{◌++◌ as str_append, [], ◌∷◌}
use Prim.Native.Char.{code}
use frontdesk_intake.Json.{Json, str, obj, get_field, as_string}
use frontdesk_intake.Database.Enums.{RequestSource, form, api, received}
use frontdesk_intake.Database.Rows.{Database, Org, Request}
use frontdesk_intake.Database.Tx.{Outcome, ok, err, Error, Tx, pure, ◌>>=◌, ◌>>◌, Supply}
use frontdesk_intake.Database.Statements.{select_orgs, insert_request}
use frontdesk_intake.Database.Client.{for_org, resolve_api_key, ApiKeyResolution}
use frontdesk_intake.Api.Problem.{Problem, problem}
use frontdesk_intake.Api.Queue.{Queue, MessageSchema, triage_message, assert_triage_message}

pub record RequestBody : Type 0 where
  pub requester_name : Option String
  pub requester_email : Option String
  pub subject : String
  pub body : String

-- `bodySchema.safeParse`
pub data Parsed : Type 0 where
  success : RequestBody → Parsed
  failure : String → Parsed

-- The answer of Cloudflare's siteverify: no answer with an OK status, its `success` field, or a call
-- that throws.
pub data SiteVerify : Type 0 where
  not_ok : SiteVerify
  answered : Option Bool → SiteVerify
  unreachable : Error → SiteVerify

-- What the route is built with, and what it calls outside the repository: zod's schemas, SHA-256
-- and Cloudflare.
pub record RequestsRouteDeps : Type 1 where
  pub queue : Queue
  pub public_web_origin : String
  pub body_schema : Json → Parsed
  -- `z.string().trim().min(1)`: a parsed subject or body is not empty
  pub subject_given :
      (raw : Json) (b : RequestBody) → body_schema raw ≡ success b → is_empty b.subject ≡ false
  pub body_given :
      (raw : Json) (b : RequestBody) → body_schema raw ≡ success b → is_empty b.body ≡ false
  pub message_schema : MessageSchema "requestId"
  pub sha256_hex : String → String
  pub siteverify : String → SiteVerify

-- What the handler reads of a request; a body that is absent or `null` counts as `{}`.
pub record IncomingRequest : Type 0 where
  pub slug : String
  pub authorization : Option String
  pub raw_body : Json

pub record IntakeSupply : Type 0 where
  pub database : Supply
  pub tracking_token : String

pub data Reply : Type 0 where
  refused : Problem → Reply
  created : String → String → Reply
  failed : Error → Reply

-- `rawBody[key]`
abbrev pub body_field : String → Json → Option Json
body_field key (obj fields) = get_field key fields
body_field key _ = none

abbrev some_string : Option Json → Option String
some_string none = none
some_string (some j) = as_string j

-- the text after a prefix
unfoldable pub after_prefix : String → String → Option String
after_prefix [] s = some s
after_prefix (c ∷ p) [] = none
after_prefix (c ∷ p) (d ∷ s) =
    let rest = after_prefix p s in if nat_beq (code c) (code d) then rest else none

-- `startsWith("Bearer ") && length > 7`; the rest is `slice("Bearer ".length)`
abbrev pub bearer : Option String → Option String
bearer none = none
bearer (some header) = if ltb 7 (utf16_length header) then after_prefix "Bearer " header else none

abbrev pub turnstile_token : Json → Option String
turnstile_token raw = elim (some_string (body_field "cf-turnstile-response" raw)) [
  | none ↦ none
  | some token ↦ if is_empty token then none else some token
]

unfoldable pub get_org_by_slug : String → Database → Option Org
get_org_by_slug slug s = first (select_orgs (λ o. o.slug == slug) s)

-- Which org a request is for, and how it came: or the problem to send.
pub data Caller : Type 0 where
  turned_away : Problem → Caller
  crashed : Error → Caller
  admitted : String → RequestSource → Caller

abbrev pub no_such_org : String → Caller
no_such_org slug = turned_away (problem 404 "Not Found" (str_append "no such org: " slug))

abbrev pub key_caller : String → Option ApiKeyResolution → Option Org → Caller
key_caller slug none org = turned_away (problem 401 "Unauthorized" "invalid or revoked API key")
key_caller slug (some resolved) none = no_such_org slug
key_caller slug (some resolved) (some org) =
    if not (org.id == resolved.org_id) then no_such_org slug else admitted resolved.org_id api

abbrev pub form_caller : String → Outcome Bool → Option Org → Caller
form_caller slug (err e) org = crashed e
form_caller slug (ok false) org =
    turned_away (problem 403 "Forbidden" "Turnstile verification failed")
form_caller slug (ok true) none = no_such_org slug
form_caller slug (ok true) (some org) = admitted org.id form

-- the row as inserted, with the columns' defaults
abbrev pub new_request : IntakeSupply → String → RequestSource → RequestBody → Request
new_request supply org_id source parsed = record {
  id = supply.database.uuid 0;
  org_id = org_id;
  source = source;
  requester_name = parsed.requester_name;
  requester_email = parsed.requester_email;
  subject = parsed.subject;
  body = parsed.body;
  tracking_token = supply.tracking_token;
  status = received;
  category = none;
  urgency = none;
  summary = none;
  lane = none;
  reply_text = none;
  resolved_at = none;
  created_at = supply.database.now;
}

-- INSERT … RETURNING id
unfoldable pub insert_returning : Request → Tx String
insert_returning row = do insert_request row; pure row.id

abbrev pub both_or_neither : Reply
both_or_neither = refused (
    problem 400 "Bad Request"
      "exactly one of an API key (Authorization: Bearer <key>) or cf-turnstile-response is required")

module _ (deps : RequestsRouteDeps) where
  open deps use {queue, public_web_origin, body_schema, message_schema, sha256_hex, siteverify}

  unfoldable pub hash_api_key : String → String
  hash_api_key key = sha256_hex key

  unfoldable pub verify_turnstile : String → Outcome Bool
  verify_turnstile token = elim (siteverify token) [
    | not_ok ↦ ok false
    | answered none ↦ ok false
    | answered (some verdict) ↦ ok verdict
    | unreachable e ↦ err e
  ]

  -- The lookup of a key stamps it, also if the request is then refused.
  unfoldable pub api_key_caller : ℕ → String → String → Database → Caller × Database
  unfolding hash_api_key
  api_key_caller now slug rest s =
      let (resolved, t) = resolve_api_key now (hash_api_key (trim rest)) s in
      (key_caller slug resolved (get_org_by_slug slug t), t)

  unfoldable pub turnstile_caller : String → String → Database → Caller × Database
  unfolding verify_turnstile
  turnstile_caller slug token s =
      (form_caller slug (verify_turnstile token) (get_org_by_slug slug s), s)

  abbrev pub World : Type 0
  World = Database × queue.State

  abbrev pub sent : IntakeSupply → Database → Outcome String × queue.State → Reply × World
  sent supply s (err e, q) = (failed e, (s, q))
  sent supply s (ok id, q) = (
    created supply.tracking_token
        (str_append public_web_origin (str_append "/t/" supply.tracking_token)),
    (s, q),
  )

  -- after the transaction: the message is checked, and sent
  abbrev pub enqueue : IntakeSupply → Json → Database → queue.State → Reply × World
  enqueue supply message s q = elim (assert_triage_message message_schema message) [
    | err e ↦ (failed e, (s, q))
    | ok checked ↦ sent supply s (queue.send message q)
  ]

  abbrev pub inserted :
      IntakeSupply → String → queue.State → Outcome String × Database → Reply × World
  inserted supply org_id q (err e, s) = (failed e, (s, q))
  inserted supply org_id q (ok request_id, s) =
      enqueue supply (triage_message org_id request_id) s q

  abbrev pub store : IntakeSupply → RequestBody → queue.State → Caller × Database → Reply × World
  store supply parsed q (turned_away p, s) = (refused p, (s, q))
  store supply parsed q (crashed e, s) = (failed e, (s, q))
  store supply parsed q (admitted org_id source, s) =
      inserted supply org_id q
        (for_org org_id (λ scoped. insert_returning (new_request supply org_id source parsed)) s)

  -- with exactly one way to authenticate
  abbrev pub with_body :
      IntakeSupply → Parsed → (Database → Caller × Database) → World → Reply × World
  with_body supply (failure issues) who w = (refused (problem 400 "Bad Request" issues), w)
  with_body supply (success parsed) who (s, q) = store supply parsed q (who s)

  abbrev pub by_mode :
      IntakeSupply → IncomingRequest → Option String → Option String → World → Reply × World
  by_mode supply req none none w = (both_or_neither, w)
  by_mode supply req (some rest) (some token) w = (both_or_neither, w)
  by_mode supply req (some rest) none w =
      with_body supply (body_schema req.raw_body) (api_key_caller supply.database.now req.slug rest)
        w
  by_mode supply req none (some token) w =
      with_body supply (body_schema req.raw_body) (turnstile_caller req.slug token) w

  unfoldable pub post_request : IntakeSupply → IncomingRequest → World → Reply × World
  unfolding api_key_caller turnstile_caller insert_returning
  post_request supply req w =
      by_mode supply req (bearer req.authorization) (turnstile_token req.raw_body) w
