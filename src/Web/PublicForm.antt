-- ===== src/Web/PublicForm.antt =====
-- web/src/lib/actions.ts and submitState.ts: the public form's Server Action, which posts to the
-- API. The network is a parameter, and each request made is recorded.
pub mod Posts
use frontdesk_intake.Prelude.{
  ℕ, String, Bool, true, false, ◌||◌, Option, none, some, List, [], ◌∷◌, ◌++◌, is_empty, nat_beq,
  leb, ltb, ◌&&◌, if◌then◌else◌,
}
use Prim.Native.String.{◌++◌ as str_append}
use frontdesk_intake.Database.Tx.{Outcome, ok, err, Error}
use frontdesk_intake.Web.Form.{FormData, string_field}
use frontdesk_intake.Web.Env.{Environment, load_api_origin}

pub data SubmitStatus : Type 0 where
  idle error : SubmitStatus

pub record SubmitState : Type 0 where
  pub status : SubmitStatus
  pub message : Option String

abbrev pub initial_submit_state : SubmitState
initial_submit_state = record { status = idle; message = none }

pub record Post : Type 0 where
  pub url : String
  pub payload : List (String × String)

-- `fetch`: an error of the network, or a response: its status, and the `trackingUrl` of its body
pub data Response : Type 0 where
  unreachable : Response
  response : ℕ → String → Response

-- an error to show, an error thrown, or the redirect
pub data Submission : Type 0 where
  shown : SubmitState → Submission
  crashed : Error → Submission
  redirected : String → Submission

abbrev pub failure : String → Submission
failure message = shown (record { status = error; message = some message })

abbrev went_wrong : Submission
went_wrong = failure "Something went wrong. Please try again."

-- `res.ok`
abbrev pub is_ok : ℕ → Bool
is_ok status = leb 200 status && ltb status 300

unfoldable pub answer : Response → Submission
answer unreachable = went_wrong
answer (response status tracking_url) =
    if is_ok status
    then redirected tracking_url
    else if nat_beq status 403
    then failure "Verification failed. Please try again."
    else if nat_beq status 404
    then failure "This organization isn't accepting requests right now."
    else went_wrong

abbrev optional : String → String → List (String × String)
optional name value = if is_empty value then [] else (name, value) ∷ []

unfoldable pub payload_of : FormData → List (String × String)
payload_of form =
    ("subject", string_field form "subject")
      ∷ ("body", string_field form "body")
      ∷ ("cf-turnstile-response", string_field form "cf-turnstile-response")
      ∷ optional "requesterName" (string_field form "requesterName")
    ++ optional "requesterEmail" (string_field form "requesterEmail")

module _ (environment : Environment) (encode_uri_component : String → String)
    (fetch : Post → Response) where
  abbrev pub post_to : String → String → FormData → Post
  post_to slug origin form = record {
    url =
        str_append origin
          (str_append "/api/v1/orgs/" (str_append (encode_uri_component slug) "/requests"));
    payload = payload_of form;
  }

  abbrev pub posted : Outcome String → String → FormData → List Post → Submission × List Post
  posted (err e) slug form log = (crashed e, log)
  posted (ok origin) slug form log =
      (answer (fetch (post_to slug origin form)), log ++ post_to slug origin form ∷ [])

  unfoldable pub submit_public_request : String → FormData → List Post → Submission × List Post
  unfolding answer payload_of
  submit_public_request slug form log =
      if is_empty (string_field form "subject") || is_empty (string_field form "body")
      then (failure "Subject and message are both required.", log)
      else if is_empty (string_field form "cf-turnstile-response")
      then (failure "Please complete the verification and try again.", log)
      else posted (load_api_origin environment) slug form log
