-- ===== src/Web/PublicForm/Posts.antt =====
-- When the public form's action posts, and when it redirects.
use frontdesk_intake.Prelude.{
  String, true, false, ◌||◌, List, [], ◌∷◌, ◌++◌, ◌≡◌, refl, is_empty, arith, Bool-cases, inl, inr,
  ℕ,
}
use frontdesk_intake.Database.Tx.{Outcome, ok, err}
use frontdesk_intake.Web.Form.{FormData, string_field}
use frontdesk_intake.Web.Env.{Environment, load_api_origin}
use frontdesk_intake.Web.PublicForm.{
  Post, Response, response, unreachable, redirected, is_ok, answer, posted, post_to,
  submit_public_request,
}

answer-redirected :
    (r : Response) (url : String)
    → answer r ≡ redirected url
    → (status : ℕ) × (r ≡ response status url) × (is_ok status ≡ true)
unfolding answer
answer-redirected unreachable url h = absurd (cc (h))
answer-redirected (response status u) url h = (status, ground (arith, h), ground (arith, h))

module _ (environment : Environment) (encode : String → String) (fetch : Post → Response)
    (slug : String) (form : FormData) (log log' : List Post) (url : String) where
  posted-redirected :
      (o : Outcome String)
      → posted environment encode fetch o slug form log ≡ (redirected url, log')
      → (origin : String) × (o ≡ ok origin)
        × (log' ≡ log ++ post_to environment encode fetch slug origin form ∷ [])
        × (status : ℕ) × (fetch (post_to environment encode fetch slug origin form)
            ≡ response status url)
        × (is_ok status ≡ true)
  posted-redirected (err e) h = absurd (cc (h))
  posted-redirected (ok origin) h =
      let (status, is_response, fine) =
        answer-redirected (fetch (post_to environment encode fetch slug origin form)) url
          (ground (arith, h)) in
      (origin, refl, ground (arith, h), status, is_response, fine)

  -- The visitor is sent on to a page only after exactly one request to the API of the configured
  -- origin, whose answer was a success and named that page; the subject, the message and the
  -- challenge that it carried were not empty.
  pub submit_public_request-redirected :
      submit_public_request environment encode fetch slug form log ≡ (redirected url, log')
      → (is_empty (string_field form "subject") ≡ false)
        × (is_empty (string_field form "body") ≡ false)
        × (is_empty (string_field form "cf-turnstile-response") ≡ false)
        × (origin : String) × (load_api_origin environment ≡ ok origin)
        × (log' ≡ log ++ post_to environment encode fetch slug origin form ∷ [])
        × (status : ℕ) × (fetch (post_to environment encode fetch slug origin form)
            ≡ response status url)
        × (is_ok status ≡ true)
  unfolding submit_public_request
  submit_public_request-redirected h =
      elim (Bool-cases
        (is_empty (string_field form "subject") || is_empty (string_field form "body"))) [
          | inl missing ↦ absurd (cc (rw missing at h))
          | inr given ↦
              let h' = rw given at h in
              elim (Bool-cases (is_empty (string_field form "cf-turnstile-response"))) [
                | inl unsolved ↦ absurd (cc (rw unsolved at h'))
                | inr solved ↦
                    let (origin, is_origin, is_log, status, is_response, fine) =
                      posted-redirected (load_api_origin environment) (rw solved at h') in
                    (
                      ground (arith, given),
                      ground (arith, given),
                      solved,
                      origin,
                      is_origin,
                      is_log,
                      status,
                      is_response,
                      fine,
                    )
              ]
        ]
