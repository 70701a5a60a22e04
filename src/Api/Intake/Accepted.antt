-- ===== src/Api/Intake/Accepted.antt =====
-- The whole of an accepted request, up to its tracking page.
use frontdesk_intake.Database.Seed.Inserts.{has_key}
use frontdesk_intake.Database.Seed.Present.{has_token}
use frontdesk_intake.Prelude.{
  is_empty, String, Bool, true, false, ◌&&◌, Option, none, some, List, [], ◌∷◌, ◌++◌, ◌==◌, ◌≡◌,
  refl, sym, ap, subst, ◌∙◌, trim, first, filter, any, arith, eq_refl,
}
use frontdesk_intake.Database.Enums.{RequestSource}
use frontdesk_intake.Database.Rows.{Database, Request}
use frontdesk_intake.Database.Tx.{ok}
use frontdesk_intake.Database.Statements.{request_refusal, select_orgs}
use frontdesk_intake.Database.Client.{resolve_api_key}
use frontdesk_intake.Web.Tracking.{get_tracking_view, status_view, received, view_of}
use frontdesk_intake.Web.Tracking.Views.{token_request, own_row, page_of, known_token}
use frontdesk_intake.Api.Intake.{
  RequestsRouteDeps, IncomingRequest, IntakeSupply, RequestBody, Parsed, success, failure, created,
  Caller, admitted, bearer, turnstile_token, get_org_by_slug, hash_api_key, new_request, with_body,
  by_mode, post_request, api_key_caller, turnstile_caller,
}
use frontdesk_intake.Api.Intake.Created.{
  add_request, Stored, store-created, Authenticated, by_key, by_challenge, Admitted,
  key_caller-admitted, form_caller-admitted,
}

filter_fresh :
    {A : Type 0} (p : A → Bool) (xs : List A) (x : A)
    → any p xs ≡ false
    → p x ≡ true
    → first (filter p (xs ++ x ∷ [])) ≡ some x
filter_fresh p [] x h k = rw k refl
filter_fresh p (y ∷ xs) x h k = ground (arith, filter_fresh p xs x)

any-weaken :
    {A : Type 0} (p q : A → Bool) (xs : List A)
    → ((x : A) → q x ≡ false → p x ≡ false)
    → any q xs ≡ false
    → any p xs ≡ false
any-weaken p q [] f h = refl
any-weaken p q (x ∷ xs) f h = ground (arith, f x, any-weaken p q xs f)

not_refused :
    (row : Request) (o : String) (s : Database)
    → request_refusal row (some o) s ≡ none
    → (any (λ r. r.id == row.id) s.requests ≡ false)
      × (any (λ r. r.tracking_token == row.tracking_token) s.requests ≡ false)
unfolding request_refusal
not_refused row o s h = ground (arith, h)

-- The page of a new row's token shows its status.
new_page :
    (row : Request) (o : String) (s : Database)
    → request_refusal row (some o) s ≡ none
    → get_tracking_view row.tracking_token (add_request row s)
      ≡ ok (view_of row.status row.reply_text)
new_page row o s h =
    let (fresh_id, fresh_token) = not_refused row o s h in
    let tracked : token_request row.tracking_token (add_request row s) ≡ some row =
      filter_fresh (λ r. r.tracking_token == row.tracking_token) s.requests row fresh_token
        (eq_refl row.tracking_token) in
    let here : own_row row (add_request row s) ≡ some row =
      filter_fresh (λ r. r.org_id == row.org_id && r.id == row.id) s.requests row
        (any-weaken (λ r. r.org_id == row.org_id && r.id == row.id) (λ r. r.id == row.id) s.requests
          (λ r k. ground (arith, k)) fresh_id)
        (ground (arith, eq_refl row.org_id, eq_refl row.id)) in
    known_token row.tracking_token (add_request row s) row tracked ∙ ap (λ x. ok (page_of x)) here

module _ (deps : RequestsRouteDeps) (supply : IntakeSupply) where
  api_key_caller-admitted :
      (req : IncomingRequest) (rest : String) (s t : Database) (o : String) (source : RequestSource)
      → bearer req.authorization ≡ some rest
      → turnstile_token req.raw_body ≡ none
      → api_key_caller deps supply.database.now req.slug rest s ≡ (admitted o source, t)
      → Admitted deps supply req s t o source
  unfolding api_key_caller get_org_by_slug resolve_api_key select_orgs
  api_key_caller-admitted req rest s t o source has_key no_token h =
      let (key, row, found, named, is_o, key_o, is_api) =
        key_caller-admitted deps supply req.slug _ _ o source
          (ap (λ (x : Caller × Database). x.0) h) in
      let is_t = ap (λ (x : Caller × Database). x.1) h in
      record {
        org = row;
        named = named;
        is_org = is_o;
        authenticated =
            subst (λ u. Authenticated deps supply req s o source u) is_t
              (subst
                (λ k.
                  Authenticated deps supply req s o k
                    (resolve_api_key supply.database.now (hash_api_key deps (trim rest)) s).1)
                (sym is_api) (by_key rest key has_key no_token found key_o));
      }

  turnstile_caller-admitted :
      (req : IncomingRequest) (token : String) (s t : Database) (o : String)
      (source : RequestSource)
      → bearer req.authorization ≡ none
      → turnstile_token req.raw_body ≡ some token
      → turnstile_caller deps req.slug token s ≡ (admitted o source, t)
      → Admitted deps supply req s t o source
  unfolding turnstile_caller
  turnstile_caller-admitted req token s t o source no_key has_token h =
      let (row, verified, named, is_o, is_form) =
        form_caller-admitted deps supply req.slug _ _ o source
          (ap (λ (x : Caller × Database). x.0) h) in
      let is_t = ap (λ (x : Caller × Database). x.1) h in
      record {
        org = row;
        named = named;
        is_org = is_o;
        authenticated =
            subst (λ u. Authenticated deps supply req s o source u) is_t
              (subst (λ k. Authenticated deps supply req s o k s) (sym is_form)
                (by_challenge token no_key has_token verified));
      }

  -- A request that was let in for the org `o` and stored there: the database between the two is
  -- `looked_up`.
  pub record Accepted (req : IncomingRequest) (s t : Database) (q q' : deps.queue.State)
      (token : String) : Type 0 where
    pub o : String
    pub source : RequestSource
    pub parsed : RequestBody
    pub is_parsed : deps.body_schema req.raw_body ≡ success parsed
    pub subject_given : is_empty parsed.subject ≡ false
    pub body_given : is_empty parsed.body ≡ false
    pub looked_up : Database
    pub let_in : Admitted deps supply req s looked_up o source
    pub stored : Stored deps supply o source parsed looked_up t q q'
    pub is_token : token ≡ supply.tracking_token
    pub page : get_tracking_view token t ≡ ok (status_view received)

  with_body-created :
      (req : IncomingRequest) (body : Parsed) (who : Database → Caller × Database) (s t : Database)
      (q q' : deps.queue.State) (token url : String)
      → ((u : Database) (o : String) (source : RequestSource)
          → who s ≡ (admitted o source, u)
          → Admitted deps supply req s u o source)
      → deps.body_schema req.raw_body ≡ body
      → with_body deps supply body who (s, q) ≡ (created token url, (t, q'))
      → Accepted req s t q q' token
  unfolding view_of
  with_body-created req (failure issues) who s t q q' token url let_in is_parsed h = absurd (cc (h))
  with_body-created req (success parsed) who s t q q' token url let_in is_parsed h =
      let (o, source, is_caller, stored, is_token) =
        store-created deps supply parsed (who s).0 (who s).1 t q q' token url h in
      record {
        o = o;
        source = source;
        parsed = parsed;
        is_parsed = is_parsed;
        subject_given = deps.subject_given req.raw_body parsed is_parsed;
        body_given = deps.body_given req.raw_body parsed is_parsed;
        looked_up = (who s).1;
        let_in = let_in (who s).1 o source (ap (λ (c : Caller). (c, (who s).1)) is_caller);
        stored = stored;
        is_token = is_token;
        page =
            subst (λ x. get_tracking_view x t ≡ ok (status_view received)) (sym is_token)
              (subst (λ u. get_tracking_view supply.tracking_token u ≡ ok (status_view received))
                (sym stored.added)
                (new_page (new_request supply o source parsed) o (who s).1 stored.accepted));
      }

  by_mode-created :
      (req : IncomingRequest) (key token' : Option String) (s t : Database)
      (q q' : deps.queue.State) (token url : String)
      → bearer req.authorization ≡ key
      → turnstile_token req.raw_body ≡ token'
      → by_mode deps supply req key token' (s, q) ≡ (created token url, (t, q'))
      → Accepted req s t q q' token
  by_mode-created req none none s t q q' token url k c h = absurd (cc (h))
  by_mode-created req (some rest) (some challenge) s t q q' token url k c h = absurd (cc (h))
  by_mode-created req (some rest) none s t q q' token url k c h =
      with_body-created req (deps.body_schema req.raw_body)
        (api_key_caller deps supply.database.now req.slug rest) s t q q' token url
        (λ u o source. api_key_caller-admitted req rest s u o source k c) refl h
  by_mode-created req none (some challenge) s t q q' token url k c h =
      with_body-created req (deps.body_schema req.raw_body)
        (turnstile_caller deps req.slug challenge) s t q q' token url
        (λ u o source. turnstile_caller-admitted req challenge s u o source k c) refl h

  -- An answer 201 was earned by exactly one way to authenticate, for the org that the request
  -- names: one request with a subject and a text was added to that org, its triage message was sent,
  -- and the page of the returned token says that it was received.
  pub post_request-created :
      (req : IncomingRequest) (s t : Database) (q q' : deps.queue.State) (token url : String)
      → post_request deps supply req (s, q) ≡ (created token url, (t, q'))
      → Accepted req s t q q' token
  unfolding post_request
  post_request-created req s t q q' token url h =
      by_mode-created req (bearer req.authorization) (turnstile_token req.raw_body) s t q q' token
        url refl refl h
