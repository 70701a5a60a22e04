-- ===== src/Api/Intake/Refused.antt =====
-- A request that is answered with problem details leaves no trace but the stamp of a key.
use frontdesk_intake.Prelude.{
  ℕ, String, Bool, true, false, Option, none, some, ◌≡◌, inl, inr, refl, sym, ap, subst, arith, any,
  [], ◌∷◌, nat_beq, trim,
}
use frontdesk_intake.Database.Rows.{Database, Org}
use frontdesk_intake.Database.Tx.{Outcome, ok, err}
use frontdesk_intake.Database.Client.{ApiKeyResolution, resolve_api_key}
use frontdesk_intake.Api.Problem.{Problem, problem}
use frontdesk_intake.Api.Queue.{triage_message, assert_triage_message}
use frontdesk_intake.Api.Intake.{
  RequestsRouteDeps, IncomingRequest, IntakeSupply, RequestBody, Parsed, success, failure, Reply,
  refused, failed, Caller, admitted, turned_away, bearer, turnstile_token, get_org_by_slug,
  hash_api_key, verify_turnstile, new_request, store, with_body, by_mode, post_request,
  api_key_caller, turnstile_caller, enqueue, sent, key_caller, form_caller, crashed,
}
use frontdesk_intake.Api.Intake.Created.{for_org-insert, add_request}

-- the statuses of the refusals
abbrev pub is_refusal_status : ℕ → Bool
is_refusal_status n = any (nat_beq n) (400 ∷ 401 ∷ 403 ∷ 404 ∷ [])

-- the same tables, but for the API keys
abbrev pub SameButKeys : Database → Database → Type 0
SameButKeys s t = t ≡ record s { api_keys = t.api_keys }

key_caller-status :
    (slug : String) (found : Option ApiKeyResolution) (org : Option Org) (p : Problem)
    → key_caller slug found org ≡ turned_away p
    → is_refusal_status p.status ≡ true
unfolding problem
key_caller-status slug none org p h = ground (arith, h)
key_caller-status slug (some key) none p h = ground (arith, h)
key_caller-status slug (some key) (some row) p h = ground (arith, h)

form_caller-status :
    (slug : String) (verdict : Outcome Bool) (org : Option Org) (p : Problem)
    → form_caller slug verdict org ≡ turned_away p
    → is_refusal_status p.status ≡ true
unfolding problem
form_caller-status slug (err e) org p h = absurd (cc (h))
form_caller-status slug (ok false) org p h = ground (arith, h)
form_caller-status slug (ok true) none p h = ground (arith, h)
form_caller-status slug (ok true) (some row) p h = absurd (cc (h))

module _ (deps : RequestsRouteDeps) (supply : IntakeSupply) where
  enqueue-not_refused :
      (message : _) (u t : Database) (q q' : deps.queue.State) (p : Problem)
      → enqueue deps supply message u q ≡ (refused p, (t, q'))
      → ⊥
  enqueue-not_refused message u t q q' p h =
      by_check (assert_triage_message deps.message_schema message) h
    where
      by_send :
          (r : Outcome String × deps.queue.State) → sent deps supply u r ≡ (refused p, (t, q')) → ⊥
      by_send (err e, x) h = cc
      by_send (ok m, x) h = cc

      by_check :
          (checked : Outcome (Unit {0}))
          → (elim checked [
            | err e ↦ (failed e, (u, q))
            | ok c ↦ sent deps supply u (deps.queue.send message q)
          ])
            ≡ (refused p, (t, q'))
          → ⊥
      by_check (err e) h = cc
      by_check (ok c) h = by_send (deps.queue.send message q) h

  store-refused :
      (parsed : RequestBody) (c : Caller) (s t : Database) (q q' : deps.queue.State) (p : Problem)
      → store deps supply parsed q (c, s) ≡ (refused p, (t, q'))
      → (c ≡ turned_away p) × (t ≡ s) × (q' ≡ q)
  store-refused parsed (turned_away x) s t q q' p h =
      (ground (arith, h), ground (arith, h), ground (arith, h))
  store-refused parsed (crashed e) s t q q' p h = absurd (cc (h))
  store-refused parsed (admitted o source) s t q q' p h =
      elim (for_org-insert (new_request supply o source parsed) s) [
        | inl (done, accepted) ↦ absurd (
            enqueue-not_refused (triage_message o (supply.database.uuid 0))
              (add_request (new_request supply o source parsed) s) t q q' p (rw done at h))
        | inr (e, undone) ↦ absurd (cc (rw undone at h))
      ]

  -- what a refusal means
  abbrev pub Untouched :
      Problem → Database → Database → deps.queue.State → deps.queue.State → Type 0
  Untouched p s t q q' = (is_refusal_status p.status ≡ true) × SameButKeys s t × (q' ≡ q)

  with_body-refused :
      (body : Parsed) (who : Database → Caller × Database) (s t : Database)
      (q q' : deps.queue.State) (p : Problem)
      → SameButKeys s (who s).1
      → ((who s).0 ≡ turned_away p → is_refusal_status p.status ≡ true)
      → with_body deps supply body who (s, q) ≡ (refused p, (t, q'))
      → Untouched p s t q q'
  unfolding problem
  with_body-refused (failure issues) who s t q q' p same status h =
      let is_t : s ≡ t = ap (λ (x : Reply × (Database × deps.queue.State)). x.1.0) h in
      let is_q : q ≡ q' = ap (λ (x : Reply × (Database × deps.queue.State)). x.1.1) h in
      (
        ground (arith, ap (λ (x : Reply × (Database × deps.queue.State)). x.0) h),
        subst (λ u. SameButKeys s u) is_t refl,
        sym is_q,
      )
  with_body-refused (success parsed) who s t q q' p same status h =
      let (is_away, is_t, is_q) = store-refused parsed (who s).0 (who s).1 t q q' p h in
      (status is_away, subst (λ u. SameButKeys s u) (sym is_t) same, is_q)

  by_mode-refused :
      (req : IncomingRequest) (key token' : Option String) (s t : Database)
      (q q' : deps.queue.State) (p : Problem)
      → by_mode deps supply req key token' (s, q) ≡ (refused p, (t, q'))
      → Untouched p s t q q'
  unfolding api_key_caller turnstile_caller resolve_api_key problem
  by_mode-refused req none none s t q q' p h =
      let is_t : s ≡ t = ap (λ (x : Reply × (Database × deps.queue.State)). x.1.0) h in
      let is_q : q ≡ q' = ap (λ (x : Reply × (Database × deps.queue.State)). x.1.1) h in
      (
        ground (arith, ap (λ (x : Reply × (Database × deps.queue.State)). x.0) h),
        subst (λ u. SameButKeys s u) is_t refl,
        sym is_q,
      )
  by_mode-refused req (some rest) (some challenge) s t q q' p h =
      let is_t : s ≡ t = ap (λ (x : Reply × (Database × deps.queue.State)). x.1.0) h in
      let is_q : q ≡ q' = ap (λ (x : Reply × (Database × deps.queue.State)). x.1.1) h in
      (
        ground (arith, ap (λ (x : Reply × (Database × deps.queue.State)). x.0) h),
        subst (λ u. SameButKeys s u) is_t refl,
        sym is_q,
      )
  by_mode-refused req (some rest) none s t q q' p h =
      with_body-refused (deps.body_schema req.raw_body)
        (api_key_caller deps supply.database.now req.slug rest) s t q q' p refl
        (key_caller-status req.slug
          (resolve_api_key supply.database.now (hash_api_key deps (trim rest)) s).0
          (get_org_by_slug req.slug
            (resolve_api_key supply.database.now (hash_api_key deps (trim rest)) s).1)
          p)
        h
  by_mode-refused req none (some challenge) s t q q' p h =
      with_body-refused (deps.body_schema req.raw_body) (turnstile_caller deps req.slug challenge) s
        t q q' p refl
        (form_caller-status req.slug (verify_turnstile deps challenge) (get_org_by_slug req.slug s)
          p)
        h

  -- A request that is refused with problem details, of status 400, 401, 403 or 404, changes no
  -- table but the API keys' and sends nothing to the queue.
  pub post_request-refused :
      (req : IncomingRequest) (s t : Database) (q q' : deps.queue.State) (p : Problem)
      → post_request deps supply req (s, q) ≡ (refused p, (t, q'))
      → Untouched p s t q q'
  unfolding post_request
  post_request-refused req s t q q' p h =
      by_mode-refused req (bearer req.authorization) (turnstile_token req.raw_body) s t q q' p h
