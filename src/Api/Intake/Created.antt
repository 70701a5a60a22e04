-- ===== src/Api/Intake/Created.antt =====
-- A request that is answered with 201: who sent it, what was stored, what was enqueued, and what
-- its tracking page shows.
use frontdesk_intake.Prelude.{
  String, Bool, true, false, Option, none, some, [], ◌∷◌, ◌++◌, ◌==◌, ◌≡◌, ◌⊎◌, inl, inr, refl, sym,
  trim, arith, eq_iff, Bool-cases, Option-cases,
}
use frontdesk_intake.Database.Enums.{RequestSource, form, api}
use frontdesk_intake.Database.Rows.{Database, Org, Request}
use frontdesk_intake.Database.Tx.{Outcome, ok, err, Error, ◌>>=◌, pure}
use frontdesk_intake.Database.Statements.{insert_request, request_refusal}
use frontdesk_intake.Database.Client.{for_org, resolve_api_key, ApiKeyResolution}
use frontdesk_intake.Api.Queue.{triage_message, assert_triage_message}
use frontdesk_intake.Api.Intake.{
  RequestsRouteDeps, IncomingRequest, IntakeSupply, RequestBody, created, failed, Caller, admitted,
  turned_away, bearer, turnstile_token, get_org_by_slug, hash_api_key, verify_turnstile,
  new_request, store, insert_returning, enqueue, sent, key_caller, form_caller, crashed,
}

-- the database after the row was added
abbrev pub add_request : Request → Database → Database
add_request row s = record s { requests = s.requests ++ row ∷ [] }

insert_request-cases :
    (row : Request) (guc : Option String) (s : Database)
    → ((insert_request row guc s ≡ (ok tt, add_request row s)) × (request_refusal row guc s ≡ none))
      ⊎ ((e : Error) × (insert_request row guc s ≡ (err e, s)))
unfolding insert_request
insert_request-cases row guc s = elim (Option-cases (request_refusal row guc s)) [
  | inl accepted ↦ inl (rw (accepted, insert_request), accepted)
  | inr (e, reason) ↦ inr (e, rw (reason, insert_request))
]

-- The transaction returns the new row's id and adds the row, or leaves everything as it was.
pub for_org-insert :
    (row : Request) (s : Database)
    → ((for_org row.org_id (λ scoped. insert_returning row) s ≡ (ok row.id, add_request row s))
        × (request_refusal row (some row.org_id) s ≡ none))
      ⊎ ((e : Error) × (for_org row.org_id (λ scoped. insert_returning row) s ≡ (err e, s)))
unfolding for_org insert_returning ◌>>=◌ pure
for_org-insert row s = elim (insert_request-cases row (some row.org_id) s) [
  | inl (done, accepted) ↦ inl (rw done refl, accepted)
  | inr (e, undone) ↦ inr (e, rw undone refl)
]

module _ (deps : RequestsRouteDeps) (supply : IntakeSupply) where
  -- What a successful store did for the caller's org.
  pub record Stored (o : String) (source : RequestSource) (parsed : RequestBody) (s t : Database)
      (q q' : deps.queue.State) : Type 0 where
    pub added : t ≡ add_request (new_request supply o source parsed) s
    pub accepted : request_refusal (new_request supply o source parsed) (some o) s ≡ none
    pub message_id : String
    pub enqueued :
        deps.queue.send (triage_message o (supply.database.uuid 0)) q ≡ (ok message_id, q')

  sent-created :
      (t u : Database) (r : Outcome String × deps.queue.State) (q' : deps.queue.State)
      (token url : String)
      → sent deps supply u r ≡ (created token url, (t, q'))
      → (m : String) × (r ≡ (ok m, q')) × (u ≡ t) × (token ≡ supply.tracking_token)
  sent-created t u (err e, q1) q' token url h = absurd (cc (h))
  sent-created t u (ok m, q1) q' token url h =
      (m, ground (arith, h), ground (arith, h), ground (arith, h))

  enqueue-created :
      (o id : String) (t u : Database) (q q' : deps.queue.State) (token url : String)
      → enqueue deps supply (triage_message o id) u q ≡ (created token url, (t, q'))
      → (m : String) × (deps.queue.send (triage_message o id) q ≡ (ok m, q'))
        × (u ≡ t)
        × (token ≡ supply.tracking_token)
  enqueue-created o id t u q q' token url h =
      from_check (assert_triage_message deps.message_schema (triage_message o id)) h
    where
      from_check :
          (checked : Outcome (Unit {0}))
          → (elim checked [
            | err e ↦ (failed e, (u, q))
            | ok c ↦ sent deps supply u (deps.queue.send (triage_message o id) q)
          ])
            ≡ (created token url, (t, q'))
          → (m : String) × (deps.queue.send (triage_message o id) q ≡ (ok m, q'))
            × (u ≡ t)
            × (token ≡ supply.tracking_token)
      from_check (err e) h = absurd (cc (h))
      from_check (ok c) h =
          sent-created t u (deps.queue.send (triage_message o id) q) q' token url h

  pub store-created :
      (parsed : RequestBody) (c : Caller) (s t : Database) (q q' : deps.queue.State)
      (token url : String)
      → store deps supply parsed q (c, s) ≡ (created token url, (t, q'))
      → (o : String) × (source : RequestSource) × (c ≡ admitted o source)
        × Stored o source parsed s t q q'
        × (token ≡ supply.tracking_token)
  store-created parsed (turned_away p) s t q q' token url h = absurd (cc (h))
  store-created parsed (crashed e) s t q q' token url h = absurd (cc (h))
  store-created parsed (admitted o source) s t q q' token url h =
      elim (for_org-insert (new_request supply o source parsed) s) [
        | inl (done, accepted) ↦
            let (m, was_sent, is_t, is_token) =
              enqueue-created o (supply.database.uuid 0) t
                (add_request (new_request supply o source parsed) s) q q' token url
                (rw done at h) in
            (
              o,
              source,
              refl,
              record { added = sym is_t; accepted = accepted; message_id = m; enqueued = was_sent },
              is_token,
            )
        | inr (e, undone) ↦ absurd (cc (rw undone at h))
      ]

  -- How the caller was let in, as the org `o`: by a live key of that org, or by the form's challenge.
  pub data Authenticated (req : IncomingRequest) (s : Database) (o : String)
      : RequestSource → Database → Type 0 where
    by_key :
        (rest : String) (key : ApiKeyResolution)
        → bearer req.authorization ≡ some rest
        → turnstile_token req.raw_body ≡ none
        → (resolve_api_key supply.database.now (hash_api_key deps (trim rest)) s).0 ≡ some key
        → key.org_id ≡ o
        → Authenticated req s o api
            (resolve_api_key supply.database.now (hash_api_key deps (trim rest)) s).1
    by_challenge :
        (token : String)
        → bearer req.authorization ≡ none
        → turnstile_token req.raw_body ≡ some token
        → verify_turnstile deps token ≡ ok true
        → Authenticated req s o form s

  -- The org is the one whose slug the request names.
  pub record Admitted (req : IncomingRequest) (s t : Database) (o : String) (source : RequestSource)
      : Type 0 where
    pub org : Org
    pub named : get_org_by_slug req.slug s ≡ some org
    pub is_org : org.id ≡ o
    pub authenticated : Authenticated req s o source t

  pub key_caller-admitted :
      (slug : String) (found : Option ApiKeyResolution) (org : Option Org) (o : String)
      (source : RequestSource)
      → key_caller slug found org ≡ admitted o source
      → (key : ApiKeyResolution) × (row : Org) × (found ≡ some key)
        × (org ≡ some row)
        × (row.id ≡ o)
        × (key.org_id ≡ o)
        × (source ≡ api)
  key_caller-admitted slug none org o source h = absurd (cc (h))
  key_caller-admitted slug (some key) none o source h = absurd (cc (h))
  key_caller-admitted slug (some key) (some row) o source h =
      elim (Bool-cases (row.id == key.org_id)) [
        | inl same ↦
            let is_o : key.org_id ≡ o = ground (arith, rw same at h) in
            (
              key,
              row,
              refl,
              refl,
              ground (arith, is_o, same, eq_iff row.id key.org_id),
              is_o,
              ground (arith, rw same at h),
            )
        | inr differs ↦ absurd (cc (rw differs at h))
      ]

  pub form_caller-admitted :
      (slug : String) (verdict : Outcome Bool) (org : Option Org) (o : String)
      (source : RequestSource)
      → form_caller slug verdict org ≡ admitted o source
      → (row : Org) × (verdict ≡ ok true) × (org ≡ some row) × (row.id ≡ o) × (source ≡ form)
  form_caller-admitted slug (err e) org o source h = absurd (cc (h))
  form_caller-admitted slug (ok false) org o source h = absurd (cc (h))
  form_caller-admitted slug (ok true) none o source h = absurd (cc (h))
  form_caller-admitted slug (ok true) (some row) o source h =
      (row, refl, refl, ground (arith, h), ground (arith, h))
