-- ===== src/Api/Intake/Ordered.antt =====
-- The order of the insert and the message in the intake route, whatever the answer.
use frontdesk_intake.Prelude.{refl, String, Option, none, some, ◌≡◌, sym, ap, inl, inr, ◌⊎◌}
use frontdesk_intake.Database.Enums.{RequestSource}
use frontdesk_intake.Database.Rows.{Database}
use frontdesk_intake.Database.Tx.{Outcome, ok, err}
use frontdesk_intake.Database.Statements.{request_refusal}
use frontdesk_intake.Api.Queue.{triage_message, assert_triage_message}
use frontdesk_intake.Api.Intake.{
  RequestsRouteDeps, IncomingRequest, IntakeSupply, RequestBody, Parsed, success, failure, Reply,
  failed, Caller, turned_away, crashed, admitted, World, bearer, turnstile_token, new_request, sent,
  enqueue, store, with_body, by_mode, post_request, api_key_caller, turnstile_caller,
}
use frontdesk_intake.Api.Intake.Created.{add_request, for_org-insert}
use frontdesk_intake.Api.Intake.Refused.{SameButKeys}
use frontdesk_intake.Database.Client.{resolve_api_key}

module _ (deps : RequestsRouteDeps) (supply : IntakeSupply) where
  -- A message was handed to the queue for a row that the tables gained; `before` are the tables after
  -- the lookups, which may stamp a key.
  pub record Announced (s t : Database) (q q' : deps.queue.State) : Type 0 where
    pub o : String
    pub source : RequestSource
    pub parsed : RequestBody
    pub before : Database
    pub looked_up : SameButKeys s before
    pub accepted : request_refusal (new_request supply o source parsed) (some o) before ≡ none
    pub added : t ≡ add_request (new_request supply o source parsed) before
    pub answer : Outcome String
    pub called : deps.queue.send (triage_message o (supply.database.uuid 0)) q ≡ (answer, q')

  abbrev pub Ordered : Database → Database → deps.queue.State → deps.queue.State → Type 0
  Ordered s t q q' = (q' ≡ q) ⊎ Announced s t q q'

  abbrev pub Is : Reply × World deps → Reply → Database → deps.queue.State → Type 0
  Is r reply t q = r ≡ (reply, (t, q))

  sent-state :
      (u t : Database) (r : Outcome String × deps.queue.State) (q' : deps.queue.State)
      (reply : Reply)
      → Is (sent deps supply u r) reply t q'
      → (u ≡ t) × (r ≡ (r.0, q'))
  sent-state u t (err e, q1) q' reply h =
      (ap (λ (x : Reply × World deps). x.1.0) h, ap (λ (x : Reply × World deps). (err e, x.1.1)) h)
  sent-state u t (ok m, q1) q' reply h =
      (ap (λ (x : Reply × World deps). x.1.0) h, ap (λ (x : Reply × World deps). (ok m, x.1.1)) h)

  module _ (o : String) (source : RequestSource) (parsed : RequestBody) (s before : Database)
      (same : SameButKeys s before)
      (accepted : request_refusal (new_request supply o source parsed) (some o) before ≡ none) where
    enqueue-Ordered :
        (t : Database) (q q' : deps.queue.State) (reply : Reply)
        → Is
            (enqueue deps supply
              (triage_message o (supply.database.uuid 0))
              (add_request (new_request supply o source parsed) before)
              q)
            reply
            t
            q'
        → Ordered s t q q'
    enqueue-Ordered t q q' reply h =
        from_check
          (assert_triage_message deps.message_schema (triage_message o (supply.database.uuid 0))) h
      where
        from_check :
            (checked : Outcome (Unit {0}))
            → Is
                (elim checked [
                  | err e ↦ (failed e, (add_request (new_request supply o source parsed) before, q))
                  | ok c ↦
                      sent deps supply
                        (add_request (new_request supply o source parsed) before)
                        (deps.queue.send (triage_message o (supply.database.uuid 0)) q)
                ])
                reply
                t
                q'
            → Ordered s t q q'
        from_check (err e) h = inl (sym (ap (λ (x : Reply × World deps). x.1.1) h))
        from_check (ok c) h =
            let (is_t, called) =
              sent-state (add_request (new_request supply o source parsed) before) t
                (deps.queue.send (triage_message o (supply.database.uuid 0)) q) q' reply h in
            inr (record {
              o = o;
              source = source;
              parsed = parsed;
              before = before;
              looked_up = same;
              accepted = accepted;
              added = sym is_t;
              answer = _;
              called = called;
            })

  store-Ordered :
      (parsed : RequestBody) (c : Caller) (s u t : Database) (q q' : deps.queue.State)
      (reply : Reply)
      → SameButKeys s u
      → Is (store deps supply parsed q (c, u)) reply t q'
      → Ordered s t q q'
  store-Ordered parsed (turned_away p) s u t q q' reply same h =
      inl (sym (ap (λ (x : Reply × World deps). x.1.1) h))
  store-Ordered parsed (crashed e) s u t q q' reply same h =
      inl (sym (ap (λ (x : Reply × World deps). x.1.1) h))
  store-Ordered parsed (admitted o source) s u t q q' reply same h =
      elim (for_org-insert (new_request supply o source parsed) u) [
        | inl (done, accepted) ↦
            enqueue-Ordered o source parsed s u same accepted t q q' reply (rw done at h)
        | inr (e, undone) ↦ inl (sym (ap (λ (x : Reply × World deps). x.1.1) (rw undone at h)))
      ]

  with_body-Ordered :
      (body : Parsed) (who : Database → Caller × Database) (s t : Database)
      (q q' : deps.queue.State) (reply : Reply)
      → SameButKeys s (who s).1
      → Is (with_body deps supply body who (s, q)) reply t q'
      → Ordered s t q q'
  with_body-Ordered (failure issues) who s t q q' reply same h =
      inl (sym (ap (λ (x : Reply × World deps). x.1.1) h))
  with_body-Ordered (success parsed) who s t q q' reply same h =
      store-Ordered parsed (who s).0 s (who s).1 t q q' reply same h

  by_mode-Ordered :
      (req : IncomingRequest) (key token : Option String) (s t : Database) (q q' : deps.queue.State)
      (reply : Reply)
      → Is (by_mode deps supply req key token (s, q)) reply t q'
      → Ordered s t q q'
  unfolding api_key_caller turnstile_caller resolve_api_key
  by_mode-Ordered req none none s t q q' reply h =
      inl (sym (ap (λ (x : Reply × World deps). x.1.1) h))
  by_mode-Ordered req (some rest) (some token) s t q q' reply h =
      inl (sym (ap (λ (x : Reply × World deps). x.1.1) h))
  by_mode-Ordered req (some rest) none s t q q' reply h =
      with_body-Ordered (deps.body_schema req.raw_body)
        (api_key_caller deps supply.database.now req.slug rest) s t q q' reply refl h
  by_mode-Ordered req none (some token) s t q q' reply h =
      with_body-Ordered (deps.body_schema req.raw_body) (turnstile_caller deps req.slug token) s t q
        q' reply (λ i. s) h

  -- Whatever the answer, the queue is either as it was, or as one send of the message of a new row
  -- leaves it, where that row was accepted and is in the requests, beside which only API keys may
  -- differ. So no message is ever sent for a request that was not inserted.
  pub post_request-Ordered :
      (req : IncomingRequest) (s t : Database) (q q' : deps.queue.State) (reply : Reply)
      → post_request deps supply req (s, q) ≡ (reply, (t, q'))
      → Ordered s t q q'
  unfolding post_request
  post_request-Ordered req s t q q' reply h =
      by_mode-Ordered req (bearer req.authorization) (turnstile_token req.raw_body) s t q q' reply h
