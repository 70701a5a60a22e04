-- ===== src/Database/Isolation.antt =====
-- What a transaction under `app.org_id` cannot touch: rows of other orgs, whatever statements it
-- runs. One rule for each statement and each way to join them.
use frontdesk_intake.Prelude.{
  String, Bool, true, false, ◌≡◌, refl, ◌∙◌, ◌&&◌, not, Option, some, List, [], ◌∷◌, ◌++◌, ◌==◌,
  eq_iff, filter, filter-update_where, filter-delete_where, arith,
}
use frontdesk_intake.Database.Rows.{Database, Request, Draft, Action}
use frontdesk_intake.Database.Tx.{Tx, Outcome, ok, err, pure, throw, or_throw, ◌>>=◌, settle}
use frontdesk_intake.Database.Statements.{
  select_requests, select_drafts, insert_request, insert_draft, insert_action, request_refusal,
  draft_refusal, action_refusal, update_requests, delete_requests, RequestSet, apply_set, visible,
  has_request,
}
use frontdesk_intake.Database.Keeps.{
  Keeps, Keeps-pure, Keeps-throw, Keeps-or_throw, Keeps-bind, Keeps-if,
}
use frontdesk_intake.Database.Client.{for_org}

-- a row of another org
abbrev pub other : String → String → Bool
other org_id row_org_id = not (row_org_id == org_id)

-- The two databases hold the same rows of the orgs other than `org_id`, and the same orgs,
-- members, keys, documents and chunks.
pub record SameOutside (org_id : String) (s t : Database) : Type 0 where
  pub orgs : t.orgs ≡ s.orgs
  pub org_members : t.org_members ≡ s.org_members
  pub api_keys : t.api_keys ≡ s.api_keys
  pub documents : t.documents ≡ s.documents
  pub chunks : t.chunks ≡ s.chunks
  pub requests :
      filter (λ r. other org_id r.org_id) t.requests
      ≡ filter (λ r. other org_id r.org_id) s.requests
  pub drafts :
      filter (λ d. other org_id d.org_id) t.drafts ≡ filter (λ d. other org_id d.org_id) s.drafts
  pub actions :
      filter (λ a. other org_id a.org_id) t.actions ≡ filter (λ a. other org_id a.org_id) s.actions

module _ {org_id : String} where
  pub SameOutside-refl : (s : Database) → SameOutside org_id s s
  SameOutside-refl s = record {
    orgs = refl;
    org_members = refl;
    api_keys = refl;
    documents = refl;
    chunks = refl;
    requests = refl;
    drafts = refl;
    actions = refl;
  }

  pub SameOutside-trans :
      {s t u : Database} → SameOutside org_id s t → SameOutside org_id t u → SameOutside org_id s u
  SameOutside-trans h k = record {
    orgs = k.orgs ∙ h.orgs;
    org_members = k.org_members ∙ h.org_members;
    api_keys = k.api_keys ∙ h.api_keys;
    documents = k.documents ∙ h.documents;
    chunks = k.chunks ∙ h.chunks;
    requests = k.requests ∙ h.requests;
    drafts = k.drafts ∙ h.drafts;
    actions = k.actions ∙ h.actions;
  }

-- `m` leaves the rows of other orgs alone, whether it returns or throws.
abbrev pub Isolated : String → {A : Type 0} → Tx A → Type 0
Isolated org_id m = Keeps (some org_id) (SameOutside org_id) m

filter-own :
    {A : Type 0} (org_id : String) (own : A → String) (row : A) (rows : List A)
    → (own row == org_id) ≡ true
    → filter (λ x. other org_id (own x)) (rows ++ row ∷ [])
      ≡ filter (λ x. other org_id (own x)) rows
filter-own org_id own row [] h = ground arith
filter-own org_id own row (x ∷ rows) h = ground (arith, filter-own org_id own row rows h)

-- Only rows of `org_id` have a parent among the deleted rows.
any_owned :
    (org_id : String) (p : Request → Bool) (rows : List Request) (row_org_id id : String)
    → has_request row_org_id id (filter (λ r. visible (some org_id) r.org_id && p r) rows) ≡ true
    → other org_id row_org_id ≡ false
any_owned org_id p [] row_org_id id h = cc
any_owned org_id p (r ∷ rows) row_org_id id h = ground (
  arith,
  any_owned org_id p rows row_org_id id,
  eq_iff r.org_id org_id,
  eq_iff r.org_id row_org_id,
  eq_iff row_org_id org_id,
)

module _ {org_id : String} where
  pub Isolated-pure : {A : Type 0} (a : A) → Isolated org_id (pure a)
  Isolated-pure = Keeps-pure SameOutside-refl

  pub Isolated-throw : {A : Type 0} (message : String) → Isolated org_id (throw {A = A} message)
  Isolated-throw = Keeps-throw SameOutside-refl

  pub Isolated-or_throw :
      {A : Type 0} (found : Option A) (message : String) → Isolated org_id (or_throw found message)
  Isolated-or_throw = Keeps-or_throw SameOutside-refl

  pub Isolated-bind :
      {A B : Type 0} (m : Tx A) (f : A → Tx B)
      → Isolated org_id m
      → ((a : A) → Isolated org_id (f a))
      → Isolated org_id (m >>= f)
  Isolated-bind = Keeps-bind (λ s t u h k. SameOutside-trans h k)

  pub Isolated-select_requests : (p : Request → Bool) → Isolated org_id (select_requests p)
  unfolding select_requests
  Isolated-select_requests p = record { at = SameOutside-refl }

  pub Isolated-select_drafts : (p : Draft → Bool) → Isolated org_id (select_drafts p)
  unfolding select_drafts
  Isolated-select_drafts p = record { at = SameOutside-refl }

  pub Isolated-insert_request : (row : Request) → Isolated org_id (insert_request row)
  unfolding insert_request request_refusal
  Isolated-insert_request row = record {
    at = λ s. ground (arith, filter-own org_id (λ r. r.org_id) row s.requests);
  }

  pub Isolated-insert_draft : (row : Draft) → Isolated org_id (insert_draft row)
  unfolding insert_draft draft_refusal
  Isolated-insert_draft row = record {
    at = λ s. ground (arith, filter-own org_id (λ d. d.org_id) row s.drafts);
  }

  pub Isolated-insert_action : (row : Action) → Isolated org_id (insert_action row)
  unfolding insert_action action_refusal
  Isolated-insert_action row = record {
    at = λ s. ground (arith, filter-own org_id (λ a. a.org_id) row s.actions);
  }

  pub Isolated-update_requests :
      (p : Request → Bool) (set : RequestSet) → Isolated org_id (update_requests p set)
  unfolding update_requests
  Isolated-update_requests p set = record {
    at = λ s. ground (
      arith,
      filter-update_where (λ r. other org_id r.org_id) (λ r. visible (some org_id) r.org_id && p r)
          (apply_set set) s.requests (λ r h. ground arith),
    );
  }

  pub Isolated-delete_requests : (p : Request → Bool) → Isolated org_id (delete_requests p)
  unfolding delete_requests
  Isolated-delete_requests p = record {
    at = λ s.
        let gone = filter (λ r. visible (some org_id) r.org_id && p r) s.requests in
        ground (
          arith,
          filter-delete_where (λ r. other org_id r.org_id)
              (λ r. visible (some org_id) r.org_id && p r) s.requests (λ r h. ground arith),
          filter-delete_where (λ d. other org_id d.org_id)
              (λ d. has_request d.org_id d.request_id gone) s.drafts
              (λ d. any_owned org_id p s.requests d.org_id d.request_id),
          filter-delete_where (λ a. other org_id a.org_id)
              (λ a. has_request a.org_id a.request_id gone) s.actions
              (λ a. any_owned org_id p s.requests a.org_id a.request_id),
        );
  }

  SameOutside-settle :
      {A : Type 0} {s : Database} (r : Outcome A × Database)
      → SameOutside org_id s r.1
      → SameOutside org_id s (settle s r).1
  SameOutside-settle (ok a, t) h = h
  SameOutside-settle {s = s} (err e, t) h = SameOutside-refl s

  -- The transaction of `forOrg` leaves the rows of other orgs alone.
  pub SameOutside-for_org :
      {A : Type 0} (fn : String → Tx A) (s : Database)
      → Isolated org_id (fn org_id)
      → SameOutside org_id s (for_org org_id fn s).1
  unfolding for_org
  SameOutside-for_org fn s h = SameOutside-settle (fn org_id (some org_id) s) (h.at s)

pub ruleset isolated_rules = (
  Isolated-pure, Isolated-throw, Isolated-or_throw, Isolated-bind, Keeps-if,
  Isolated-select_requests, Isolated-select_drafts, Isolated-insert_request, Isolated-insert_draft,
  Isolated-insert_action, Isolated-update_requests, Isolated-delete_requests,
)
