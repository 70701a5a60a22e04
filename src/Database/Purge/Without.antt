-- ===== src/Database/Purge/Without.antt =====
-- The database without some requests, and deletions that follow each other.
use frontdesk_intake.Prelude.{
  Bool, false, ◌&&◌, List, [], ◌∷◌, ◌==◌, ◌≡◌, refl, filter, delete_where, arith,
}
use frontdesk_intake.Database.Rows.{Database, Request, Draft, Action}
use frontdesk_intake.Database.Statements.{has_request}
use frontdesk_intake.Database.Purge.Batch.{
  Within, filter-Within, delete-Within, delete-delete, any-filter_split, delete-or,
}

-- The database after one DELETE of the requests that `p` finds, drafts and actions with them.
abbrev pub without : (Request → Bool) → Database → Database
without p s = record s {
  requests = delete_where p s.requests;
  drafts = delete_where (λ d. has_request d.org_id d.request_id (filter p s.requests)) s.drafts;
  actions = delete_where (λ a. has_request a.org_id a.request_id (filter p s.requests)) s.actions;
}

pub without-Within :
    (p q : Request → Bool) (s : Database)
    → Within p q s.requests
    → Within q p s.requests
    → without p s ≡ without q s
without-Within p q s h k =
    rw (filter-Within p q s.requests h k) (rw (delete-Within p q s.requests h k) refl)

pub without-without :
    (p q : Request → Bool) (s : Database)
    → Within p q s.requests
    → without q (without p s) ≡ without q s
without-without p q s h = rw (delete-delete p q s.requests h) (
    rw
      (delete-or (λ (d : Draft). has_request d.org_id d.request_id (filter p s.requests))
        (λ d. has_request d.org_id d.request_id (filter q (delete_where p s.requests)))
        (λ d. has_request d.org_id d.request_id (filter q s.requests)) s.drafts
        (λ d.
          any-filter_split (λ r. r.org_id == d.org_id && r.id == d.request_id) p q s.requests h))
      (rw
        (delete-or (λ (d : Action). has_request d.org_id d.request_id (filter p s.requests))
          (λ d. has_request d.org_id d.request_id (filter q (delete_where p s.requests)))
          (λ d. has_request d.org_id d.request_id (filter q s.requests)) s.actions
          (λ d.
            any-filter_split (λ r. r.org_id == d.org_id && r.id == d.request_id) p q s.requests h))
        refl))

pub delete_none :
    {A : Type 0} (p : A → Bool) (xs : List A) → ((x : A) → p x ≡ false) → delete_where p xs ≡ xs
delete_none p [] h = refl
delete_none p (x ∷ xs) h = ground (arith, h x, delete_none p xs h)

pub filter_none :
    {A : Type 0} (p : A → Bool) (xs : List A) → ((x : A) → p x ≡ false) → filter p xs ≡ []
filter_none p [] h = refl
filter_none p (x ∷ xs) h = ground (arith, h x, filter_none p xs h)

pub without_none :
    (p : Request → Bool) (s : Database) → ((r : Request) → p r ≡ false) → without p s ≡ s
without_none p s h = rw (filter_none p s.requests h) (
    rw (delete_none p s.requests h) (
      rw (delete_none (λ (d : Draft). false) s.drafts (λ d. refl))
        (rw (delete_none (λ (d : Action). false) s.actions (λ d. refl)) refl)))
