-- ===== src/Database/Purge/Spared.antt =====
-- The purge leaves alone what is not a demo org's.
use frontdesk_intake.Prelude.{
  ℕ, ◌<◌, String, Bool, true, false, ◌&&◌, some, List, [], ◌∷◌, ◌==◌, ◌≡◌, refl, any, length,
  filter, filter-delete_where, if◌then◌else◌, arith, eq_iff, Bool-cases, inl, inr,
}
use frontdesk_intake.Database.Rows.{Database, Org as OrgRow, Request}
use frontdesk_intake.Database.Tx.{Outcome}
use frontdesk_intake.Database.Statements.{has_request}
use frontdesk_intake.Database.Order.{Postgres}
use frontdesk_intake.Database.Purge.{
  is_stale, purge_demo_orgs, PurgeOrgResult, PurgeOptions, batch_size_of,
}
use frontdesk_intake.Database.Purge.Batch.{DistinctIds}
use frontdesk_intake.Database.Purge.Without.{without}
use frontdesk_intake.Database.Purge.Demo.{purge_demo_orgs-eq}

-- no demo org has this id
abbrev pub not_demo : String → Database → Bool
not_demo org_id s = if any (λ g. g.is_demo && g.id == org_id) s.orgs then false else true

-- An org's rows, and every document and chunk, are the same in both databases.
pub record SameOrg (org_id : String) (s t : Database) : Type 0 where
  pub orgs : t.orgs ≡ s.orgs
  pub org_members : t.org_members ≡ s.org_members
  pub api_keys : t.api_keys ≡ s.api_keys
  pub documents : t.documents ≡ s.documents
  pub chunks : t.chunks ≡ s.chunks
  pub requests :
      filter (λ r. r.org_id == org_id) t.requests ≡ filter (λ r. r.org_id == org_id) s.requests
  pub drafts : filter (λ d. d.org_id == org_id) t.drafts ≡ filter (λ d. d.org_id == org_id) s.drafts
  pub actions :
      filter (λ a. a.org_id == org_id) t.actions ≡ filter (λ a. a.org_id == org_id) s.actions

module _ (o : String) (cutoff : ℕ) where
  other_of_stale :
      (orgs : List OrgRow) (r : Request)
      → any (λ g. g.is_demo && g.id == o) orgs ≡ false
      → any (λ g. g.is_demo && is_stale g.id cutoff r) orgs ≡ true
      → (r.org_id == o) ≡ false
  other_of_stale [] r h k = cc
  other_of_stale (g ∷ orgs) r h k =
      ground
        (arith, h, k, other_of_stale orgs r, eq_iff g.id o, eq_iff r.org_id g.id, eq_iff r.org_id o)

  other_of_gone :
      (p : Request → Bool) (xs : List Request) (a id : String)
      → ((r : Request) → p r ≡ true → (r.org_id == o) ≡ false)
      → has_request a id (filter p xs) ≡ true
      → (a == o) ≡ false
  other_of_gone p [] a id f k = cc
  other_of_gone p (r ∷ xs) a id f k = elim (Bool-cases (p r)) [
    | inl gone ↦ ground (
      arith,
      rw gone at k,
      f r gone,
      other_of_gone p xs a id f,
      eq_iff r.org_id a,
      eq_iff r.org_id o,
      eq_iff a o,
    )
    | inr kept ↦ other_of_gone p xs a id f (rw kept at k)
  ]

  without-SameOrg :
      (p : Request → Bool) (s : Database)
      → ((r : Request) → p r ≡ true → (r.org_id == o) ≡ false)
      → SameOrg o s (without p s)
  without-SameOrg p s f = record {
    orgs = refl;
    org_members = refl;
    api_keys = refl;
    documents = refl;
    chunks = refl;
    requests = filter-delete_where (λ r. r.org_id == o) p s.requests f;
    drafts =
        filter-delete_where (λ d. d.org_id == o)
          (λ d. has_request d.org_id d.request_id (filter p s.requests)) s.drafts
          (λ d. other_of_gone p s.requests d.org_id d.request_id f);
    actions =
        filter-delete_where (λ a. a.org_id == o)
          (λ a. has_request a.org_id a.request_id (filter p s.requests)) s.actions
          (λ a. other_of_gone p s.requests a.org_id a.request_id f);
  }

-- With a positive batch size, distinct request ids and more fuel than requests, the purge leaves
-- the rows of an org that is no demo org as they were, and every document and chunk.
pub purge_demo_orgs-SameOrg :
    (pg : Postgres) (fuel : ℕ) (options : PurgeOptions) (s : Database) (o : String)
    → 0 < batch_size_of options
    → DistinctIds (λ (r : Request). r.id) s.requests
    → length s.requests < fuel
    → not_demo o s ≡ true
    → (r : Outcome (List PurgeOrgResult) × Database) × (purge_demo_orgs pg fuel options s ≡ some r)
      × SameOrg o s r.1
purge_demo_orgs-SameOrg pg fuel options s o positive distinct enough not_one = (
  _,
  purge_demo_orgs-eq pg fuel options s positive distinct enough,
  without-SameOrg o options.cutoff _ s
      (λ r. other_of_stale o options.cutoff s.orgs r (ground (arith, not_one))),
)
