-- ===== src/Database/Seed/Interrupted.antt =====
-- A seed that stopped between a request and its draft.
use frontdesk_intake.Database.Rows.{Draft, Database, Request}
use frontdesk_intake.Database.Statements.{draft_refusal, insert_draft}
use frontdesk_intake.Database.Seed.Quiet.{upsert_demo_request-quiet}
use frontdesk_intake.Database.Seed.Data.{DemoRequestSeed}
use frontdesk_intake.Database.Seed.Upserts.{Draws, SeedFiles}
use frontdesk_intake.Database.Settings.{OrgSettings}
use frontdesk_intake.Database.Seed.Inserts.{as_owner, insert_seed_request}
use frontdesk_intake.Database.Seed.Requests.{
  draft_row, request_row, complete_request, upsert_demo_request,
}
use frontdesk_intake.Database.Seed.Present.{has_token}
use frontdesk_intake.Database.Seed.Reached.{insert_seed_request-ok, insert_unless-ok}
use frontdesk_intake.Prelude.{
  refl, false, true, subst, Option-cases, inl, inr, String, Option, some, ◌≡◌, ap,
}
use frontdesk_intake.Database.Tx.{Outcome, Error, ok, err, ◌>>=◌}
use frontdesk_intake.Database.Order.{Postgres}

insert_seed_request-drafts :
    (row : Request) (guc o : Option String) (s t : Database)
    → insert_seed_request row guc s ≡ (ok o, t)
    → t.drafts ≡ s.drafts
unfolding insert_seed_request
insert_seed_request-drafts row guc o s t h = elim (insert_unless-ok _ _ _ s _ t guc o h) [
  | inl (there, nothing, same) ↦ rw same refl
  | inr (free, fine, given, now) ↦ rw now refl
]

insert_draft-refused :
    (row : Draft) (guc : Option String) (e : Error) (s t : Database)
    → insert_draft row guc s ≡ (err e, t)
    → s ≡ t
unfolding insert_draft
insert_draft-refused row guc e s t h = elim (Option-cases (draft_refusal row guc s)) [
  | inl fine ↦ cc (rw (fine, insert_draft) at h)
  | inr (e', refused) ↦
      ap (λ (r : Outcome (Unit {0}) × Database). r.1) (rw (refused, insert_draft) at h)
]

module _ (pg : Postgres) (files : SeedFiles) (draws draws' : Draws) (guc : Option String)
    (org_id slug : String) (settings : OrgSettings) (seed : DemoRequestSeed) (s t u : Database)
    (id : String) (e : Error) where
  -- If the request was created and the insert of its draft fails, the call fails with the request in
  -- place and no draft added; the next call for the same request then ends well, creates nothing and
  -- adds no draft either.
  pub upsert_demo_request-interrupted :
      insert_seed_request (request_row files draws org_id settings seed s) guc s ≡ (ok (some id), t)
      → insert_draft (draft_row files draws org_id id seed t) (some org_id) t ≡ (err e, u)
      → (upsert_demo_request files draws org_id slug settings seed guc s ≡ (err e, u))
        × (has_token seed.tracking_token u ≡ true)
        × (u.drafts ≡ s.drafts)
        × (upsert_demo_request files draws' org_id slug settings seed guc u ≡ (ok false, u))
  unfolding upsert_demo_request complete_request as_owner request_row ◌>>=◌
  upsert_demo_request-interrupted created refused =
      let same : t ≡ u =
        insert_draft-refused (draft_row files draws org_id id seed t) (some org_id) e t u refused in
      let found : has_token seed.tracking_token u ≡ true =
        subst (λ (d : Database). has_token seed.tracking_token d ≡ true) same
          (insert_seed_request-ok (request_row files draws org_id settings seed s) guc s t (some id)
            created) in
      (
        rw created (rw refused refl),
        found,
        subst (λ (d : Database). d.drafts ≡ s.drafts) same
            (insert_seed_request-drafts (request_row files draws org_id settings seed s) guc
              (some id) s t created),
        upsert_demo_request-quiet pg files draws' guc u org_id slug settings seed found,
      )
