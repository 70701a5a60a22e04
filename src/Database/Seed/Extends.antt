-- ===== src/Database/Seed/Extends.antt =====
-- The seed creates rows and overwrites none.
use frontdesk_intake.Database.Seed.Kept.{
  Begins, Begins-refl, Begins-trans, KeptOrgs, KeptOrgs-append, KeptOrgs-refl, KeptOrgs-trans,
  KeptOrgs-update,
}
use frontdesk_intake.Prelude.{
  String, Bool, true, false, Option, none, some, List, [], ◌∷◌, ◌++◌, ◌≡◌, refl, ◌∙◌, Option-cases,
  inl, inr,
}
use mathlib.Core.List.{append-nil}
use frontdesk_intake.Database.Rows.{Database, Org, OrgMember, Request, Draft, Action, Document}
use frontdesk_intake.Database.Statements.{
  insert_draft, insert_action, draft_refusal, action_refusal,
}
use frontdesk_intake.Database.Order.{Postgres}
use frontdesk_intake.Database.Seed.Inserts.{
  insert_unless, insert_org, insert_member, insert_document, insert_seed_request, update_settings,
}
use frontdesk_intake.Database.Seed.Upserts.{SeedFiles, Draws}
use frontdesk_intake.Database.Seed.{seed_database, no_counts}
use frontdesk_intake.Database.Seed.Data.{org_seeds}
use frontdesk_intake.Database.Tx.{Error}
use frontdesk_intake.Database.Seed.Walk.{Respects, seed_orgs-Keeps}

-- Each table keeps its rows in place and may grow; an org may gain settings.
pub record Extends (s t : Database) : Type 0 where
  pub orgs : KeptOrgs s.orgs t.orgs
  pub org_members : Begins s.org_members t.org_members
  pub requests : Begins s.requests t.requests
  pub drafts : Begins s.drafts t.drafts
  pub actions : Begins s.actions t.actions
  pub documents : Begins s.documents t.documents
  pub api_keys : t.api_keys ≡ s.api_keys
  pub chunks : t.chunks ≡ s.chunks

Extends-refl : (s : Database) → Extends s s
Extends-refl s = record {
  orgs = KeptOrgs-refl s.orgs;
  org_members = Begins-refl s.org_members;
  requests = Begins-refl s.requests;
  drafts = Begins-refl s.drafts;
  actions = Begins-refl s.actions;
  documents = Begins-refl s.documents;
  api_keys = refl;
  chunks = refl;
}

module _ (s : Database) where
  more_orgs : {orgs : List Org} → KeptOrgs s.orgs orgs → Extends s (record s { orgs = orgs })
  more_orgs h = record {
    orgs = h;
    org_members = Begins-refl s.org_members;
    requests = Begins-refl s.requests;
    drafts = Begins-refl s.drafts;
    actions = Begins-refl s.actions;
    documents = Begins-refl s.documents;
    api_keys = refl;
    chunks = refl;
  }

  -- rows added at the end of tables
  more :
      (members : List OrgMember) (requests : List Request) (drafts : List Draft)
      (actions : List Action) (documents : List Document)
      → Extends s (record s {
        org_members = s.org_members ++ members;
        requests = s.requests ++ requests;
        drafts = s.drafts ++ drafts;
        actions = s.actions ++ actions;
        documents = s.documents ++ documents;
      })
  more members requests drafts actions documents = record {
    orgs = KeptOrgs-refl s.orgs;
    org_members = (members, refl);
    requests = (requests, refl);
    drafts = (drafts, refl);
    actions = (actions, refl);
    documents = (documents, refl);
    api_keys = refl;
    chunks = refl;
  }

pub Extends-trans : (s t u : Database) → Extends s t → Extends t u → Extends s u
Extends-trans s t u h k = record {
  orgs = KeptOrgs-trans s.orgs t.orgs u.orgs h.orgs k.orgs;
  org_members = Begins-trans s.org_members t.org_members u.org_members h.org_members k.org_members;
  requests = Begins-trans s.requests t.requests u.requests h.requests k.requests;
  drafts = Begins-trans s.drafts t.drafts u.drafts h.drafts k.drafts;
  actions = Begins-trans s.actions t.actions u.actions h.actions k.actions;
  documents = Begins-trans s.documents t.documents u.documents h.documents k.documents;
  api_keys = k.api_keys ∙ h.api_keys;
  chunks = k.chunks ∙ h.chunks;
}

insert_unless-Extends :
    (conflict : Bool) (refusal : Option Error) (id : String) (s t : Database) (guc : Option String)
    → Extends s t
    → Extends s (insert_unless conflict refusal id t guc s).1
unfolding insert_unless
insert_unless-Extends true refusal id s t guc h = Extends-refl s
insert_unless-Extends false none id s t guc h = h
insert_unless-Extends false (some e) id s t guc h = Extends-refl s

insert_draft-Extends :
    (row : Draft) (guc : Option String) (s : Database) → Extends s (insert_draft row guc s).1
unfolding insert_draft
insert_draft-Extends row guc s = elim (Option-cases (draft_refusal row guc s)) [
  | inl fine ↦ rw (fine, insert_draft) (simp (append-nil) at (more s [] [] (row ∷ []) [] []))
  | inr (e, refused) ↦ rw (refused, insert_draft) (Extends-refl s)
]

insert_action-Extends :
    (row : Action) (guc : Option String) (s : Database) → Extends s (insert_action row guc s).1
unfolding insert_action
insert_action-Extends row guc s = elim (Option-cases (action_refusal row guc s)) [
  | inl fine ↦ rw (fine, insert_action) (simp (append-nil) at (more s [] [] [] (row ∷ []) []))
  | inr (e, refused) ↦ rw (refused, insert_action) (Extends-refl s)
]

pub Extends-law : (pg : Postgres) → Respects pg Extends
unfolding insert_org insert_member insert_document insert_seed_request update_settings
Extends-law pg = record {
  itself = Extends-refl;
  trans = Extends-trans;
  org = λ row guc s h.
      insert_unless-Extends _ _ _ s _ guc (more_orgs s (KeptOrgs-append s.orgs (row ∷ [])));
  member = λ row guc s.
      insert_unless-Extends _ _ _ s _ guc (simp (append-nil) at (more s (row ∷ []) [] [] [] []));
  document = λ row guc s.
      insert_unless-Extends _ _ _ s _ guc (simp (append-nil) at (more s [] [] [] [] (row ∷ [])));
  request = λ row guc s.
      insert_unless-Extends _ _ _ s _ guc (simp (append-nil) at (more s [] (row ∷ []) [] [] []));
  draft = insert_draft-Extends;
  action = insert_action-Extends;
  settings = λ id key v guc s. more_orgs s (KeptOrgs-update id key v s.orgs);
}

module _ (pg : Postgres) (files : SeedFiles) (draws : Draws) (guc : Option String)
    (s : Database) where
  -- Whether the seed ends or stops at an error, each row of each table stays where it was, with the
  -- columns that it had, except that an org's settings may gain keys. API keys and chunks are not
  -- touched.
  pub seed_database-Extends : Extends s (seed_database pg files draws guc s).1
  unfolding seed_database
  seed_database-Extends =
      (seed_orgs-Keeps pg files draws (Extends-law pg) guc org_seeds no_counts).at s
