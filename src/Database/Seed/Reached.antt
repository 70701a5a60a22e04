-- ===== src/Database/Seed/Reached.antt =====
-- A seed that ends well leaves all that it would create in place.
use frontdesk_intake.Database.Seed.Moves.{any-Begins, HasFiles-moves}
use frontdesk_intake.Database.Seed.Walk.{
  complete_request-Keeps, upsert_requests-Keeps, Respects, upsert_files-Keeps,
}
use frontdesk_intake.Database.Seed.Data.{demo_requests, OrgSeed, DemoRequestSeed}
use frontdesk_intake.Database.Seed.Present.{
  HasRequest, HasFile, has_member, has_document, has_token,
}
use frontdesk_intake.Database.Seed.Requests.{
  complete_request, request_row, upsert_demo_requests, upsert_requests, upsert_demo_request,
}
use frontdesk_intake.Database.Settings.{OrgSettings}
use frontdesk_intake.Database.Seed.{demo_part}
use frontdesk_intake.Database.Keeps.{Keeps}
use frontdesk_intake.Prelude.{
  sort_texts, filter, ℕ, String, Bool, true, false, Option, none, some, List, [], ◌∷◌, ◌++◌, ◌≡◌,
  refl, sym, subst, ap, ◌⊎◌, any, any-append, All, eq_refl, inl, inr, arith,
}
use frontdesk_intake.Database.Rows.{Request, OrgMember, Document, Database}
use frontdesk_intake.Database.Tx.{Tx, Outcome, Error, ok, pure, bind-ok}
use frontdesk_intake.Database.Order.{Postgres}
use frontdesk_intake.Database.Seed.Inserts.{
  insert_unless, insert_member, insert_document, insert_seed_request,
}
use frontdesk_intake.Database.Seed.Upserts.{
  ends_with_md, upsert_documents, SeedFiles, Draws, upsert_owner, owner_row, owner_email_for,
  document_row, upsert_document, upsert_files, tally,
}
use frontdesk_intake.Database.Seed.Extends.{Extends, Extends-law}
use frontdesk_intake.Database.Seed.Filled.{Fills, Fills-law}

pub insert_unless-ok :
    (conflict : Bool) (refusal : Option Error) (id : String) (s u t : Database)
    (guc : Option String) (o : Option String)
    → insert_unless conflict refusal id u guc s ≡ (ok o, t)
    → ((conflict ≡ true) × (o ≡ none) × (t ≡ s))
      ⊎ ((conflict ≡ false) × (refusal ≡ none) × (o ≡ some id) × (t ≡ u))
unfolding insert_unless
insert_unless-ok true refusal id s u t guc o h = inl (refl, cc, cc)
insert_unless-ok false none id s u t guc o h = inr (refl, refl, cc, cc)
insert_unless-ok false (some e) id s u t guc o h = cc

any_last :
    {A : Type 0} (p : A → Bool) (xs : List A) (x : A) → p x ≡ true → any p (xs ++ x ∷ []) ≡ true
any_last p xs x h = rw (any-append p xs (x ∷ [])) (ground (arith, h))

pub pure-ok :
    {A : Type 0} (a b : A) (guc : Option String) (s t : Database)
    → pure a guc s ≡ (ok b, t)
    → (a ≡ b) × (s ≡ t)
unfolding pure
pure-ok a b guc s t h = (cc, cc)

insert_member-ok :
    (pg : Postgres) (row : OrgMember) (guc : Option String) (s t : Database) (o : Option String)
    → insert_member pg row guc s ≡ (ok o, t)
    → has_member pg row.email t ≡ true
unfolding insert_member
insert_member-ok pg row guc s t o h = elim (insert_unless-ok _ _ _ s _ t guc o h) [
  | inl (there, nothing, same) ↦ rw same there
  | inr (free, fine, given, now) ↦
      rw now (any_last _ s.org_members row (pg.citext_eq-refl row.email))
]

insert_document-ok :
    (row : Document) (guc : Option String) (s t : Database) (o : Option String)
    → insert_document row guc s ≡ (ok o, t)
    → has_document row.org_id row.sha256 t ≡ true
unfolding insert_document
insert_document-ok row guc s t o h = elim (insert_unless-ok _ _ _ s _ t guc o h) [
  | inl (there, nothing, same) ↦ rw same there
  | inr (free, fine, given, now) ↦
      rw now (any_last _ s.documents row (rw (eq_refl row.org_id) (rw (eq_refl row.sha256) refl)))
]

pub insert_seed_request-ok :
    (row : Request) (guc : Option String) (s t : Database) (o : Option String)
    → insert_seed_request row guc s ≡ (ok o, t)
    → has_token row.tracking_token t ≡ true
unfolding insert_seed_request
insert_seed_request-ok row guc s t o h = elim (insert_unless-ok _ _ _ s _ t guc o h) [
  | inl (there, nothing, same) ↦ rw same there
  | inr (free, fine, given, now) ↦ rw now (any_last _ s.requests row (eq_refl row.tracking_token))
]

module _ (pg : Postgres) (files : SeedFiles) (draws : Draws) (guc : Option String) where
  -- each later step only adds
  abbrev pub Grows : Database → Database → Type 0
  Grows s t = Extends s t × Fills s t

  pub upsert_owner-ok :
      (id slug : String) (s t : Database) (b : Bool)
      → upsert_owner pg files draws id slug guc s ≡ (ok b, t)
      → has_member pg (owner_email_for files slug) t ≡ true
  unfolding upsert_owner owner_row
  upsert_owner-ok id slug s t b h =
      let (o, u, done, rest) = bind-ok _ _ guc s t b h in
      let (value, same) = pure-ok _ b guc u t rest in
      subst (λ (v : Database). has_member pg (owner_email_for files slug) v ≡ true) same
        (insert_member-ok pg (owner_row pg files draws id slug s) guc s u o done)

  pub upsert_document-ok :
      (id slug name : String) (s t : Database) (b : Bool)
      → upsert_document pg files draws id slug name guc s ≡ (ok b, t)
      → HasFile files id slug t name
  unfolding upsert_document document_row
  upsert_document-ok id slug name s t b h =
      let (content, u, read, h1) = bind-ok _ _ guc s t b h in
      let (o, v, done, rest) = bind-ok _ _ guc u t b h1 in
      let (value, same) = pure-ok _ b guc v t rest in
      (
        content,
        cc (read),
        subst (λ (w : Database). has_document id (files.sha256 content) w ≡ true) same
            (insert_document-ok (document_row pg files draws id name content u) guc u v o done),
      )

  pub Grows-run :
      {A : Type 0} (m : Tx A) (s t : Database) (r : Outcome A)
      → ((R : Database → Database → Type 0) → Respects pg R → Keeps guc R m)
      → m guc s ≡ (r, t)
      → Grows s t
  Grows-run m s t r keeps h =
      rw (ap (λ (x : Outcome _ × Database). x.1) (sym h))
        ((keeps Extends (Extends-law pg)).at s, (keeps Fills (Fills-law pg)).at s)

  pub upsert_files-ok :
      (id slug : String) (names : List String) (n m : ℕ) (s t : Database)
      → upsert_files pg files draws id slug names n guc s ≡ (ok m, t)
      → All (HasFile files id slug t) names
  unfolding upsert_files
  upsert_files-ok id slug [] n m s t h = tt
  upsert_files-ok id slug (name ∷ names) n m s t h =
      let (b, u, done, rest) = bind-ok _ _ guc s t m h in
      let here = upsert_document-ok id slug name s u b done in
      let (grown, kept) =
        Grows-run (upsert_files pg files draws id slug names (tally b n)) u t (ok m)
          (λ R law. upsert_files-Keeps pg files draws law guc id slug names (tally b n)) rest in
      (
        (HasFiles-moves pg files grown kept id slug (name ∷ []) (here, tt)).0,
        upsert_files-ok id slug names (tally b n) m u t rest,
      )

  pub upsert_documents-ok :
      (id slug : String) (m : ℕ) (s t : Database)
      → upsert_documents pg files draws id slug guc s ≡ (ok m, t)
      → (names : List String) × (files.read_dir slug ≡ ok names)
        × All (HasFile files id slug t) (sort_texts (filter ends_with_md names))
  unfolding upsert_documents
  upsert_documents-ok id slug m s t h =
      let (names, u, listed, rest) = bind-ok _ _ guc s t m h in
      (names, cc (listed), upsert_files-ok id slug _ 0 m u t rest)

  upsert_demo_request-ok :
      (id slug : String) (settings : OrgSettings) (seed : DemoRequestSeed) (b : Bool)
      (s t : Database)
      → upsert_demo_request files draws id slug settings seed guc s ≡ (ok b, t)
      → HasRequest t seed
  unfolding upsert_demo_request request_row
  upsert_demo_request-ok id slug settings seed b s t h =
      let (o, u, done, rest) = bind-ok _ _ guc s t b h in
      let (grown, kept) =
        Grows-run (complete_request files draws id slug seed o) u t (ok b)
          (λ R law. complete_request-Keeps pg files draws law guc id slug seed o) rest in
      any-Begins _ u.requests t.requests grown.requests
        (insert_seed_request-ok (request_row files draws id settings seed s) guc s u o done)

  pub upsert_requests-ok :
      (id slug : String) (settings : OrgSettings) (seeds : List DemoRequestSeed) (n m : ℕ)
      (s t : Database)
      → upsert_requests files draws id slug settings seeds n guc s ≡ (ok m, t)
      → All (HasRequest t) seeds
  unfolding upsert_requests
  upsert_requests-ok id slug settings [] n m s t h = tt
  upsert_requests-ok id slug settings (seed ∷ seeds) n m s t h =
      let (b, u, done, rest) = bind-ok _ _ guc s t m h in
      let (grown, kept) =
        Grows-run (upsert_requests files draws id slug settings seeds (tally b n)) u t (ok m)
          (λ R law. upsert_requests-Keeps pg files draws law guc id slug settings seeds (tally b n))
          rest in
      let here = upsert_demo_request-ok id slug settings seed b s u done in
      (
        any-Begins _ u.requests t.requests grown.requests here,
        upsert_requests-ok id slug settings seeds (tally b n) m u t rest,
      )

  pub demo_part-ok :
      (org : OrgSeed) (id : String) (settings : OrgSettings) (m : ℕ) (s t : Database)
      → demo_part pg files draws org id settings guc s ≡ (ok m, t)
      → org.is_demo ≡ true
      → All (HasRequest t) demo_requests
  unfolding demo_part upsert_demo_requests
  demo_part-ok org id settings m s t h demo =
      upsert_requests-ok id org.slug settings demo_requests 0 m s t (rw demo at h)
