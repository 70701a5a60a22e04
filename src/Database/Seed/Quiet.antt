-- ===== src/Database/Seed/Quiet.antt =====
-- A seed that finds everything in place changes nothing and counts nothing.
use frontdesk_intake.Prelude.{
  sort_texts, Option-cases, ℕ, String, Bool, true, false, Option, some, List, [], ◌∷◌, ◌≡◌, ◌∙◌,
  refl, ap, inl, inr, ◌==◌, any, any-eq_filter, All, first, filter, update_where, Bool-cases, arith,
}
use frontdesk_intake.Database.Rows.{Database}
use frontdesk_intake.Database.Tx.{Outcome, ok, pure, bind_of_ok, ◌>>=◌}
use frontdesk_intake.Database.Order.{Postgres}
use frontdesk_intake.Database.Settings.{OrgSettings, descriptions_json}
use frontdesk_intake.Database.Seed.Data.{OrgSeed, DemoRequestSeed, demo_requests}
use frontdesk_intake.Database.Seed.Inserts.{
  insert_unless, insert_org, insert_member, insert_document, insert_seed_request, update_settings,
  lacks_key, add_key,
}
use frontdesk_intake.Database.Seed.Upserts.{
  owner_email_for, SeedFiles, Draws, upsert_org, org_row, backfill_settings_key, upsert_owner,
  owner_row, document_row, upsert_document, upsert_files, upsert_documents, load_org_settings,
  ends_with_md,
}
use frontdesk_intake.Database.Seed.Requests.{
  complete_request, request_row, upsert_demo_request, upsert_requests, upsert_demo_requests,
}
use frontdesk_intake.Database.Seed.{SeedCounts, seed_org, seed_orgs, backfill, demo_part}
use frontdesk_intake.Database.Seed.Present.{
  has_member, IsSeeded, HasFile, HasRequest, NeedsNothing, org_id_of_slug, descriptions_key,
}

update_where_none :
    {A : Type 0} (p : A → Bool) (f : A → A) (xs : List A)
    → any p xs ≡ false
    → update_where p f xs ≡ xs
update_where_none p f [] h = refl
update_where_none p f (x ∷ xs) h = ground (arith, update_where_none p f xs)

filter_none : {A : Type 0} (p : A → Bool) (xs : List A) → any p xs ≡ false → filter p xs ≡ []
filter_none p [] h = refl
filter_none p (x ∷ xs) h = ground (arith, filter_none p xs)

module _ (pg : Postgres) (files : SeedFiles) (draws : Draws) (guc : Option String)
    (s : Database) where
  upsert_org-quiet :
      (org : OrgSeed) (settings : OrgSettings) (id : String)
      → org_id_of_slug org.slug s ≡ some id
      → upsert_org pg files draws org settings guc s
        ≡ (ok (record { id = id; inserted = false }), s)
  unfolding upsert_org insert_org insert_unless org_row ◌>>=◌ pure
  upsert_org-quiet org settings id h =
      elim (Option-cases (first (filter (λ o. o.slug == org.slug) s.orgs))) [
        | inl missing ↦ cc (h, missing)
        | inr (row, found) ↦
            rw (any-eq_filter (λ o. o.slug == org.slug) s.orgs found)
              (rw found (let same : row.id ≡ id = cc (h, found) in rw same refl))
      ]

  backfill-quiet :
      (settings : OrgSettings) (id : String)
      → NeedsNothing settings id s
      → backfill pg files draws (record { id = id; inserted = false }) settings guc s
        ≡ (ok false, s)
  unfolding backfill backfill_settings_key update_settings ◌>>=◌ pure
  backfill-quiet settings id (inl undescribed) = rw undescribed refl
  backfill-quiet settings id (inr (exists', full)) =
      elim (Option-cases (descriptions_json settings.category_descriptions)) [
        | inl undescribed ↦ rw undescribed refl
        | inr (v, described) ↦ rw described (
            rw (filter_none (lacks_key id descriptions_key) s.orgs full) (
              rw
                (update_where_none (lacks_key id descriptions_key) (add_key descriptions_key v)
                  s.orgs full)
                refl))
      ]

  upsert_owner-quiet :
      (id slug : String)
      → has_member pg (owner_email_for files slug) s ≡ true
      → upsert_owner pg files draws id slug guc s ≡ (ok false, s)
  unfolding upsert_owner insert_member insert_unless owner_row ◌>>=◌ pure
  upsert_owner-quiet id slug h = rw h refl

  upsert_document-quiet :
      (id slug name : String)
      → HasFile files id slug s name
      → upsert_document pg files draws id slug name guc s ≡ (ok false, s)
  unfolding upsert_document insert_document insert_unless document_row ◌>>=◌ pure
  upsert_document-quiet id slug name (content, read, there) = rw read (rw there refl)

  upsert_files-quiet :
      (id slug : String) (names : List String) (n : ℕ)
      → All (HasFile files id slug s) names
      → upsert_files pg files draws id slug names n guc s ≡ (ok n, s)
  unfolding upsert_files pure
  upsert_files-quiet id slug [] n h = refl
  upsert_files-quiet id slug (name ∷ names) n (h, hs) =
      bind_of_ok _ _ guc s s false (upsert_document-quiet id slug name h)
      ∙ upsert_files-quiet id slug names n hs

  upsert_documents-quiet :
      (id slug : String) (names : List String)
      → files.read_dir slug ≡ ok names
      → All (HasFile files id slug s) (sort_texts (filter ends_with_md names))
      → upsert_documents pg files draws id slug guc s ≡ (ok 0, s)
  unfolding upsert_documents ◌>>=◌
  upsert_documents-quiet id slug names listed h = rw listed (upsert_files-quiet id slug _ 0 h)

  pub upsert_demo_request-quiet :
      (id slug : String) (settings : OrgSettings) (seed : DemoRequestSeed)
      → HasRequest s seed
      → upsert_demo_request files draws id slug settings seed guc s ≡ (ok false, s)
  unfolding upsert_demo_request insert_seed_request insert_unless request_row complete_request ◌>>=◌
      pure
  upsert_demo_request-quiet id slug settings seed h = rw h refl

  upsert_requests-quiet :
      (id slug : String) (settings : OrgSettings) (seeds : List DemoRequestSeed) (n : ℕ)
      → All (HasRequest s) seeds
      → upsert_requests files draws id slug settings seeds n guc s ≡ (ok n, s)
  unfolding upsert_requests pure
  upsert_requests-quiet id slug settings [] n h = refl
  upsert_requests-quiet id slug settings (seed ∷ seeds) n (h, hs) =
      bind_of_ok _ _ guc s s false (upsert_demo_request-quiet id slug settings seed h)
      ∙ upsert_requests-quiet id slug settings seeds n hs

  demo_part-quiet :
      (org : OrgSeed) (id : String) (settings : OrgSettings)
      → (org.is_demo ≡ true → All (HasRequest s) demo_requests)
      → demo_part pg files draws org id settings guc s ≡ (ok 0, s)
  unfolding demo_part upsert_demo_requests pure
  demo_part-quiet org id settings h = elim (Bool-cases org.is_demo) [
    | inl demo ↦ rw demo (upsert_requests-quiet id org.slug settings demo_requests 0 (h demo))
    | inr other ↦ rw other refl
  ]

  pub seed_org-quiet :
      (org : OrgSeed) (counts : SeedCounts)
      → IsSeeded pg files org s
      → seed_org pg files draws org counts guc s ≡ (ok counts, s)
  unfolding seed_org load_org_settings pure
  seed_org-quiet org counts h =
      bind_of_ok _ _ guc s s h.settings (ap (λ (o : Outcome OrgSettings). (o, s)) h.loaded)
      ∙ bind_of_ok _ _ guc s s _ (upsert_org-quiet org h.settings h.id h.found)
      ∙ bind_of_ok _ _ guc s s false (backfill-quiet h.settings h.id h.filled)
      ∙ bind_of_ok _ _ guc s s false (upsert_owner-quiet h.id org.slug h.owner)
      ∙ bind_of_ok _ _ guc s s 0 (upsert_documents-quiet h.id org.slug h.names h.listed h.documents)
      ∙ bind_of_ok _ _ guc s s 0 (demo_part-quiet org h.id h.settings h.requests)
      ∙ ground arith

  pub seed_orgs-quiet :
      (orgs : List OrgSeed) (counts : SeedCounts)
      → All (λ org. IsSeeded pg files org s) orgs
      → seed_orgs pg files draws orgs counts guc s ≡ (ok counts, s)
  unfolding seed_orgs pure
  seed_orgs-quiet [] counts h = refl
  seed_orgs-quiet (org ∷ orgs) counts (h, hs) =
      bind_of_ok _ _ guc s s counts (seed_org-quiet org counts h) ∙ seed_orgs-quiet orgs counts hs
