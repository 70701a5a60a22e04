-- ===== src/Database/Seed/Idempotent.antt =====
-- Running the seed again.
use frontdesk_intake.Prelude.{
  inr, eq_refl, arith, inl, Bool-cases, String, true, Option, some, List, [], ◌∷◌, ◌≡◌, refl, ap,
  subst, All, ◌==◌, any, first, filter,
}
use frontdesk_intake.Database.Seed.Extends.{Extends-trans}
use frontdesk_intake.Database.Seed.Filled.{Fills-trans, objects_only}
use frontdesk_intake.Database.Seed.Reached.{
  Grows, demo_part-ok, upsert_documents-ok, upsert_owner-ok, Grows-run, pure-ok,
}
use frontdesk_intake.Database.Seed.Moves.{
  HasFiles-moves, IsSeeded-moves, NeedsNothing-moves, any-Begins, org_id-KeptOrgs,
}
use frontdesk_intake.Database.Seed.Orgs.{backfill-ok, upsert_org-ok}
use frontdesk_intake.Database.Seed.Walk.{
  demo_part-Keeps, seed_org-Keeps, seed_orgs-Keeps, upsert_documents-Keeps, upsert_owner-Keeps,
  backfill-Keeps, upsert_org-Keeps,
}
use frontdesk_intake.Database.Seed.Present.{id_of, IsSeeded}
use frontdesk_intake.Database.Seed.Quiet.{seed_orgs-quiet}
use frontdesk_intake.Database.Rows.{Database, Org}
use frontdesk_intake.Database.Tx.{Outcome, ok, bind-ok}
use frontdesk_intake.Database.Order.{Postgres}
use frontdesk_intake.Database.Settings.{OrgSettings, refine_settings}
use frontdesk_intake.Database.Seed.Data.{OrgSeed, org_seeds}
use frontdesk_intake.Database.Seed.Upserts.{SeedFiles, Draws, load_org_settings}
use frontdesk_intake.Database.Seed.{SeedCounts, seed_org, seed_orgs, seed_database, no_counts}

has_org_of_slug :
    (slug : String) (xs : List Org) {id : String}
    → id_of (first (filter (λ o. o.slug == slug) xs)) ≡ some id
    → any (λ o. o.id == id) xs ≡ true
has_org_of_slug slug [] h = cc
has_org_of_slug slug (x ∷ xs) {id} h = elim (Bool-cases (x.slug == slug)) [
  | inl here ↦ let same : x.id ≡ id = ground (arith, here, h) in rw same (rw (eq_refl id) refl)
  | inr later ↦ ground (arith, has_org_of_slug slug xs {id = id} (rw later at h))
]

module _ (pg : Postgres) (files : SeedFiles) (draws : Draws) (guc : Option String) where
  after :
      {s t u : Database}
      → Grows pg files draws guc s t
      → Grows pg files draws guc t u
      → Grows pg files draws guc s u
  after {s} {t} {u} (h, h') (k, k') = (Extends-trans s t u h k, Fills-trans s t u h' k')

  load_org_settings-ok :
      (slug : String) (settings : OrgSettings) (s t : Database)
      → load_org_settings files slug guc s ≡ (ok settings, t)
      → (refine_settings (files.settings_file slug) ≡ ok settings) × (s ≡ t)
  unfolding load_org_settings
  load_org_settings-ok slug settings s t h = (
    ap (λ (r : Outcome OrgSettings × Database). r.0) h,
    ap (λ (r : Outcome OrgSettings × Database). r.1) h,
  )

  seed_org-ok :
      (org : OrgSeed) (counts counts' : SeedCounts) (s t : Database)
      → objects_only s.orgs ≡ true
      → seed_org pg files draws org counts guc s ≡ (ok counts', t)
      → IsSeeded pg files org t
  unfolding seed_org
  seed_org-ok org counts counts' s t objects h =
      let (settings, s0, load, h0) = bind-ok _ _ guc s t counts' h in
      let (u, s1, upsert, h1) = bind-ok _ _ guc s0 t counts' h0 in
      let (b, s2, fill, h2) = bind-ok _ _ guc s1 t counts' h1 in
      let (owner, s3, own, h3) = bind-ok _ _ guc s2 t counts' h2 in
      let (n, s4, document, h4) = bind-ok _ _ guc s3 t counts' h3 in
      let (m, s5, demo, h5) = bind-ok _ _ guc s4 t counts' h4 in
      let (value, same) = pure-ok _ counts' guc s5 t h5 in
      let (loaded, start) = load_org_settings-ok org.slug settings s s0 load in
      let g1 =
        Grows-run pg files draws guc _ s0 s1 (ok u)
          (λ R law. upsert_org-Keeps pg files draws law guc org settings) upsert in
      let g2 =
        Grows-run pg files draws guc _ s1 s2 (ok b)
          (λ R law. backfill-Keeps pg files draws law guc u settings) fill in
      let g3 =
        Grows-run pg files draws guc _ s2 s3 (ok owner)
          (λ R law. upsert_owner-Keeps pg files draws law guc u.id org.slug) own in
      let g4 =
        Grows-run pg files draws guc _ s3 s4 (ok n)
          (λ R law. upsert_documents-Keeps pg files draws law guc u.id org.slug) document in
      let g5 =
        Grows-run pg files draws guc _ s4 s5 (ok m)
          (λ R law. demo_part-Keeps pg files draws law guc org u.id settings) demo in
      let (found, new) = upsert_org-ok pg files draws guc org settings u s0 s1 upsert in
      let from_own = after g3 (after g4 g5) in
      let documents = upsert_documents-ok pg files draws guc u.id org.slug n s3 s4 document in
      subst (λ (d : Database). IsSeeded pg files org d) same
        (record {
          settings = settings;
          loaded = loaded;
          id = u.id;
          found = org_id-KeptOrgs org.slug s1.orgs s5.orgs (after g2 from_own).0.orgs found;
          filled = NeedsNothing-moves pg files from_own.0 from_own.1 settings u.id (
              backfill-ok pg files draws guc settings u b s1 s2 new
                (has_org_of_slug org.slug s1.orgs found)
                (g1.1.objects (subst (λ (d : Database). objects_only d.orgs ≡ true) start objects))
                fill);
          owner =
              any-Begins _ s3.org_members s5.org_members (after g4 g5).0.org_members
                (upsert_owner-ok pg files draws guc u.id org.slug s2 s3 owner own);
          names = documents.0;
          listed = documents.1;
          documents = HasFiles-moves pg files g5.0 g5.1 u.id org.slug _ documents.2;
          requests = demo_part-ok pg files draws guc org u.id settings m s4 s5 demo;
        })

  -- counts of a job that goes on from given counts
  seed_orgs-ok :
      (orgs : List OrgSeed) (counts counts' : SeedCounts) (s t : Database)
      → objects_only s.orgs ≡ true
      → seed_orgs pg files draws orgs counts guc s ≡ (ok counts', t)
      → All (λ org. IsSeeded pg files org t) orgs
  unfolding seed_orgs
  seed_orgs-ok [] counts counts' s t objects h = tt
  seed_orgs-ok (org ∷ orgs) counts counts' s t objects h =
      let (middle, u, done, rest) = bind-ok _ _ guc s t counts' h in
      let g1 =
        Grows-run pg files draws guc _ s u (ok middle)
          (λ R law. seed_org-Keeps pg files draws law guc org counts) done in
      let g2 =
        Grows-run pg files draws guc _ u t (ok counts')
          (λ R law. seed_orgs-Keeps pg files draws law guc orgs middle) rest in
      (
        IsSeeded-moves pg files g2.0 g2.1 org (seed_org-ok org counts middle s u objects done),
        seed_orgs-ok orgs middle counts' u t (g1.1.objects objects) rest,
      )

module _ (pg : Postgres) (files : SeedFiles) (draws draws' : Draws) (s t : Database)
    (counts : SeedCounts) (guc : Option String) where
  -- Where the settings of each org are an object, a seed that ends well makes the next one a no-op:
  -- run again with the same files, whatever identifiers and times it would draw, it ends well,
  -- counts nothing and changes nothing.
  pub seed_database_twice :
      objects_only s.orgs ≡ true
      → seed_database pg files draws guc s ≡ (ok counts, t)
      → seed_database pg files draws' guc t ≡ (ok no_counts, t)
  unfolding seed_database
  seed_database_twice objects h =
      seed_orgs-quiet pg files draws' guc t org_seeds no_counts
        (seed_orgs-ok pg files draws guc org_seeds no_counts counts s t objects h)
