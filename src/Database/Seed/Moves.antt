-- ===== src/Database/Seed/Moves.antt =====
-- What the seed left in place stays in place while rows are added.
use frontdesk_intake.Prelude.{
  String, Bool, true, some, List, [], ◌∷◌, ◌≡◌, ap, ◌==◌, any, any-append, All, first, filter,
  Bool-cases, inl, inr, refl,
}
use frontdesk_intake.Database.Rows.{Database, Org}
use frontdesk_intake.Database.Order.{Postgres}
use frontdesk_intake.Database.Settings.{OrgSettings}
use frontdesk_intake.Database.Seed.Data.{OrgSeed, DemoRequestSeed, demo_requests}
use frontdesk_intake.Database.Seed.Upserts.{SeedFiles}
use frontdesk_intake.Database.Seed.Extends.{Extends}
use frontdesk_intake.Database.Seed.Kept.{Begins, KeptOrgs}
use frontdesk_intake.Database.Seed.Filled.{Fills}
use frontdesk_intake.Database.Seed.Present.{IsSeeded, HasFile, HasRequest, NeedsNothing, id_of}

pub any-Begins :
    {A : Type 0} (p : A → Bool) (xs ys : List A) → Begins xs ys → any p xs ≡ true → any p ys ≡ true
any-Begins p xs ys (added, grown) h = rw grown (rw (any-append p xs added) (rw h refl))

pub org_id-KeptOrgs :
    (slug : String) (xs ys : List Org) {id : String}
    → KeptOrgs xs ys
    → id_of (first (filter (λ o. o.slug == slug) xs)) ≡ some id
    → id_of (first (filter (λ o. o.slug == slug) ys)) ≡ some id
org_id-KeptOrgs slug [] ys k h = cc
org_id-KeptOrgs slug (x ∷ xs) [] k h = elim k [ ]
org_id-KeptOrgs slug (x ∷ xs) (y ∷ ys) {id} (k, ks) h =
    let same_slug : y.slug ≡ x.slug = ap (λ (o : Org). o.slug) k.columns in
    let same_id : y.id ≡ x.id = ap (λ (o : Org). o.id) k.columns in
    rw same_slug (elim (Bool-cases (x.slug == slug)) [
      | inl here ↦ rw here (rw same_id (rw here at h))
      | inr later ↦ rw later (org_id-KeptOrgs slug xs ys ks (rw later at h))
    ])

module _ (pg : Postgres) (files : SeedFiles) {s t : Database} (grown : Extends s t)
    (kept : Fills s t) where
  pub NeedsNothing-moves :
      (settings : OrgSettings) (id : String)
      → NeedsNothing settings id s
      → NeedsNothing settings id t
  NeedsNothing-moves settings id (inl h) = inl h
  NeedsNothing-moves settings id (inr h) = inr (kept.filled id h)

  pub HasFiles-moves :
      (id slug : String) (names : List String)
      → All (HasFile files id slug s) names
      → All (HasFile files id slug t) names
  HasFiles-moves id slug [] h = tt
  HasFiles-moves id slug (name ∷ names) ((content, read, there), hs) =
      ((content, read, any-Begins _ _ _ grown.documents there), HasFiles-moves id slug names hs)

  pub HasRequests-moves :
      (seeds : List DemoRequestSeed) → All (HasRequest s) seeds → All (HasRequest t) seeds
  HasRequests-moves [] h = tt
  HasRequests-moves (seed ∷ seeds) (h, hs) =
      (any-Begins _ _ _ grown.requests h, HasRequests-moves seeds hs)

  pub IsSeeded-moves : (org : OrgSeed) → IsSeeded pg files org s → IsSeeded pg files org t
  IsSeeded-moves org h = record {
    settings = h.settings;
    loaded = h.loaded;
    id = h.id;
    found = org_id-KeptOrgs org.slug s.orgs t.orgs grown.orgs h.found;
    filled = NeedsNothing-moves h.settings h.id h.filled;
    owner = any-Begins _ _ _ grown.org_members h.owner;
    names = h.names;
    listed = h.listed;
    documents = HasFiles-moves h.id org.slug _ h.documents;
    requests = λ demo. HasRequests-moves demo_requests (h.requests demo);
  }
