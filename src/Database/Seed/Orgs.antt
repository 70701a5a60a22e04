-- ===== src/Database/Seed/Orgs.antt =====
-- The org row that an upsert finds or creates, and its settings after the backfill.
use frontdesk_intake.Prelude.{
  ◌∙◌, sym, any-update_where, Bool-cases, subst, ap, first, update_where, String, Bool, true, false,
  Option, none, some, List, [], ◌∷◌, ◌++◌, ◌≡◌, refl, ◌==◌, any, any-append, filter, eq_refl,
  Option-cases, inl, inr, arith,
}
use frontdesk_intake.Database.Seed.Inserts.{
  update_settings, add_key, insert_org, with_key, primary, has_org, has_key, lacks_key,
}
use frontdesk_intake.Database.Seed.Upserts.{
  backfill_settings_key, new_or_existing, upsert_org, SeedFiles, Draws, OrgUpsert, found_org,
  org_row,
}
use frontdesk_intake.Database.Seed.{backfill}
use frontdesk_intake.Database.Seed.Reached.{pure-ok, insert_unless-ok}
use frontdesk_intake.Json.{Json, null, bool, num, number, str, arr, obj}
use frontdesk_intake.Database.Rows.{Database, Org}
use frontdesk_intake.Database.Tx.{bind-ok, throw, ok, pure}
use frontdesk_intake.Database.Order.{Postgres}
use frontdesk_intake.Database.Settings.{OrgSettings, settings_json, descriptions_json}
use frontdesk_intake.Database.Seed.Data.{OrgSeed}
use frontdesk_intake.Database.Seed.Filled.{
  has_key-set_key_self, objects_only, is_object, lacks_of_fresh,
}
use frontdesk_intake.Database.Seed.Present.{NeedsNothing, id_of, org_id_of_slug, descriptions_key}

filter_nothing :
    {A : Type 0} (p : A → Bool) (xs ys : List A)
    → any p xs ≡ false
    → filter p (xs ++ ys) ≡ filter p ys
filter_nothing p [] ys h = refl
filter_nothing p (x ∷ xs) ys h = ground (arith, filter_nothing p xs ys)

described_key :
    (settings : OrgSettings) (v : Json)
    → descriptions_json settings.category_descriptions ≡ some v
    → has_key descriptions_key (settings_json settings) ≡ true
unfolding settings_json
described_key settings v h = rw h refl

has_key_after :
    (j v : Json)
    → is_object j ≡ true
    → has_key descriptions_key (with_key descriptions_key v j) ≡ true
has_key_after (obj fields) v h = has_key-set_key_self descriptions_key v fields
has_key_after null v h = cc
has_key_after (bool b) v h = cc
has_key_after (num n) v h = cc
has_key_after (number n) v h = cc
has_key_after (str t) v h = cc
has_key_after (arr is) v h = cc

module _ (pg : Postgres) (files : SeedFiles) (draws : Draws) (guc : Option String) where
  found_org-ok :
      (slug : String) (o : Option Org) (u : OrgUpsert) (s t : Database)
      → found_org slug o guc s ≡ (ok u, t)
      → (id_of o ≡ some u.id) × (u.inserted ≡ false) × (s ≡ t)
  unfolding throw pure
  found_org-ok slug none u s t h = cc
  found_org-ok slug (some o) u s t h = (cc, cc, cc)

  inserted_filled :
      (org : OrgSeed) (settings : OrgSettings) (s : Database)
      → has_org (draws.uuid s) s ≡ false
      → NeedsNothing settings
          (draws.uuid s)
          (record s { orgs = s.orgs ++ org_row pg files draws org settings s ∷ [] })
  unfolding org_row
  inserted_filled org settings s fresh =
      elim (Option-cases (descriptions_json settings.category_descriptions)) [
        | inl undescribed ↦ inl undescribed
        | inr (v, described) ↦
            let row = org_row pg files draws org settings s in
            inr (
              rw (any-append (λ (o : Org). o.id == draws.uuid s) s.orgs (row ∷ []))
                  (rw fresh (rw (eq_refl (draws.uuid s)) refl)),
              rw (any-append (lacks_key (draws.uuid s) descriptions_key) s.orgs (row ∷ [])) (
                  rw (lacks_of_fresh (draws.uuid s) descriptions_key s.orgs fresh)
                    (rw (eq_refl (draws.uuid s)) (rw (described_key settings v described) refl))),
            )
      ]

  -- what an upsert of an org establishes
  abbrev pub Upserted : OrgSeed → OrgSettings → OrgUpsert → Database → Type 0
  Upserted org settings u t =
      (org_id_of_slug org.slug t ≡ some u.id) × (u.inserted ≡ true → NeedsNothing settings u.id t)

  primary-free : (taken : Bool) (name : String) → primary taken name none ≡ none → taken ≡ false
  primary-free true name h = cc
  primary-free false name h = refl

  existing-ok :
      (org : OrgSeed) (settings : OrgSettings) (u : OrgUpsert) (s t : Database)
      → new_or_existing org.slug none guc s ≡ (ok u, t)
      → Upserted org settings u t
  existing-ok org settings u s t h =
      let (o, v, read, rest) = bind-ok _ _ guc s t u h in
      let (is_id, old, same) = found_org-ok org.slug o u v t rest in
      let found : id_of (first (filter (λ x. x.slug == org.slug) s.orgs)) ≡ id_of o =
        ap id_of (cc (read)) in
      let unchanged : s ≡ t = cc (read, same) in
      (
        subst (λ (d : Database). org_id_of_slug org.slug d ≡ some u.id) unchanged (found ∙ is_id),
        λ new. absurd (cc (new, old)),
      )

  created-ok :
      (org : OrgSeed) (settings : OrgSettings) (u : OrgUpsert) (s v t : Database)
      → any (λ o. o.slug == org.slug) s.orgs ≡ false
      → has_org (draws.uuid s) s ≡ false
      → v ≡ record s { orgs = s.orgs ++ org_row pg files draws org settings s ∷ [] }
      → new_or_existing org.slug (some (draws.uuid s)) guc v ≡ (ok u, t)
      → Upserted org settings u t
  unfolding org_row
  created-ok org settings u s v t free fresh now h =
      let (new, same) = pure-ok _ u guc v t h in
      let row = org_row pg files draws org settings s in
      let id : u.id ≡ draws.uuid s = ap (λ (x : OrgUpsert). x.id) (sym new) in
      let found : org_id_of_slug org.slug (record s { orgs = s.orgs ++ row ∷ [] })
          ≡ some (draws.uuid s) =
        rw (filter_nothing (λ o. o.slug == org.slug) s.orgs (row ∷ []) free)
          (rw (eq_refl org.slug) refl) in
      subst (λ (d : Database). Upserted org settings u d) (sym now ∙ same)
        (rw id (found, λ new'. inserted_filled org settings s fresh))

  pub upsert_org-ok :
      (org : OrgSeed) (settings : OrgSettings) (u : OrgUpsert) (s t : Database)
      → upsert_org pg files draws org settings guc s ≡ (ok u, t)
      → Upserted org settings u t
  unfolding upsert_org insert_org org_row
  upsert_org-ok org settings u s t h =
      let (o, v, done, rest) = bind-ok _ _ guc s t u h in
      elim (insert_unless-ok _ _ _ s _ v guc o done) [
        | inl (conflict, nothing, same) ↦ existing-ok org settings u v t (rw nothing at rest)
        | inr (free, fine, given, now) ↦
            created-ok org settings u s v t free (primary-free _ _ fine) now (rw given at rest)
      ]

  filled_after :
      (id : String) (v : Json) (xs : List Org)
      → objects_only xs ≡ true
      → any
          (lacks_key id descriptions_key)
          (update_where (lacks_key id descriptions_key) (add_key descriptions_key v) xs)
        ≡ false
  filled_after id v [] h = refl
  filled_after id v (x ∷ xs) h = ground (arith, h, has_key_after x.settings v, filled_after id v xs)

  pub backfill-ok :
      (settings : OrgSettings) (u : OrgUpsert) (b : Bool) (s t : Database)
      → (u.inserted ≡ true → NeedsNothing settings u.id s)
      → has_org u.id s ≡ true
      → objects_only s.orgs ≡ true
      → backfill pg files draws u settings guc s ≡ (ok b, t)
      → NeedsNothing settings u.id t
  unfolding backfill backfill_settings_key update_settings
  backfill-ok settings u b s t new there objects h = elim (Bool-cases u.inserted) [
    | inl inserted ↦
        let (value, same) = pure-ok false b guc s t (rw inserted at h) in
        subst (λ (d : Database). NeedsNothing settings u.id d) same (new inserted)
    | inr old ↦ elim (Option-cases (descriptions_json settings.category_descriptions)) [
      | inl undescribed ↦ inl undescribed
      | inr (v, described) ↦
          let (ids, w, done, rest) = bind-ok _ _ guc s t b (rw described at (rw old at h)) in
          let (value, same) = pure-ok _ b guc w t rest in
          let written : record s {
            orgs =
                update_where (lacks_key u.id descriptions_key) (add_key descriptions_key v) s.orgs;
          }
              ≡ t =
            cc (done, same) in
          let orgs : update_where (lacks_key u.id descriptions_key) (add_key descriptions_key v)
                s.orgs
              ≡ t.orgs =
            ap (λ (d : Database). d.orgs) written in
          inr (
            subst
              (λ (os : List Org).
                (any (λ o. o.id == u.id) os ≡ true)
                × (any (lacks_key u.id descriptions_key) os ≡ false))
              orgs
              (
                any-update_where (λ (x : Org). x.id == u.id) (lacks_key u.id descriptions_key)
                      (add_key descriptions_key v) s.orgs (λ x. refl)
                    ∙ there,
                filled_after u.id v s.orgs objects,
              ))
    ]
  ]
