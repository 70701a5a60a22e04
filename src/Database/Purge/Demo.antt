-- ===== src/Database/Purge/Demo.antt =====
-- The purge of every demo org: what is gone afterwards and what is left alone.
use frontdesk_intake.Prelude.{
  inr, inl, Bool-cases, ℕ, ◌+◌, ◌<◌, ◌≤◌, Bool, ◌&&◌, ◌||◌, not, some, List, [], ◌∷◌, ◌≡◌, refl,
  sym, ap, ◌∙◌, any, length, filter, delete_where, arith,
}
use frontdesk_intake.Database.Rows.{Database, Org as OrgRow, Request}
use frontdesk_intake.Database.Tx.{ok}
use frontdesk_intake.Database.Statements.{select_orgs}
use frontdesk_intake.Database.Order.{Postgres, count}
use frontdesk_intake.Database.Purge.{
  is_stale, purge_orgs, purge_demo_orgs, PurgeOrgResult, PurgeOptions, batch_size_of,
}
use frontdesk_intake.Database.Purge.Batch.{DistinctIds, DistinctIds-filter, Within, any-filter}
use frontdesk_intake.Database.Purge.Loop.{purge_org_requests-eq}
use frontdesk_intake.Database.Purge.Without.{without, without-Within, without-without, without_none}

-- One unbounded DELETE for each org in turn, and the rows that each deletes.
abbrev pub purge_each : ℕ → List OrgRow → Database → Database
purge_each cutoff [] s = s
purge_each cutoff (org ∷ orgs) s = purge_each cutoff orgs (without (is_stale org.id cutoff) s)

abbrev pub results_each : ℕ → List OrgRow → Database → List PurgeOrgResult
results_each cutoff [] s = []
results_each cutoff (org ∷ orgs) s =
    record {
      org_id = org.id;
      org_slug = org.slug;
      deleted_count = count (is_stale org.id cutoff) s.requests;
    }
    ∷ results_each cutoff orgs (without (is_stale org.id cutoff) s)

count-le_length : {A : Type 0} (p : A → Bool) (xs : List A) → count p xs ≤ length xs
count-le_length p [] = omega arith
count-le_length p (x ∷ xs) = ground (arith, count-le_length p xs)

length-filter_le : {A : Type 0} (p : A → Bool) (xs : List A) → length (filter p xs) ≤ length xs
length-filter_le p [] = omega arith
length-filter_le p (x ∷ xs) = ground (arith, length-filter_le p xs)

module _ (pg : Postgres) (fuel cutoff batch_size : ℕ) (positive : 0 < batch_size) where
  purge_orgs-eq :
      (orgs : List OrgRow) (s : Database)
      → DistinctIds (λ (r : Request). r.id) s.requests
      → length s.requests < fuel
      → purge_orgs pg fuel cutoff batch_size orgs s
        ≡ some (ok (results_each cutoff orgs s), purge_each cutoff orgs s)
  unfolding purge_orgs
  purge_orgs-eq [] s distinct enough = refl
  purge_orgs-eq (org ∷ orgs) s distinct enough =
      rw
        (
          purge_orgs,
          purge_org_requests-eq pg org.id cutoff batch_size fuel 0 s positive distinct
              (omega (arith, enough, count-le_length (is_stale org.id cutoff) s.requests)),
        )
        (rw
          (purge_orgs-eq orgs (without (is_stale org.id cutoff) s)
            (DistinctIds-filter (λ (r : Request). r.id) (λ r. not (is_stale org.id cutoff r))
              s.requests distinct)
            (omega
              (arith, enough, length-filter_le (λ r. not (is_stale org.id cutoff r)) s.requests)))
          (let none_before : 0 + count (is_stale org.id cutoff) s.requests
                ≡ count (is_stale org.id cutoff) s.requests =
              omega arith in
            rw none_before refl))

-- some org of the list has the row as a stale one
abbrev pub stale_in : ℕ → List OrgRow → Request → Bool
stale_in cutoff orgs r = any (λ g. is_stale g.id cutoff r) orgs

Within-or : {A : Type 0} (p q : A → Bool) (xs : List A) → Within p (λ x. p x || q x) xs
Within-or p q [] = tt
Within-or p q (x ∷ xs) = ((λ h. ground arith), Within-or p q xs)

Within-right : {A : Type 0} (p q : A → Bool) (xs : List A) → Within q (λ x. p x || q x) xs
Within-right p q [] = tt
Within-right p q (x ∷ xs) = ((λ h. ground arith), Within-right p q xs)

or-Within :
    {A : Type 0} (p q : A → Bool) (xs : List A) → Within (λ x. p x || q x) q (delete_where p xs)
or-Within p q [] = tt
or-Within p q (x ∷ xs) = elim (Bool-cases (p x)) [
  | inl gone ↦ rw gone (or-Within p q xs)
  | inr kept ↦ rw kept ((λ h. ground (arith, h, kept)), or-Within p q xs)
]

-- Orgs purged one after the other are purged at once.
purge_each-eq :
    (cutoff : ℕ) (orgs : List OrgRow) (s : Database)
    → purge_each cutoff orgs s ≡ without (stale_in cutoff orgs) s
purge_each-eq cutoff [] s = sym (without_none (stale_in cutoff []) s (λ r. refl))
purge_each-eq cutoff (org ∷ orgs) s =
    let p = is_stale org.id cutoff in
    let q = stale_in cutoff orgs in
    purge_each-eq cutoff orgs (without p s)
    ∙ without-Within q (λ r. p r || q r) (without p s)
        (Within-right p q (delete_where p s.requests)) (or-Within p q s.requests)
    ∙ without-without p (λ r. p r || q r) s (Within-or p q s.requests)

any-filter_orgs :
    (cutoff : ℕ) (orgs : List OrgRow) (r : Request)
    → stale_in cutoff (filter (λ o. o.is_demo) orgs) r
      ≡ any (λ o. o.is_demo && is_stale o.id cutoff r) orgs
any-filter_orgs cutoff orgs r = any-filter (λ o. is_stale o.id cutoff r) (λ o. o.is_demo) orgs

-- With a positive batch size and distinct request ids, the purge ends within one round more than
-- there are requests for each org, without an error. The tables are then those of one DELETE of the
-- requests older than the cutoff whose org is a demo org, with their drafts and actions; the counts
-- are those of one DELETE for each demo org in turn.
pub purge_demo_orgs-eq :
    (pg : Postgres) (fuel : ℕ) (options : PurgeOptions) (s : Database)
    → 0 < batch_size_of options
    → DistinctIds (λ (r : Request). r.id) s.requests
    → length s.requests < fuel
    → purge_demo_orgs pg fuel options s
      ≡ some (
        ok (results_each options.cutoff (select_orgs (λ o. o.is_demo) s) s),
        without (λ r. any (λ o. o.is_demo && is_stale o.id options.cutoff r) s.orgs) s,
      )
unfolding purge_demo_orgs select_orgs
purge_demo_orgs-eq pg fuel options s positive distinct enough =
    let demo = filter (λ (o : OrgRow). o.is_demo) s.orgs in
    let whole = any-filter_orgs options.cutoff s.orgs in
    purge_orgs-eq pg fuel options.cutoff (batch_size_of options) positive demo s distinct enough
    ∙ ap (λ t. some (ok (results_each options.cutoff demo s), t))
        (purge_each-eq options.cutoff demo s ∙ (λ i. without (λ r. whole r i) s))
