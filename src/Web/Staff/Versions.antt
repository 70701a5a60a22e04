-- ===== src/Web/Staff/Versions.antt =====
-- Versions of drafts: an edit authors the next version, which is new and becomes the current draft.
use frontdesk_intake.Prelude.{
  ◌+◌, ℕ, String, true, false, List, [], ◌∷◌, ◌≡◌, refl, any, all, filter, leb, if◌then◌else◌,
  arith, Option-cases, inl, inr,
}
use frontdesk_intake.Database.Rows.{Database, Draft}
use frontdesk_intake.Database.Statements.{same_version}
use frontdesk_intake.Database.Order.{Postgres, IsOrder, limit_one-least, limit_one-none}
use frontdesk_intake.Web.Staff.{is_draft_of, version_desc, version_of, next_version}
use frontdesk_intake.Web.Staff.Reads.{latest_in}

pub version_desc-IsOrder : IsOrder version_desc
version_desc-IsOrder = record { total = λ x y. ground arith; trans = λ x y z h k. ground arith }

-- every draft of the request has a version below `v`
abbrev pub AllBelow : String → String → ℕ → List Draft → Type 0
AllBelow o id v rows =
    all (λ d. if is_draft_of o id d then leb (d.version + 1) v else true) rows ≡ true

AllBelow-least :
    (o id : String) (n : ℕ) (rows : List Draft)
    → all (λ d. leb d.version n) (filter (is_draft_of o id) rows) ≡ true
    → AllBelow o id (n + 1) rows
AllBelow-least o id n [] h = refl
AllBelow-least o id n (d ∷ rows) h = ground (arith, AllBelow-least o id n rows)

AllBelow-none :
    (o id : String) (v : ℕ) (rows : List Draft)
    → any (λ d. true) (filter (is_draft_of o id) rows) ≡ false
    → AllBelow o id v rows
AllBelow-none o id v [] h = refl
AllBelow-none o id v (d ∷ rows) h = ground (arith, AllBelow-none o id v rows)

pub fresh_version :
    (o id : String) (row : Draft) (rows : List Draft)
    → row.org_id ≡ o
    → row.request_id ≡ id
    → AllBelow o id row.version rows
    → any (λ d. same_version d row) rows ≡ false
fresh_version o id row [] ho hi h = refl
fresh_version o id row (d ∷ rows) ho hi h = ground (arith, fresh_version o id row rows ho hi)

module _ (pg : Postgres) (o id : String) (s : Database) where
  -- The version that an edit gives its draft is above that of every draft of the request.
  pub next_version-AllBelow :
      AllBelow o id (next_version (version_of (latest_in pg o id s))) s.drafts
  next_version-AllBelow = elim (Option-cases (latest_in pg o id s)) [
    | inl undrafted ↦ AllBelow-none o id _ s.drafts (
        limit_one-none pg version_desc version_desc-IsOrder (filter (is_draft_of o id) s.drafts)
          (λ d. true) undrafted)
    | inr (d, latest) ↦ rw latest (
        AllBelow-least o id d.version s.drafts (
          limit_one-least pg version_desc version_desc-IsOrder (filter (is_draft_of o id) s.drafts)
            latest))
  ]
