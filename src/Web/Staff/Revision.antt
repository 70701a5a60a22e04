-- ===== src/Web/Staff/Revision.antt =====
-- An edit of an open request succeeds, and its draft is the current one afterwards.
use frontdesk_intake.Prelude.{
  take, first, ◌≢◌, subst, any-append, ◌||◌, any-eq_filter, ℕ, String, Bool, true, false, not, ◌&&◌,
  none, some, List, [], ◌∷◌, ◌++◌, ◌≡◌, refl, sym, ◌∙◌, ◌==◌, eq_iff, eq_refl, any, filter,
  filter-append, leb, if◌then◌else◌, arith, Bool-cases, inl, inr, ◌+◌,
}
use frontdesk_intake.Database.Rows.{Database, Request, Draft}
use frontdesk_intake.Database.Tx.{Supply, ok}
use frontdesk_intake.Database.Statements.{insert_draft, draft_refusal}
use frontdesk_intake.Database.Order.{
  limit_one-none, any_of_not_all, Postgres, limit_one-least, limit_one-any,
}
use frontdesk_intake.Web.Guard.{AuthenticatedMembership}
use frontdesk_intake.Web.Staff.{edit, is_draft_of, is_request, is_resolved, version_desc, edit_tx}
use frontdesk_intake.Web.Staff.Reads.{request_in, latest_in}
use frontdesk_intake.Web.Staff.Effects.{
  insert_action-accepted, has_request-set, approved_with, resolved_tables, snapshot_of,
}
use frontdesk_intake.Web.Staff.Edit.{
  edited_draft, edited_version, edited_snapshot, with_draft, edit_tx-eq,
}
use frontdesk_intake.Web.Staff.Versions.{
  version_desc-IsOrder, next_version-AllBelow, AllBelow, fresh_version,
}

module _ (pg : Postgres) (supply : Supply) (m : AuthenticatedMembership) (o id body : String)
    (s : Database) where
  edited_draft-accepted :
      {r : Request}
      → request_in o id s ≡ some r
      → any (λ d. d.id == supply.uuid 1) s.drafts ≡ false
      → insert_draft (edited_draft pg supply m o id body s) (some o) s
        ≡ (ok tt, with_draft pg supply m o id body s)
  unfolding insert_draft draft_refusal
  edited_draft-accepted found fresh = ground (
    arith,
    eq_refl o,
    fresh_version o id (edited_draft pg supply m o id body s) s.drafts refl refl
        (next_version-AllBelow pg o id s),
    any-eq_filter (is_request o id) s.requests found,
  )

  -- An edit succeeds whenever the request is open and the two identifiers are new: the version that
  -- it gives its draft is never taken.
  pub edit_tx-succeeds :
      (r : Request)
      → request_in o id s ≡ some r
      → is_resolved r.status ≡ false
      → any (λ d. d.id == supply.uuid 1) s.drafts ≡ false
      → any (λ a. a.id == supply.uuid 0) s.actions ≡ false
      → edit_tx pg supply m id body o (some o) s ≡ (
        ok tt,
        resolved_tables supply m o id
            (approved_with supply body)
            edit
            (snapshot_of r (latest_in pg o id s))
            (edited_snapshot pg supply m o id body s)
            none
            (with_draft pg supply m o id body s),
      )
  edit_tx-succeeds r found unresolved new_draft new_action =
      edit_tx-eq pg supply m o id body s r found unresolved (edited_draft-accepted found new_draft)
      ∙ insert_action-accepted _ _ new_action
          (has_request-set o id (approved_with supply body) s found)

  abbrev later : Draft → List Draft
  later d = filter (is_draft_of o id) (s.drafts ++ d ∷ [])

  all_below :
      (rows : List Draft) (v : ℕ)
      → AllBelow o id v rows
      → any (λ d. leb v d.version) (filter (is_draft_of o id) rows) ≡ false
  all_below [] v h = refl
  all_below (d ∷ rows) v h = ground (arith, all_below rows v)

  any-later :
      (p : Draft → Bool)
      → any p (later (edited_draft pg supply m o id body s))
        ≡ (any p (filter (is_draft_of o id) s.drafts) || p (edited_draft pg supply m o id body s))
  any-later p =
      rw (filter-append (is_draft_of o id) s.drafts (edited_draft pg supply m o id body s ∷ [])) (
        ground (
          arith,
          eq_refl o,
          eq_refl id,
          any-append p (filter (is_draft_of o id) s.drafts)
              (edited_draft pg supply m o id body s ∷ []),
        ))

  any_imp :
      (p q : Draft → Bool) (rows : List Draft)
      → ((d : Draft) → p d ≡ true → q d ≡ true)
      → any q rows ≡ false
      → any p rows ≡ false
  any_imp p q [] h k = refl
  any_imp p q (d ∷ rows) h k = ground (arith, h d, any_imp p q rows h)

  module _ (d : Draft)
      (latest : latest_in pg o id (with_draft pg supply m o id body s) ≡ some d) where
    not_below :
        any
          (λ x. leb (edited_version pg supply m o id body s) x.version)
          (filter (is_draft_of o id) s.drafts)
        ≡ false
    not_below = all_below s.drafts _ (next_version-AllBelow pg o id s)

    passes :
        (p : Draft → Bool)
        → p d ≡ true
        → (any p (filter (is_draft_of o id) s.drafts) || p (edited_draft pg supply m o id body s))
          ≡ true
    passes p h =
        sym (any-later p)
        ∙ limit_one-any pg version_desc version_desc-IsOrder
            (later (edited_draft pg supply m o id body s)) p latest h

    edited_is_seen : leb (edited_version pg supply m o id body s) d.version ≡ true
    edited_is_seen = ground (
      arith,
      any-later (λ x. not (leb x.version d.version)),
      any_of_not_all (λ x. leb x.version d.version) (later (edited_draft pg supply m o id body s))
          (limit_one-least pg version_desc version_desc-IsOrder
            (later (edited_draft pg supply m o id body s)) latest),
      any-later (λ x. if leb x.version d.version then false else true),
    )

    -- No older draft passes a test that asks for at least the edited version.
    body_is_edited : d.body ≡ body
    body_is_edited = elim (Bool-cases (d.body == body)) [
      | inl same ↦ (eq_iff d.body body).0 same
      | inr other ↦
          let p : Draft → Bool =
            λ x. leb (edited_version pg supply m o id body s) x.version && not (x.body == body) in
          ground (
            arith,
            any_imp p (λ x. leb (edited_version pg supply m o id body s) x.version)
                (filter (is_draft_of o id) s.drafts) (λ x h. ground arith) not_below,
            passes p (ground (arith, edited_is_seen)),
            eq_refl body,
          )
    ]

    version_is_edited : d.version ≡ edited_version pg supply m o id body s
    version_is_edited =
        let p : Draft → Bool = λ x. leb (edited_version pg supply m o id body s + 1) x.version in
        ground (
          arith,
          any_imp p (λ x. leb (edited_version pg supply m o id body s) x.version)
              (filter (is_draft_of o id) s.drafts) (λ x h. ground arith) not_below,
          passes p,
          edited_is_seen,
        )

  -- After an edit the current draft of the request is the one that staff wrote, whatever order the
  -- database gives to drafts of one version.
  pub latest_in-edited :
      (d : Draft) (t : Database)
      → t.drafts ≡ s.drafts ++ edited_draft pg supply m o id body s ∷ []
      → latest_in pg o id t ≡ some d
      → (d.body ≡ body) × (d.version ≡ edited_version pg supply m o id body s)
  latest_in-edited d t drafts latest =
      let seen : latest_in pg o id (with_draft pg supply m o id body s) ≡ some d =
        subst
          (λ rows.
            first (take 1 (pg.order_by version_desc (filter (is_draft_of o id) rows))) ≡ some d)
          drafts latest in
      (body_is_edited d seen, version_is_edited d seen)

  pub latest_in-ne-none :
      (t : Database)
      → t.drafts ≡ s.drafts ++ edited_draft pg supply m o id body s ∷ []
      → latest_in pg o id t ≢ none
  latest_in-ne-none t drafts missing =
      let seen : latest_in pg o id (with_draft pg supply m o id body s) ≡ none =
        subst
          (λ rows.
            first (take 1 (pg.order_by version_desc (filter (is_draft_of o id) rows))) ≡ none)
          drafts missing in
      ground (
        arith,
        any-later (λ x. true),
        limit_one-none pg version_desc version_desc-IsOrder
            (later (edited_draft pg supply m o id body s)) (λ x. true) seen,
      )
