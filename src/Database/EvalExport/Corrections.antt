-- ===== src/Database/EvalExport/Corrections.antt =====
-- What staff write is what the export offers: from a staff edit to its candidate.
use frontdesk_intake.Prelude.{
  String, Bool, true, false, ◌&&◌, ◌||◌, Option, none, some, List, [], ◌∷◌, ◌++◌, ◌==◌, ◌≡◌, refl,
  sym, ap, subst, ◌∙◌, filter, filter-append, filter-filter, filter-congr, first-filter, map, any,
  any-append, first, arith, eq_refl,
}
use frontdesk_intake.Database.Enums.{edit}
use frontdesk_intake.Database.Rows.{Database, Request, Draft, Action}
use frontdesk_intake.Database.Tx.{ok, pure, ◌>>=◌, Supply}
use frontdesk_intake.Database.Statements.{select_drafts, apply_set}
use frontdesk_intake.Database.Order.{Postgres, any-order_by}
use frontdesk_intake.Database.Client.{for_org}
use frontdesk_intake.Database.Purge.Batch.{any-filter}
use frontdesk_intake.Database.EvalExport.{
  CandidateExample, candidate, joined, joins, exported_of, draft_rows, select_joined, export_tx,
  export_candidates, oldest_first, snapshot_reply, snapshot_field,
}
use frontdesk_intake.Json.{get_field}
use frontdesk_intake.Web.Form.{FormData, string_field}
use frontdesk_intake.Web.Guard.{AuthenticatedMembership}
use frontdesk_intake.Web.Staff.{Navigation, is_request}
use frontdesk_intake.Database.Snapshot.{snapshot_json}
use frontdesk_intake.Database.Snapshot.{ActionSnapshot}
use frontdesk_intake.Web.Staff.Calls.{edit_call, call}
use frontdesk_intake.Web.Staff.Isolation.{caller}
use frontdesk_intake.Web.Staff.Reads.{request_in}
use frontdesk_intake.Web.Staff.Effects.{request_in-set, approved_with, audit_row}
use frontdesk_intake.Web.Staff.Success.{edit_approve_request_action-ok}

module _ {A B : Type 0} where
  any-map : (p : B → Bool) (f : A → B) (xs : List A) → any p (map f xs) ≡ any (λ x. p (f x)) xs
  any-map p f [] = refl
  any-map p f (x ∷ xs) = ground (arith, any-map p f xs)

any-first :
    {A : Type 0} (p : A → Bool) (xs : List A) (x : A)
    → first xs ≡ some x
    → p x ≡ true
    → any p xs ≡ true
any-first p [] x h k = absurd (cc (h))
any-first p (y ∷ xs) x h k = let same : y ≡ x = ground (arith, h) in rw same (rw k refl)

-- the rows of the last action are among the joined rows
any-joined :
    (p : Action × Request → Bool) (xs : List Action) (e : Action) (rs : List Request)
    → any (λ r. p (e, r)) (filter (joins e) rs) ≡ true
    → any p (joined (xs ++ e ∷ []) rs) ≡ true
any-joined p [] e rs h =
    any-append p (map (λ r. (e, r)) (filter (joins e) rs)) []
    ∙ ap (λ b. b || false) (any-map p (λ r. (e, r)) (filter (joins e) rs) ∙ h)
any-joined p (x ∷ xs) e rs h =
    any-append p (map (λ r. (x, r)) (filter (joins x) rs)) (joined (xs ++ e ∷ []) rs)
    ∙ rw (any-joined p xs e rs h) (or_true (any p (map (λ r. (x, r)) (filter (joins x) rs))))
  where
    or_true : (b : Bool) → (b || true) ≡ true
    or_true true = refl
    or_true false = refl

module _ (pg : Postgres) (uuid_le : String → String → Bool) (o : String) where
  abbrev exported_rows : Database → List (Action × Request)
  exported_rows t = pg.order_by (oldest_first pg uuid_le) (
      filter (exported_of o)
        (joined (filter (λ a. a.org_id == o) t.actions) (filter (λ r. r.org_id == o) t.requests)))

  draft_rows-ok :
      (rows : List (Action × Request)) (t : Database)
      → (ds : List Draft) × (draft_rows o rows (some o) t ≡ (ok ds, t))
  unfolding draft_rows select_drafts pure
  draft_rows-ok [] t = (_, refl)
  draft_rows-ok (x ∷ xs) t = (_, refl)

  export_candidates-eq :
      (t : Database)
      → (ds : List Draft) × (export_candidates pg uuid_le o t
          ≡ ok (map (candidate ds) (exported_rows t)))
  unfolding export_candidates for_org export_tx select_joined ◌>>=◌ pure
  export_candidates-eq t =
      let (ds, done) = draft_rows-ok (exported_rows t) t in (ds, rw (done, export_candidates) refl)

  -- An exported action on a request of the org gives a candidate.
  export_candidates-any :
      (q : CandidateExample → Bool) (t : Database) (before : List Action) (e : Action) (r : Request)
      → t.actions ≡ before ++ e ∷ []
      → request_in o e.request_id t ≡ some r
      → e.org_id ≡ o
      → exported_of o (e, r) ≡ true
      → ((ds : List Draft) → q (candidate ds (e, r)) ≡ true)
      → (cs : List CandidateExample) × (export_candidates pg uuid_le o t ≡ ok cs)
        × (any q cs ≡ true)
  export_candidates-any q t before e r logged here own exported good =
      let (ds, done) = export_candidates-eq t in
      (
        _,
        done,
        any-map q (candidate ds) (exported_rows t)
            ∙ any-order_by pg (oldest_first pg uuid_le) _ (λ x. q (candidate ds x))
            ∙ any-filter (λ x. q (candidate ds x)) (exported_of o) _
            ∙ found_row ds,
      )
    where
      found_row :
          (ds : List Draft)
          → any
              (λ x. exported_of o x && q (candidate ds x))
              (joined
                (filter (λ a. a.org_id == o) t.actions)
                (filter (λ r. r.org_id == o) t.requests))
            ≡ true
      found_row ds =
          let p : Action × Request → Bool = (λ x. exported_of o x && q (candidate ds x)) in
          let mine : filter (λ (a : Action). a.org_id == o) t.actions
              ≡ filter (λ a. a.org_id == o) before ++ e ∷ [] =
            ap (filter (λ (a : Action). a.org_id == o)) logged
            ∙ filter-append (λ (a : Action). a.org_id == o) before (e ∷ [])
            ∙ rw own (rw (eq_refl o) refl) in
          let matching : filter (joins e) (filter (λ r. r.org_id == o) t.requests)
              ≡ filter (is_request o e.request_id) t.requests =
            filter-filter (joins e) (λ r. r.org_id == o) t.requests
            ∙ filter-congr _ (is_request o e.request_id) t.requests (λ r. rw own (ground arith)) in
          subst
            (λ (xs : List Action).
              any p (joined xs (filter (λ r. r.org_id == o) t.requests)) ≡ true)
            (sym mine)
            (any-joined p (filter (λ a. a.org_id == o) before) e
              (filter (λ r. r.org_id == o) t.requests)
              (subst (λ (xs : List Request). any (λ r. p (e, r)) xs ≡ true) (sym matching)
                (any-first (λ r. p (e, r)) (filter (is_request o e.request_id) t.requests) r here
                  (rw exported (good ds)))))

abbrev says : String → Option String → Bool
says body none = false
says body (some text) = text == body

-- The candidate tells that `m` edited the request, by the action `action_id`, to say `body`.
abbrev pub is_correction :
    AuthenticatedMembership → String → String → String → CandidateExample → Bool
is_correction m action_id request_id body c =
    c.provenance.action_id == action_id
    && (c.provenance.request_id == request_id
        && (c.provenance.actor == m.email && says body c.provenance.human_reply))

row_is_correction :
    (supply : Supply) (m : AuthenticatedMembership) (o id body : String)
    (before after : ActionSnapshot) (r : Request)
    → after.reply_text ≡ some body
    → is_request o id r ≡ true
    → (ds : List Draft)
    → is_correction m
        (supply.uuid 0)
        id
        body
        (candidate ds (audit_row supply m o id edit before after none, r))
      ≡ true
unfolding candidate snapshot_reply snapshot_field snapshot_json get_field
row_is_correction supply m o id body before after r text same ds =
    rw text (ground (arith, same, eq_refl (supply.uuid 0), eq_refl m.email, eq_refl body))

module _ (pg : Postgres) (uuid_le : String → String → Bool) (supply : Supply)
    (session : Option String) (id : String) (form : FormData) (s t : Database)
    (nav : Navigation) where
  -- After a staff edit that succeeded, the export of the member's org has a candidate of that action
  -- which says who edited which request, and carries the text that staff sent.
  pub export_candidates-edited :
      call pg (edit_call supply session id form) s ≡ (ok nav, t)
      → (m : AuthenticatedMembership) × (caller pg (edit_call supply session id form) s ≡ ok m)
        × (cs : List CandidateExample) × (export_candidates pg uuid_le m.org_id t ≡ ok cs)
        × (any (is_correction m (supply.uuid 0) id (string_field form "body")) cs ≡ true)
  unfolding call caller
  export_candidates-edited h =
      let body = string_field form "body" in
      let (m, is_member, given, done) =
        edit_approve_request_action-ok pg supply session id s t nav form h in
      let here =
        ap (λ (d : Database). first (filter (is_request m.org_id id) d.requests)) done.tables
        ∙ request_in-set m.org_id id (approved_with supply body) s done.found in
      let r = apply_set (approved_with supply body) done.request in
      let (cs, exported, listed) =
        export_candidates-any pg uuid_le m.org_id (is_correction m (supply.uuid 0) id body) t
          s.actions _ r (ap (λ (d : Database). d.actions) done.tables) here refl
          (rw (eq_refl m.org_id) refl)
          (row_is_correction supply m m.org_id id body _ _ r refl
            (first-filter (is_request m.org_id id) s.requests done.found)) in
      (m, is_member, cs, exported, listed)
