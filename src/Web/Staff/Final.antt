-- ===== src/Web/Staff/Final.antt =====
-- "approved" and "rejected" are terminal: no staff call changes a request that is in one of them.
use frontdesk_intake.Prelude.{
  String, true, false, ◌&&◌, some, List, [], ◌∷◌, ◌≡◌, refl, ap, subst, ◌∙◌, ◌==◌, eq_iff, first,
  arith, Bool-cases, inl, inr,
}
use frontdesk_intake.Database.Rows.{Database, Request}
use frontdesk_intake.Database.Tx.{Tx, Outcome, ok, err, thrown, Supply, settle, ◌>>=◌}
use frontdesk_intake.Database.Order.{Postgres}
use frontdesk_intake.Database.Client.{for_org}
use frontdesk_intake.Database.Keeps.{Keeps}
use frontdesk_intake.Web.Guard.{AuthenticatedMembership}
use frontdesk_intake.Web.Form.{string_field}
use frontdesk_intake.Web.Staff.{
  assert_not_resolved, approve_tx, edit_tx, reject_tx, in_org, is_resolved, already_resolved,
  approve_request_action, edit_approve_request_action, reject_request_action,
}
use frontdesk_intake.Web.Staff.Calls.{
  StaffCall, approve_call, edit_call, reject_call, call, call_all,
}
use frontdesk_intake.Web.Staff.Reads.{request_in, load_current_state-eq}
use frontdesk_intake.Web.Staff.Isolation.{finish_state}
use frontdesk_intake.Web.Staff.Leaves.{
  SameRequest, approve_tx-Leaves, edit_tx-Leaves, reject_tx-Leaves,
}

-- A transaction on the request `i` of `o` that changes no other request, and none that is resolved.
pub record RefusesResolved (o i : String) (m : Tx (Unit {0})) : Type 0 where
  pub leaves :
      (org_id id : String)
      → (o == org_id && i == id) ≡ false
      → Keeps (some o) (SameRequest org_id id) m
  pub refuses :
      (s : Database) (r : Request)
      → request_in o i s ≡ some r
      → is_resolved r.status ≡ true
      → m (some o) s ≡ (err (thrown (already_resolved r.status)), s)

module _ (pg : Postgres) (supply : Supply) (m : AuthenticatedMembership) (o i : String) where
  pub approve_tx-RefusesResolved : RefusesResolved o i (approve_tx pg supply m i o)
  unfolding approve_tx assert_not_resolved ◌>>=◌
  approve_tx-RefusesResolved = record {
    leaves = λ org_id id apart. approve_tx-Leaves org_id id o i apart pg supply m;
    refuses = λ s r found resolved.
        rw (load_current_state-eq pg supply o i s) (rw found (rw resolved refl));
  }

  pub edit_tx-RefusesResolved : (body : String) → RefusesResolved o i (edit_tx pg supply m i body o)
  unfolding edit_tx assert_not_resolved ◌>>=◌
  edit_tx-RefusesResolved body = record {
    leaves = λ org_id id apart. edit_tx-Leaves org_id id o i apart pg supply m body;
    refuses = λ s r found resolved.
        rw (load_current_state-eq pg supply o i s) (rw found (rw resolved refl));
  }

  pub reject_tx-RefusesResolved :
      (reason : String) → RefusesResolved o i (reject_tx pg supply m i reason o)
  unfolding reject_tx assert_not_resolved ◌>>=◌
  reject_tx-RefusesResolved reason = record {
    leaves = λ org_id id apart. reject_tx-Leaves org_id id o i apart pg supply m reason;
    refuses = λ s r found resolved.
        rw (load_current_state-eq pg supply o i s) (rw found (rw resolved refl));
  }

module _ (pg : Postgres) (supply : Supply) (i : String)
    (fn : AuthenticatedMembership → String → Tx (Unit {0}))
    (final : (m : AuthenticatedMembership) (o : String) → RefusesResolved o i (fn m o))
    (org_id id : String) (s : Database) (r : Request) (found : request_in org_id id s ≡ some r)
    (resolved : is_resolved r.status ≡ true) where
  settle-SameRequest :
      {A : Type 0} (t : Outcome A × Database)
      → SameRequest org_id id s t.1
      → SameRequest org_id id s (settle s t).1
  settle-SameRequest (ok a, t) h = h
  settle-SameRequest (err e, t) h = refl

  for_org-SameRequest :
      (m : AuthenticatedMembership) (o : String) → SameRequest org_id id s (for_org o (fn m) s).1
  unfolding for_org
  for_org-SameRequest m o = elim (Bool-cases (o == org_id && i == id)) [
    | inl same ↦
        let same_org : org_id ≡ o = ground (arith, eq_iff o org_id) in
        let same_id : id ≡ i = ground (arith, eq_iff i id, eq_iff o org_id) in
        rw
          ((final m o).refuses s r
            (subst (λ x. request_in x i s ≡ some r) same_org
              (subst (λ x. request_in org_id x s ≡ some r) same_id found))
            resolved)
          refl
    | inr apart ↦ settle-SameRequest (fn m o (some o) s) (((final m o).leaves org_id id apart).at s)
  ]

  in_org-SameRequest :
      (caller : Outcome AuthenticatedMembership)
      → SameRequest org_id id s (in_org pg supply caller i fn s).1
  in_org-SameRequest (err e) = refl
  in_org-SameRequest (ok m) =
      rw (finish_state i (for_org m.org_id (fn m) s)) (for_org-SameRequest m m.org_id)

module _ (pg : Postgres) (org_id id : String) where
  -- the request is there, and it is approved or rejected
  abbrev pub IsResolvedIn : Database → Type 0
  IsResolvedIn s = (r : Request) × (request_in org_id id s ≡ some r) × (is_resolved r.status ≡ true)

  call-final :
      (c : StaffCall) (s : Database) → IsResolvedIn s → SameRequest org_id id s (call pg c s).1
  unfolding call approve_request_action edit_approve_request_action reject_request_action
  call-final (approve_call supply session i) s (r, found, resolved) =
      in_org-SameRequest pg supply i _ (λ m o. approve_tx-RefusesResolved pg supply m o i) org_id id
        s r found resolved _
  call-final (edit_call supply session i form) s (r, found, resolved) =
      in_org-SameRequest pg supply i _
        (λ m o. edit_tx-RefusesResolved pg supply m o i (string_field form "body")) org_id id s r
        found resolved _
  call-final (reject_call supply session i form) s (r, found, resolved) =
      in_org-SameRequest pg supply i _
        (λ m o. reject_tx-RefusesResolved pg supply m o i (string_field form "reason")) org_id id s
        r found resolved _

  -- Once a request is approved or rejected, whatever staff of any org do afterwards, one call after
  -- the other, leaves its row as it is: the status, the published reply and every other column.
  pub call_all-final :
      (cs : List StaffCall) (s : Database)
      → IsResolvedIn s
      → SameRequest org_id id s (call_all pg cs s)
  unfolding call_all
  call_all-final [] s h = refl
  call_all-final (c ∷ cs) s (r, found, resolved) =
      let step = call-final c s (r, found, resolved) in
      call_all-final cs (call pg c s).1 (r, ap first step ∙ found, resolved) ∙ step
