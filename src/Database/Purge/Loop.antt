-- ===== src/Database/Purge/Loop.antt =====
-- One org's purge: its batches together delete what one unbounded DELETE would delete.
use frontdesk_intake.Prelude.{
  ℕ, zero, suc, ◌+◌, ◌<◌, ◌≤◌, String, Bool, true, false, ◌&&◌, not, some, List, [], ◌∷◌, ◌==◌, ◌≡◌,
  refl, sym, ap, ◌∙◌, any, all, length, take, filter, filter-congr, arith, ltb, ltb→lt, Bool-cases,
  inl, inr,
}
use frontdesk_intake.Database.Rows.{Database, Request}
use frontdesk_intake.Database.Tx.{ok, pure, ◌>>=◌}
use frontdesk_intake.Database.Statements.{select_requests, delete_requests}
use frontdesk_intake.Database.Order.{Postgres, count, any-order_by, all-order_by}
use frontdesk_intake.Database.Client.{for_org}
use frontdesk_intake.Database.Purge.{
  is_stale, created_asc, in_batch, delete_batch, purge_batch, purge_org_requests,
}
use frontdesk_intake.Database.Purge.Batch.{
  any-take, count-take, take-short, count-filter, length-filter-count, Within, filter-Within,
  count-delete, DistinctIds, DistinctIds-filter, found_by_id, All-imp, any-filter, all-filter_left,
  all-take, all-both, any_self, Within-self,
}
use frontdesk_intake.Database.Purge.Without.{
  without, without-Within, without-without, without_none, filter_none,
}

module _ (pg : Postgres) (org_id : String) (cutoff batch_size : ℕ) where
  -- the ids that a batch selects
  abbrev selected : Database → List Request
  selected s =
      take batch_size (pg.order_by created_asc (filter (is_stale org_id cutoff) s.requests))

  abbrev deleted : Database → Request → Bool
  deleted s = in_batch org_id (selected s)

  any-selected :
      (e : Request → Bool) (s : Database)
      → any e (selected s) ≡ true
      → any (λ x. is_stale org_id cutoff x && e x) s.requests ≡ true
  any-selected e s h =
      sym (
        any-order_by pg created_asc (filter (is_stale org_id cutoff) s.requests) e
        ∙ any-filter e (is_stale org_id cutoff) s.requests)
      ∙ any-take e batch_size (pg.order_by created_asc (filter (is_stale org_id cutoff) s.requests))
          h

  -- A batch deletes stale requests only.
  deleted-Within :
      (s : Database)
      → DistinctIds (λ (r : Request). r.id) s.requests
      → Within (deleted s) (is_stale org_id cutoff) s.requests
  deleted-Within s distinct =
      All-imp _ (λ (r : Request). deleted s r ≡ true → is_stale org_id cutoff r ≡ true) s.requests
        (λ r f h. f (any-selected (λ x. x.id == r.id) s (ground (arith, h))))
        (found_by_id (λ (r : Request). r.id) (is_stale org_id cutoff) s.requests distinct)

  -- It deletes at least what it selected.
  selected-le_deleted : (s : Database) → length (selected s) ≤ count (deleted s) s.requests
  selected-le_deleted s =
      let stale = filter (is_stale org_id cutoff) s.requests in
      let ours : all (λ r. r.org_id == org_id) stale ≡ true =
        all-filter_left (λ r. r.org_id == org_id) (λ r. ltb r.created_at cutoff) s.requests in
      let picked =
        all-take (λ r. r.org_id == org_id) batch_size (pg.order_by created_asc stale)
          (all-order_by pg created_asc stale (λ r. r.org_id == org_id) ours) in
      let counted =
        all-both (λ r. r.org_id == org_id) (λ r. any (λ x. x.id == r.id) (selected s)) (selected s)
          picked (any_self (λ (r : Request). r.id) (selected s)) in
      omega (
        arith,
        counted,
        count-take (deleted s) batch_size (pg.order_by created_asc stale),
        pg.order_by-count created_asc (deleted s) stale,
        count-filter (deleted s) (is_stale org_id cutoff) s.requests,
      )

  -- A batch that deletes less than its size deletes every stale request.
  Within-deleted :
      (s : Database)
      → count (deleted s) s.requests < batch_size
      → Within (is_stale org_id cutoff) (deleted s) s.requests
  Within-deleted s short =
      let stale = filter (is_stale org_id cutoff) s.requests in
      let whole : selected s ≡ pg.order_by created_asc stale =
        take-short batch_size (pg.order_by created_asc stale)
          (omega (arith, short, selected-le_deleted s)) in
      All-imp _ (λ (r : Request). is_stale org_id cutoff r ≡ true → deleted s r ≡ true) s.requests
        (λ r f h.
          let found : any (λ x. x.id == r.id) (selected s) ≡ true =
            ap (any (λ x. x.id == r.id)) whole
            ∙ (any-order_by pg created_asc stale (λ x. x.id == r.id)
                ∙ any-filter (λ x. x.id == r.id) (is_stale org_id cutoff) s.requests
                ∙ f h) in
          ground (arith, h, found))
        (Within-self (λ (r : Request). r.id) (is_stale org_id cutoff) s.requests)

  -- One DELETE of the org's stale requests.
  abbrev pub purged : Database → Database
  purged s = without (is_stale org_id cutoff) s

  abbrev pub stale_count : Database → ℕ
  stale_count s = count (is_stale org_id cutoff) s.requests

  select_stale :
      (s : Database)
      → select_requests (is_stale org_id cutoff) (some org_id) s
        ≡ (ok (filter (is_stale org_id cutoff) s.requests), s)
  unfolding select_requests
  select_stale s =
      ap (λ (x : List Request). (ok x, s))
        (filter-congr (λ (r : Request). r.org_id == org_id && is_stale org_id cutoff r)
          (is_stale org_id cutoff) s.requests (λ r. ground arith))

  delete_picked :
      (xs : List Request) (s : Database)
      → delete_batch org_id xs (some org_id) s ≡ (
        ok (record {
          selected_count = length xs;
          deleted_count = count (in_batch org_id xs) s.requests;
        }),
        without (in_batch org_id xs) s,
      )
  unfolding delete_batch pure delete_requests ◌>>=◌
  delete_picked [] s =
      let nothing : (r : Request) → in_batch org_id [] r ≡ false = (λ r. ground arith) in
      rw (without_none (in_batch org_id []) s nothing) (
        rw (sym (length-filter-count (in_batch org_id []) s.requests))
          (rw (filter_none (in_batch org_id []) s.requests nothing) refl))
  delete_picked (x ∷ xs) s =
      let p = in_batch org_id (x ∷ xs) in
      let same : (r : Request) → (r.org_id == org_id && p r) ≡ p r = (λ r. ground arith) in
      rw (filter-congr (λ (r : Request). r.org_id == org_id && p r) p s.requests same) (
        rw
          (filter-congr (λ (r : Request). not (r.org_id == org_id && p r)) (λ r. not (p r))
            s.requests (λ r. ap not (same r)))
          (rw (length-filter-count p s.requests) refl))

  batch-eq :
      (s : Database)
      → for_org org_id (purge_batch pg cutoff batch_size) s ≡ (
        ok (record {
          selected_count = length (selected s);
          deleted_count = count (deleted s) s.requests;
        }),
        without (deleted s) s,
      )
  unfolding for_org purge_batch ◌>>=◌
  batch-eq s = rw (select_stale s) (rw (delete_picked (selected s) s) refl)

  -- With a positive batch size and distinct request ids, the loop ends within one round more than
  -- there are stale requests, and what it leaves and counts is what one unbounded DELETE of the
  -- org's stale requests would leave and count.
  pub purge_org_requests-eq :
      (fuel total : ℕ) (s : Database)
      → 0 < batch_size
      → DistinctIds (λ (r : Request). r.id) s.requests
      → stale_count s < fuel
      → purge_org_requests pg fuel org_id cutoff batch_size total s
        ≡ some (ok (total + stale_count s), purged s)
  unfolding purge_org_requests
  purge_org_requests-eq zero total s positive distinct enough = absurd (omega (arith, enough))
  purge_org_requests-eq (suc fuel) total s positive distinct enough =
      let n = count (deleted s) s.requests in
      let within = deleted-Within s distinct in
      let split : n + stale_count (without (deleted s) s) ≡ stale_count s =
        count-delete (deleted s) (is_stale org_id cutoff) s.requests within in
      rw (batch-eq s) (elim (Bool-cases (ltb n batch_size)) [
        | inl short ↦
            let all_gone = Within-deleted s (ltb→lt n batch_size short) in
            rw short (
              rw (without-Within (deleted s) (is_stale org_id cutoff) s within all_gone) (
                ap (λ k. some (ok (total + k), purged s))
                  (sym (length-filter-count (deleted s) s.requests)
                    ∙ ap length (
                        filter-Within (deleted s) (is_stale org_id cutoff) s.requests within
                          all_gone)
                    ∙ length-filter-count (is_stale org_id cutoff) s.requests)))
        | inr full ↦
            let progress : batch_size ≤ n = ground (arith, full) in
            rw full (
              purge_org_requests-eq fuel (total + n) (without (deleted s) s) positive
                (DistinctIds-filter (λ (r : Request). r.id) (λ r. not (deleted s r)) s.requests
                  distinct)
                (omega (arith, split, progress, enough, positive))
              ∙ rw (without-without (deleted s) (is_stale org_id cutoff) s within)
                  (ap (λ k. some (ok k, purged s)) (omega (arith, split))))
      ])
