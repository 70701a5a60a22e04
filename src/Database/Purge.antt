-- ===== src/Database/Purge.antt =====
-- db/src/purge.ts: the nightly retention of the demo orgs' requests.
pub mod Batch
pub mod Without
pub mod Loop
pub mod Demo
pub mod Spared
use frontdesk_intake.Prelude.{
  ℕ, zero, suc, ◌+◌, ◌*◌, ◌-◌, String, Bool, true, false, ◌&&◌, Option, none, some, List, [], ◌∷◌,
  ◌++◌, ◌==◌, any, length, map, take, ltb, leb, if◌then◌else◌,
}
use frontdesk_intake.Database.Rows.{Database, Org, Request}
use frontdesk_intake.Database.Tx.{Outcome, ok, err, thrown, Tx, pure, ◌>>=◌}
use frontdesk_intake.Database.Statements.{select_requests, delete_requests, select_orgs}
use frontdesk_intake.Database.Order.{Postgres}
use frontdesk_intake.Database.Client.{for_org}

abbrev pub default_batch_size : ℕ
default_batch_size = 500

pub record PurgeOrgResult : Type 0 where
  pub org_id : String
  pub org_slug : String
  pub deleted_count : ℕ

pub record PurgeOptions : Type 0 where
  pub cutoff : ℕ
  pub batch_size : Option ℕ

pub record BatchCount : Type 0 where
  pub selected_count : ℕ
  pub deleted_count : ℕ

abbrev pub is_stale : String → ℕ → Request → Bool
is_stale org_id cutoff r = r.org_id == org_id && ltb r.created_at cutoff

-- ORDER BY created_at ASC
abbrev pub created_asc : Request → Request → Bool
created_asc a b = leb a.created_at b.created_at

-- `inArray(requests.id, ids)`
abbrev pub in_batch : String → List Request → Request → Bool
in_batch org_id stale r = r.org_id == org_id && any (λ x. x.id == r.id) stale

-- the DELETE of one batch, unless it is empty
unfoldable pub delete_batch : String → List Request → Tx BatchCount
delete_batch org_id [] = pure (record { selected_count = 0; deleted_count = 0 })
delete_batch org_id (x ∷ xs) = do
  row_count ← delete_requests (in_batch org_id (x ∷ xs))
  pure (record { selected_count = length (x ∷ xs); deleted_count = row_count })

abbrev pub batch_size_of : PurgeOptions → ℕ
batch_size_of options = elim options.batch_size [ none ↦ default_batch_size | some n ↦ n ]

module _ (pg : Postgres) where
  unfoldable pub purge_batch : ℕ → ℕ → String → Tx BatchCount
  unfolding delete_batch
  purge_batch cutoff batch_size org_id = do
    rows ← select_requests (is_stale org_id cutoff)
    delete_batch org_id (take batch_size (pg.order_by created_asc rows))

  -- `total` after a batch; a batch that failed is not counted
  abbrev pub total_after : ℕ → Outcome BatchCount × Database → ℕ
  total_after total (ok counts, t) = total + counts.deleted_count
  total_after total (err e, t) = total

  abbrev pub next_round :
      ℕ
      → ℕ
      → Outcome BatchCount × Database
      → Option (Outcome ℕ × Database)
      → Option (Outcome ℕ × Database)
  next_round batch_size total (err e, t) rest = some (err e, t)
  next_round batch_size total (ok counts, t) rest =
      if ltb counts.deleted_count batch_size
      then some (ok (total + counts.deleted_count), t)
      else rest

  -- The `for (;;)` of purgeOrgRequests, on fuel; `none` when the fuel runs out.
  unfoldable pub purge_org_requests :
      ℕ → String → ℕ → ℕ → ℕ → Database → Option (Outcome ℕ × Database)
  unfolding purge_batch
  purge_org_requests zero org_id cutoff batch_size total s = none
  purge_org_requests (suc fuel) org_id cutoff batch_size total s =
      let r = for_org org_id (purge_batch cutoff batch_size) s in
      let rest = purge_org_requests fuel org_id cutoff batch_size (total_after total r) r.1 in
      next_round batch_size total r rest

  abbrev pub add_result :
      Org
      → ℕ
      → Option (Outcome (List PurgeOrgResult) × Database)
      → Option (Outcome (List PurgeOrgResult) × Database)
  add_result org n none = none
  add_result org n (some (err e, t)) = some (err e, t)
  add_result org n (some (ok results, t)) =
      some (ok (record { org_id = org.id; org_slug = org.slug; deleted_count = n } ∷ results), t)

  -- the loop over the demo orgs, one after the other
  unfoldable pub purge_orgs :
      ℕ → ℕ → ℕ → List Org → Database → Option (Outcome (List PurgeOrgResult) × Database)
  unfolding purge_org_requests
  purge_orgs fuel cutoff batch_size [] s = some (ok [], s)
  purge_orgs fuel cutoff batch_size (org ∷ orgs) s =
      elim (purge_org_requests fuel org.id cutoff batch_size 0 s) [
        | none ↦ none
        | some (err e, t) ↦ some (err e, t)
        | some (ok n, t) ↦ add_result org n (purge_orgs fuel cutoff batch_size orgs t)
      ]

  unfoldable pub purge_demo_orgs :
      ℕ → PurgeOptions → Database → Option (Outcome (List PurgeOrgResult) × Database)
  unfolding purge_orgs
  purge_demo_orgs fuel options s =
      purge_orgs fuel options.cutoff (batch_size_of options) (select_orgs (λ o. o.is_demo) s) s
