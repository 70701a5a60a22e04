-- ===== src/Database/Client.antt =====
-- db/src/client.ts, with the resolver functions of db/drizzle/0003_resolvers.sql that it calls.
-- Those are SECURITY DEFINER functions: they look across every org, outside the policies.
use frontdesk_intake.Prelude.{
  ℕ, String, Bool, false, Option, none, some, ◌==◌, first, filter, map, update_where,
}
use frontdesk_intake.Database.Enums.{MemberRole}
use frontdesk_intake.Database.Rows.{Database, OrgMember, ApiKey, Request}
use frontdesk_intake.Database.Tx.{Tx, Outcome, settle}
use frontdesk_intake.Database.Order.{Postgres}

-- `fn` runs in one transaction that first sets `app.org_id`, and receives the org's id back.
unfoldable pub for_org : {A : Type 0} → String → (String → Tx A) → Database → Outcome A × Database
for_org org_id fn s = settle s (fn org_id (some org_id) s)

pub record Membership : Type 0 where
  pub org_id : String
  pub role : MemberRole

pub record ApiKeyResolution : Type 0 where
  pub org_id : String
  pub api_key_id : String

pub record TrackingResolution : Type 0 where
  pub org_id : String
  pub request_id : String

abbrev to_membership : OrgMember → Membership
to_membership m = record { org_id = m.org_id; role = m.role }

unfoldable pub resolve_membership : Postgres → String → Database → Option Membership
resolve_membership pg email s =
    first (map to_membership (filter (λ m. pg.citext_eq m.email email) s.org_members))

abbrev pub live_key : String → ApiKey → Bool
live_key key_hash k = elim k.revoked_at [ none ↦ k.key_hash == key_hash | some t ↦ false ]

abbrev stamp_key : ℕ → ApiKey → ApiKey
stamp_key now k = record k { last_used_at = some now }

abbrev to_api_key_resolution : ApiKey → ApiKeyResolution
to_api_key_resolution k = record { org_id = k.org_id; api_key_id = k.id }

-- The lookup stamps `last_used_at` of the key that it finds, and ignores revoked keys.
unfoldable pub resolve_api_key : ℕ → String → Database → Option ApiKeyResolution × Database
resolve_api_key now key_hash s = (
  first (map to_api_key_resolution (filter (live_key key_hash) s.api_keys)),
  record s { api_keys = update_where (live_key key_hash) (stamp_key now) s.api_keys },
)

abbrev pub to_tracking_resolution : Request → TrackingResolution
to_tracking_resolution r = record { org_id = r.org_id; request_id = r.id }

unfoldable pub resolve_tracking : String → Database → Option TrackingResolution
resolve_tracking token s =
    first (map to_tracking_resolution (filter (λ r. r.tracking_token == token) s.requests))
