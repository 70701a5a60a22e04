-- ===== src/Database/Seed/Inserts.antt =====
-- The statements of db/src/seed.ts. They run as the owner of the tables, for whom the policies do
-- not count, and each is a transaction of its own: an error leaves what stands before it.
use frontdesk_intake.Prelude.{
  ◌||◌, String, Bool, true, false, ◌&&◌, not, Option, none, some, List, [], ◌∷◌, ◌++◌, ◌==◌, any,
  filter, map, update_where, if◌then◌else◌,
}
use frontdesk_intake.Json.{Json, Items, Fields, str, arr, obj, nil, cons, end, field}
use frontdesk_intake.Database.Rows.{Database, Org, OrgMember, Request, Document}
use frontdesk_intake.Database.Tx.{Tx, Error, ok, err, constraint}
use frontdesk_intake.Database.Order.{Postgres}

-- `ON CONFLICT (…) DO NOTHING RETURNING id`: nothing for a conflict on the target, an error for
-- another constraint.
unfoldable pub insert_unless : Bool → Option Error → String → Database → Tx (Option String)
insert_unless true refusal id inserted guc s = (ok none, s)
insert_unless false none id inserted guc s = (ok (some id), inserted)
insert_unless false (some e) id inserted guc s = (err e, s)

abbrev pub has_org : String → Database → Bool
has_org org_id s = any (λ o. o.id == org_id) s.orgs

abbrev pub primary : Bool → String → Option Error → Option Error
primary taken name rest = if taken then some (constraint name) else rest

abbrev references_org : String → String → Database → Option Error
references_org org_id name s = if has_org org_id s then none else some (constraint name)

unfoldable pub insert_org : Org → Tx (Option String)
unfolding insert_unless
insert_org row guc s =
    insert_unless (any (λ o. o.slug == row.slug) s.orgs)
      (primary (has_org row.id s) "orgs_pkey" none) row.id (record s { orgs = s.orgs ++ row ∷ [] })
      guc s

unfoldable pub insert_member : Postgres → OrgMember → Tx (Option String)
unfolding insert_unless
insert_member pg row guc s =
    insert_unless (any (λ m. pg.citext_eq m.email row.email) s.org_members)
      (primary (any (λ m. m.id == row.id) s.org_members) "org_members_pkey"
        (references_org row.org_id "org_members_org_id_orgs_id_fk" s))
      row.id (record s { org_members = s.org_members ++ row ∷ [] }) guc s

unfoldable pub insert_document : Document → Tx (Option String)
unfolding insert_unless
insert_document row guc s =
    insert_unless (any (λ d. d.org_id == row.org_id && d.sha256 == row.sha256) s.documents)
      (primary (any (λ d. d.id == row.id) s.documents) "documents_pkey"
        (references_org row.org_id "documents_org_id_orgs_id_fk" s))
      row.id (record s { documents = s.documents ++ row ∷ [] }) guc s

unfoldable pub insert_seed_request : Request → Tx (Option String)
unfolding insert_unless
insert_seed_request row guc s =
    insert_unless (any (λ r. r.tracking_token == row.tracking_token) s.requests)
      (primary (any (λ r. r.id == row.id) s.requests) "requests_pkey"
        (references_org row.org_id "requests_org_id_orgs_id_fk" s))
      row.id (record s { requests = s.requests ++ row ∷ [] }) guc s

-- A plain INSERT of the owner: like a member's of the row's own org, whom the policy lets write.
unfoldable pub as_owner : {A : Type 0} → String → Tx A → Tx A
as_owner org_id m guc s = m (some org_id) s

-- the operator `?` of `jsonb`
abbrev pub field_named : String → Fields → Bool
field_named key end = false
field_named key (field k v rest) = k == key || field_named key rest

abbrev pub is_text : String → Json → Bool
is_text key (str t) = t == key
is_text key _ = false

abbrev pub item_named : String → Items → Bool
item_named key nil = false
item_named key (cons v rest) = is_text key v || item_named key rest

abbrev pub has_key : String → Json → Bool
has_key key (obj fields) = field_named key fields
has_key key (arr values) = item_named key values
has_key key v = is_text key v

-- The operator `||` of `jsonb`, for `value || {key: new}`: an object gets the key, anything else
-- becomes a list with the object at its end.
abbrev pub set_key : String → Json → Fields → Fields
set_key key new end = field key new end
set_key key new (field k v rest) =
    let others = set_key key new rest in if k == key then field k new rest else field k v others

abbrev pub push : Items → Json → Items
push nil v = cons v nil
push (cons w rest) v = cons w (push rest v)

abbrev pub with_key : String → Json → Json → Json
with_key key new (obj fields) = obj (set_key key new fields)
with_key key new (arr values) = arr (push values (obj (field key new end)))
with_key key new v = arr (cons v (cons (obj (field key new end)) nil))

abbrev pub lacks_key : String → String → Org → Bool
lacks_key org_id key o = o.id == org_id && not (has_key key o.settings)

abbrev pub add_key : String → Json → Org → Org
add_key key new o = record o { settings = with_key key new o.settings }

-- UPDATE orgs … WHERE id = … AND NOT settings ? key RETURNING id
unfoldable pub update_settings : String → String → Json → Tx (List String)
update_settings org_id key new guc s = (
  ok (map (λ (o : Org). o.id) (filter (lacks_key org_id key) s.orgs)),
  record s { orgs = update_where (lacks_key org_id key) (add_key key new) s.orgs },
)
