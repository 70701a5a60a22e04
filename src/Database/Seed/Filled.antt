-- ===== src/Database/Seed/Filled.antt =====
-- Settings keys that the seed found or wrote stay, and settings stay objects.
use frontdesk_intake.Prelude.{
  eq_refl, String, Bool, true, false, Option, none, some, List, [], ◌∷◌, ◌++◌, ◌≡◌, refl, subst,
  ◌∙◌, ◌==◌, ◌&&◌, ◌||◌, any, all, any-append, any-update_where, eq_iff, update_where, Bool-cases,
  Option-cases, inl, inr, arith,
}
use frontdesk_intake.Json.{
  Json, Items, Fields, null, bool, num, number, str, arr, obj, nil, cons, end, field,
}
use frontdesk_intake.Database.Rows.{Database, Org, Draft, Action}
use frontdesk_intake.Database.Tx.{Error}
use frontdesk_intake.Database.Statements.{
  insert_draft, insert_action, draft_refusal, action_refusal,
}
use frontdesk_intake.Database.Order.{Postgres}
use frontdesk_intake.Database.Settings.{settings_json}
use frontdesk_intake.Database.Seed.Inserts.{
  insert_unless, insert_org, insert_member, insert_document, insert_seed_request, update_settings,
  has_org, has_key, with_key, set_key, item_named, push, lacks_key, add_key,
}
use frontdesk_intake.Database.Seed.Present.{IsFilled, descriptions_key}
use frontdesk_intake.Database.Seed.Walk.{Respects, IsSeedRow}

abbrev pub is_object : Json → Bool
is_object (obj fields) = true
is_object _ = false

abbrev pub objects_only : List Org → Bool
objects_only orgs = all (λ o. is_object o.settings) orgs

pub record Fills (s t : Database) : Type 0 where
  pub filled : (id : String) → IsFilled id s → IsFilled id t
  pub objects : objects_only s.orgs ≡ true → objects_only t.orgs ≡ true

Fills-refl : (s : Database) → Fills s s
Fills-refl s = record { filled = λ id h. h; objects = λ h. h }

pub Fills-trans : (s t u : Database) → Fills s t → Fills t u → Fills s u
Fills-trans s t u h k = record {
  filled = λ id p. k.filled id (h.filled id p);
  objects = λ p. k.objects (h.objects p);
}

Fills-same : (s t : Database) → s.orgs ≡ t.orgs → Fills s t
Fills-same s t h = record {
  filled = λ id p.
      subst
        (λ (orgs : List Org).
          (any (λ o. o.id == id) orgs ≡ true) × (any (lacks_key id descriptions_key) orgs ≡ false))
        h p;
  objects = λ p. subst (λ (orgs : List Org). objects_only orgs ≡ true) h p;
}

item_named-push :
    (key : String) (is : Items) (v : Json)
    → item_named key is ≡ true
    → item_named key (push is v) ≡ true
item_named-push key nil v h = cc
item_named-push key (cons w rest) v h = ground (arith, item_named-push key rest v)

has_key-set_key :
    (k key : String) (v : Json) (fields : Fields)
    → has_key k (obj fields) ≡ true
    → has_key k (obj (set_key key v fields)) ≡ true
has_key-set_key k key v end h = cc
has_key-set_key k key v (field f w rest) h = ground (arith, has_key-set_key k key v rest)

pub has_key-set_key_self :
    (key : String) (v : Json) (fields : Fields) → has_key key (obj (set_key key v fields)) ≡ true
has_key-set_key_self key v end = rw (eq_refl key) refl
has_key-set_key_self key v (field f w rest) = ground (arith, has_key-set_key_self key v rest)

has_key-with_key :
    (k key : String) (v j : Json) → has_key k j ≡ true → has_key k (with_key key v j) ≡ true
has_key-with_key k key v (obj fields) h = has_key-set_key k key v fields h
has_key-with_key k key v (arr is) h = item_named-push k is _ h
has_key-with_key k key v (str t) h = rw h refl
has_key-with_key k key v null h = cc
has_key-with_key k key v (bool b) h = cc
has_key-with_key k key v (num n) h = cc
has_key-with_key k key v (number n) h = cc

lacks-update :
    (id k id' key : String) (v : Json) (xs : List Org)
    → any (lacks_key id k) xs ≡ false
    → any (lacks_key id k) (update_where (lacks_key id' key) (add_key key v) xs) ≡ false
lacks-update id k id' key v [] h = refl
lacks-update id k id' key v (x ∷ xs) h =
    ground (arith, h, has_key-with_key k key v x.settings, lacks-update id k id' key v xs)

objects-update :
    (id key : String) (v : Json) (xs : List Org)
    → objects_only xs ≡ true
    → objects_only (update_where (lacks_key id key) (add_key key v) xs) ≡ true
objects-update id key v [] h = refl
objects-update id key v (x ∷ xs) h =
    ground (arith, h, object x.settings, objects-update id key v xs)
  where
    object : (j : Json) → is_object j ≡ true → is_object (with_key key v j) ≡ true
    object (obj fields) p = refl
    object null p = cc
    object (bool b) p = cc
    object (num n) p = cc
    object (number n) p = cc
    object (str t) p = cc
    object (arr is) p = cc

all-append :
    {A : Type 0} (p : A → Bool) (xs ys : List A) → all p (xs ++ ys) ≡ (all p xs && all p ys)
all-append p [] ys = refl
all-append p (x ∷ xs) ys = ground (arith, all-append p xs ys)

pub lacks_of_fresh :
    (id k : String) (xs : List Org)
    → any (λ o. o.id == id) xs ≡ false
    → any (lacks_key id k) xs ≡ false
lacks_of_fresh id k [] h = refl
lacks_of_fresh id k (x ∷ xs) h = ground (arith, h, lacks_of_fresh id k xs)

insert_unless-same :
    (conflict : Bool) (refusal : Option Error) (id : String) (s t : Database) (guc : Option String)
    → s.orgs ≡ t.orgs
    → Fills s (insert_unless conflict refusal id t guc s).1
unfolding insert_unless
insert_unless-same true refusal id s t guc h = Fills-refl s
insert_unless-same false none id s t guc h = Fills-same s t h
insert_unless-same false (some e) id s t guc h = Fills-refl s

fresh_row :
    (id : String) (row : Org) (xs : List Org)
    → any (λ o. o.id == row.id) xs ≡ false
    → any (λ o. o.id == id) xs ≡ true
    → (lacks_key id descriptions_key row || false) ≡ false
fresh_row id row xs fresh h = elim (Bool-cases (row.id == id)) [
  | inl same ↦
      let e : row.id ≡ id = (eq_iff row.id id).0 same in
      absurd (cc (h, subst (λ (t : String). any (λ o. o.id == t) xs ≡ false) e fresh))
  | inr other ↦ rw other refl
]

insert_org-Fills :
    (row : Org) (guc : Option String) (s : Database)
    → IsSeedRow row
    → Fills s (insert_org row guc s).1
unfolding insert_org insert_unless settings_json
insert_org-Fills row guc s (settings, written) =
    elim (Bool-cases (any (λ o. o.slug == row.slug) s.orgs)) [
      | inl conflict ↦ rw (conflict, insert_org) (Fills-refl s)
      | inr free ↦
          rw (free, insert_org)
            (elim (Bool-cases (has_org row.id s)) [
              | inl taken ↦ rw (taken, insert_org) (Fills-refl s)
              | inr fresh ↦
                  rw (fresh, insert_org)
                    (record {
                      filled = λ id h. (
                        rw (any-append (λ o. o.id == id) s.orgs (row ∷ [])) (rw h.0 refl),
                        rw (any-append (lacks_key id descriptions_key) s.orgs (row ∷ []))
                            (rw h.1 (fresh_row id row s.orgs fresh h.0)),
                      );
                      objects = λ h.
                          rw (all-append (λ o. is_object o.settings) s.orgs (row ∷ []))
                            (rw h (rw written refl));
                    })
            ])
    ]

insert_draft-Fills :
    (row : Draft) (guc : Option String) (s : Database) → Fills s (insert_draft row guc s).1
unfolding insert_draft
insert_draft-Fills row guc s = elim (Option-cases (draft_refusal row guc s)) [
  | inl fine ↦ rw (fine, insert_draft) (Fills-same s _ refl)
  | inr (e, refused) ↦ rw (refused, insert_draft) (Fills-refl s)
]

insert_action-Fills :
    (row : Action) (guc : Option String) (s : Database) → Fills s (insert_action row guc s).1
unfolding insert_action
insert_action-Fills row guc s = elim (Option-cases (action_refusal row guc s)) [
  | inl fine ↦ rw (fine, insert_action) (Fills-same s _ refl)
  | inr (e, refused) ↦ rw (refused, insert_action) (Fills-refl s)
]

pub Fills-law : (pg : Postgres) → Respects pg Fills
unfolding insert_member insert_document insert_seed_request update_settings
Fills-law pg = record {
  itself = Fills-refl;
  trans = Fills-trans;
  org = insert_org-Fills;
  member = λ row guc s. insert_unless-same _ _ _ s _ guc refl;
  document = λ row guc s. insert_unless-same _ _ _ s _ guc refl;
  request = λ row guc s. insert_unless-same _ _ _ s _ guc refl;
  draft = insert_draft-Fills;
  action = insert_action-Fills;
  settings = λ id key v guc s. record {
    filled = λ o h. (
      any-update_where (λ (x : Org). x.id == o) (lacks_key id key) (add_key key v) s.orgs
            (λ x. refl)
          ∙ h.0,
      lacks-update o descriptions_key id key v s.orgs h.1,
    );
    objects = objects-update id key v s.orgs;
  };
}
