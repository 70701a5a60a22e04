-- ===== src/Database/Seed/Kept.antt =====
-- Rows that stay: a table that may grow, and orgs whose settings may gain keys.
use frontdesk_intake.Prelude.{
  String, false, Option, none, some, List, [], ◌∷◌, ◌++◌, ◌≡◌, refl, sym, ap, ◌∙◌, ◌==◌,
  update_where, Bool-cases, inl, inr, arith,
}
use mathlib.Core.List.{append-nil, append_assoc}
use frontdesk_intake.Json.{
  Json, Fields, null, bool, num, number, str, arr, obj, end, field, get_field,
}
use frontdesk_intake.Database.Rows.{Org}
use frontdesk_intake.Database.Seed.Inserts.{has_key, with_key, set_key, lacks_key, add_key}

-- the same rows, and more at the end
abbrev pub Begins : {A : Type 0} → List A → List A → Type 0
Begins {A} xs ys = (added : List A) × (ys ≡ xs ++ added)

pub Begins-refl : {A : Type 0} (xs : List A) → Begins xs xs
Begins-refl xs = ([], sym (append-nil xs))

pub Begins-trans : {A : Type 0} (xs ys zs : List A) → Begins xs ys → Begins ys zs → Begins xs zs
Begins-trans xs ys zs (a, h) (b, k) = (a ++ b, k ∙ ap (λ l. l ++ b) h ∙ append_assoc xs a b)

-- `value[key]` of a settings object
abbrev pub setting : String → Json → Option Json
setting key (obj fields) = get_field key fields
setting key _ = none

-- Only the settings may differ, and each key they had has the value it had.
pub record KeptOrg (x y : Org) : Type 0 where
  pub columns : y ≡ record x { settings = y.settings }
  pub keys :
      (key : String) (v : Json) → setting key x.settings ≡ some v → setting key y.settings ≡ some v

abbrev pub KeptOrgs : List Org → List Org → Type 0
KeptOrgs [] ys = Unit
KeptOrgs (x ∷ xs) [] = ⊥
KeptOrgs (x ∷ xs) (y ∷ ys) = KeptOrg x y × KeptOrgs xs ys

KeptOrg-refl : (x : Org) → KeptOrg x x
KeptOrg-refl x = record { columns = refl; keys = λ key v h. h }

KeptOrg-trans : (x y z : Org) → KeptOrg x y → KeptOrg y z → KeptOrg x z
KeptOrg-trans x y z h k = record {
  columns = k.columns ∙ ap (λ (o : Org). record o { settings = z.settings }) h.columns;
  keys = λ key v p. k.keys key v (h.keys key v p);
}

pub KeptOrgs-refl : (xs : List Org) → KeptOrgs xs xs
KeptOrgs-refl [] = tt
KeptOrgs-refl (x ∷ xs) = (KeptOrg-refl x, KeptOrgs-refl xs)

pub KeptOrgs-trans : (xs ys zs : List Org) → KeptOrgs xs ys → KeptOrgs ys zs → KeptOrgs xs zs
KeptOrgs-trans [] ys zs h k = tt
KeptOrgs-trans (x ∷ xs) [] zs h k = elim h [ ]
KeptOrgs-trans (x ∷ xs) (y ∷ ys) [] h k = elim k [ ]
KeptOrgs-trans (x ∷ xs) (y ∷ ys) (z ∷ zs) (h, hs) (k, ks) =
    (KeptOrg-trans x y z h k, KeptOrgs-trans xs ys zs hs ks)

pub KeptOrgs-append : (xs ys : List Org) → KeptOrgs xs (xs ++ ys)
KeptOrgs-append [] ys = tt
KeptOrgs-append (x ∷ xs) ys = (KeptOrg-refl x, KeptOrgs-append xs ys)

get_field-set_key :
    (key k : String) (new v : Json) (fields : Fields)
    → has_key key (obj fields) ≡ false
    → get_field k fields ≡ some v
    → get_field k (set_key key new fields) ≡ some v
unfolding get_field
get_field-set_key key k new v end h p = cc
get_field-set_key key k new v (field f w rest) h p = elim (Bool-cases (f == key)) [
  | inl same ↦ absurd (cc (h, same))
  | inr other ↦ rw other (elim (Bool-cases (f == k)) [
    | inl here ↦ rw here (rw here at p)
    | inr later ↦ rw later (get_field-set_key key k new v rest (rw other at h) (rw later at p))
  ])
]

setting-with_key :
    (key k : String) (new v j : Json)
    → has_key key j ≡ false
    → setting k j ≡ some v
    → setting k (with_key key new j) ≡ some v
setting-with_key key k new v (obj fields) h p = get_field-set_key key k new v fields h p
setting-with_key key k new v null h p = cc
setting-with_key key k new v (bool b) h p = cc
setting-with_key key k new v (num n) h p = cc
setting-with_key key k new v (number n) h p = cc
setting-with_key key k new v (str t) h p = cc
setting-with_key key k new v (arr is) h p = cc

pub KeptOrgs-update :
    (id key : String) (new : Json) (xs : List Org)
    → KeptOrgs xs (update_where (lacks_key id key) (add_key key new) xs)
KeptOrgs-update id key new [] = tt
KeptOrgs-update id key new (x ∷ xs) = elim (Bool-cases (lacks_key id key x)) [
  | inl lacks ↦ rw lacks (
    record {
      columns = refl;
      keys = λ k v p. setting-with_key key k new v x.settings (ground (arith, lacks)) p;
    },
    KeptOrgs-update id key new xs,
  )
  | inr has ↦ rw has (KeptOrg-refl x, KeptOrgs-update id key new xs)
]
