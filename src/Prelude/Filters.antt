-- ===== src/Prelude/Filters.antt =====
-- Selection, update and deletion of the rows of a list that pass a Boolean test.
use Prim.Native.Nat.{◌+◌}
use mathlib.Core.Path.{◌≡◌, refl, ap, sym, subst, ◌∙◌}
use mathlib.Core.Bool.{Bool, true, false, ◌&&◌, not}
use mathlib.Core.List.{List, [], ◌∷◌, ◌++◌, map}
use mathlib.Core.Logic.{inl, inr}
use mathlib.Core.Option.{some}
use native.Mathlib.Omega.{arith}
use frontdesk_intake.Prelude.Tests.{if◌then◌else◌, Bool-cases}
use frontdesk_intake.Prelude.Lists.{length, any, first}

module _ {ℓ} {A : Type ℓ} where
  abbrev pub filter : (A → Bool) → List A → List A
  filter p [] = []
  filter p (x ∷ xs) = let rest = filter p xs in if p x then x ∷ rest else rest

  abbrev pub update_where : (A → Bool) → (A → A) → List A → List A
  update_where p f [] = []
  update_where p f (x ∷ xs) = (if p x then f x else x) ∷ update_where p f xs

  abbrev pub delete_where : (A → Bool) → List A → List A
  delete_where p xs = filter (λ x. not (p x)) xs

  pub filter-append :
      (p : A → Bool) (xs ys : List A) → filter p (xs ++ ys) ≡ filter p xs ++ filter p ys
  filter-append p [] ys = refl
  filter-append p (x ∷ xs) ys = ground (arith, filter-append p xs ys)

  -- A filter does not see an update of rows outside it that stay outside it.
  pub filter-update_where :
      (q p : A → Bool) (f : A → A) (xs : List A)
      → ((x : A) → p x ≡ true → (q x ≡ false) × (q (f x) ≡ false))
      → filter q (update_where p f xs) ≡ filter q xs
  filter-update_where q p f [] h = refl
  filter-update_where q p f (x ∷ xs) h = ground (arith, h x, filter-update_where q p f xs h)

  pub filter-delete_where :
      (q p : A → Bool) (xs : List A)
      → ((x : A) → p x ≡ true → q x ≡ false)
      → filter q (delete_where p xs) ≡ filter q xs
  filter-delete_where q p [] h = refl
  filter-delete_where q p (x ∷ xs) h = ground (arith, h x, filter-delete_where q p xs h)

  pub length-filter_split :
      (p : A → Bool) (xs : List A) → length (filter p xs) + length (delete_where p xs) ≡ length xs
  length-filter_split p [] = omega arith
  length-filter_split p (x ∷ xs) = ground (arith, length-filter_split p xs)

  pub filter-congr :
      (p q : A → Bool) (xs : List A) → ((x : A) → p x ≡ q x) → filter p xs ≡ filter q xs
  filter-congr p q [] h = refl
  filter-congr p q (x ∷ xs) h = rw (h x) (rw (filter-congr p q xs h))

  pub filter-filter :
      (p q : A → Bool) (xs : List A) → filter p (filter q xs) ≡ filter (λ x. q x && p x) xs
  filter-filter p q [] = refl
  filter-filter p q (x ∷ xs) = ground (arith, filter-filter p q xs)

  -- If every row that `p` finds is found by `q`, a list that `q` filters the same way is filtered
  -- the same way by `p`.
  pub filter-subset :
      (p q : A → Bool) (xs ys : List A)
      → ((x : A) → (q x && p x) ≡ p x)
      → filter q xs ≡ filter q ys
      → filter p xs ≡ filter p ys
  filter-subset p q xs ys h e =
      sym (filter-congr (λ x. q x && p x) p xs h)
      ∙ sym (filter-filter p q xs)
      ∙ ap (filter p) e
      ∙ filter-filter p q ys
      ∙ filter-congr (λ x. q x && p x) p ys h

  pub update_where-congr :
      (p q : A → Bool) (f : A → A) (xs : List A)
      → ((x : A) → p x ≡ q x)
      → update_where p f xs ≡ update_where q f xs
  update_where-congr p q f [] h = refl
  update_where-congr p q f (x ∷ xs) h = rw (h x) (rw (update_where-congr p q f xs h))

  -- Rows that are found before an update that keeps them findable are found after it, updated.
  pub filter-update_where_self :
      (p : A → Bool) (f : A → A) (xs : List A)
      → ((x : A) → p (f x) ≡ p x)
      → filter p (update_where p f xs) ≡ map f (filter p xs)
  filter-update_where_self p f [] h = refl
  filter-update_where_self p f (x ∷ xs) h = ground (arith, h x, filter-update_where_self p f xs h)

  pub any-eq_filter :
      (p : A → Bool) (xs : List A) {x : A} → first (filter p xs) ≡ some x → any p xs ≡ true
  any-eq_filter p (y ∷ xs) {x} h = ground (arith, any-eq_filter p xs {x = x})
  any-eq_filter p [] h = cc

  pub any-update_where :
      (q p : A → Bool) (f : A → A) (xs : List A)
      → ((x : A) → q (f x) ≡ q x)
      → any q (update_where p f xs) ≡ any q xs
  any-update_where q p f [] h = refl
  any-update_where q p f (x ∷ xs) h = ground (arith, h x, any-update_where q p f xs h)

  pub first-filter :
      (p : A → Bool) (xs : List A) {x : A} → first (filter p xs) ≡ some x → p x ≡ true
  first-filter p [] h = cc
  first-filter p (y ∷ xs) {x} h = elim (Bool-cases (p y)) [
    | inl yes' ↦ let e : y ≡ x = ground arith in subst (λ z. p z ≡ true) e yes'
    | inr no' ↦ first-filter p xs (rw no' at h)
  ]

  pub first-map {κ} :
      {B : Type κ} (f : A → B) (xs : List A) {x : A}
      → first xs ≡ some x
      → first (map f xs) ≡ some (f x)
  first-map f [] h = cc
  first-map f (y ∷ xs) h = ground arith

  -- The row that a test finds first is found, updated or not, where the update keeps the test.
  pub first-filter-update_where :
      (q p : A → Bool) (f : A → A) (xs : List A) {x : A}
      → ((y : A) → q (f y) ≡ q y)
      → first (filter q xs) ≡ some x
      → first (filter q (update_where p f xs)) ≡ some (if p x then f x else x)
  first-filter-update_where q p f [] h k = cc
  first-filter-update_where q p f (y ∷ xs) {x} h k = elim (Bool-cases (q y)) [
    | inl found ↦
        let same : y ≡ x = ground arith in
        subst (λ z. first (filter q (update_where p f (y ∷ xs))) ≡ some (if p z then f z else z))
          same (ground (arith, h y))
    | inr other ↦ ground (arith, h y, first-filter-update_where q p f xs {x = x} h (rw other at k))
  ]
