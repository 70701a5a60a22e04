-- ===== src/Database/Purge/Batch.antt =====
-- Deleting rows in batches, as lists: rows with distinct ids, and a batch of those to be deleted.
use frontdesk_intake.Prelude.{
  all, ℕ, zero, suc, ◌+◌, ◌<◌, ◌≤◌, String, Bool, true, false, ◌&&◌, ◌||◌, List, [], ◌∷◌, ◌==◌, ◌≡◌,
  refl, ap, any, All, length, take, filter, delete_where, arith, eq_iff, eq_refl, Bool-cases, inl,
  inr,
}
use frontdesk_intake.Database.Order.{count}

module _ {A : Type 0} where
  pub All-filter : (P : A → Type 0) (q : A → Bool) (xs : List A) → All P xs → All P (filter q xs)
  All-filter P q [] h = tt
  All-filter P q (x ∷ xs) (p, h) = elim (Bool-cases (q x)) [
    | inl kept ↦ rw kept (p, All-filter P q xs h)
    | inr dropped ↦ rw dropped (All-filter P q xs h)
  ]

  pub any-take : (p : A → Bool) (n : ℕ) (xs : List A) → any p (take n xs) ≡ true → any p xs ≡ true
  any-take p zero xs h = cc
  any-take p (suc n) [] h = cc
  any-take p (suc n) (x ∷ xs) h = ground (arith, any-take p n xs)

  pub count-take : (p : A → Bool) (n : ℕ) (xs : List A) → count p (take n xs) ≤ count p xs
  count-take p zero xs = omega arith
  count-take p (suc n) [] = omega arith
  count-take p (suc n) (x ∷ xs) = ground (arith, count-take p n xs)

  pub take-short : (n : ℕ) (xs : List A) → length (take n xs) < n → take n xs ≡ xs
  take-short zero xs h = absurd (omega (arith, h))
  take-short (suc n) [] h = refl
  take-short (suc n) (x ∷ xs) h = ap (λ ys. x ∷ ys) (take-short n xs (omega (arith, h)))

  pub count-filter : (p q : A → Bool) (xs : List A) → count p (filter q xs) ≤ count p xs
  count-filter p q [] = omega arith
  count-filter p q (x ∷ xs) = ground (arith, count-filter p q xs)

  pub length-filter-count : (p : A → Bool) (xs : List A) → length (filter p xs) ≡ count p xs
  length-filter-count p [] = refl
  length-filter-count p (x ∷ xs) = ground (arith, length-filter-count p xs)

  -- `p` only finds what `q` finds
  abbrev pub Within : (A → Bool) → (A → Bool) → List A → Type 0
  Within p q xs = All (λ x. p x ≡ true → q x ≡ true) xs

  pub filter-Within :
      (p q : A → Bool) (xs : List A) → Within p q xs → Within q p xs → filter p xs ≡ filter q xs
  filter-Within p q [] h k = refl
  filter-Within p q (x ∷ xs) (a, h) (b, k) = ground (arith, a, b, filter-Within p q xs h k)

  pub delete-Within :
      (p q : A → Bool) (xs : List A)
      → Within p q xs
      → Within q p xs
      → delete_where p xs ≡ delete_where q xs
  delete-Within p q [] h k = refl
  delete-Within p q (x ∷ xs) (a, h) (b, k) = ground (arith, a, b, delete-Within p q xs h k)

  -- Deleting a part and then the rest is deleting all at once.
  pub delete-delete :
      (p q : A → Bool) (xs : List A)
      → Within p q xs
      → delete_where q (delete_where p xs) ≡ delete_where q xs
  delete-delete p q [] h = refl
  delete-delete p q (x ∷ xs) (a, h) = ground (arith, a, delete-delete p q xs h)

  pub count-delete :
      (p q : A → Bool) (xs : List A)
      → Within p q xs
      → count p xs + count q (delete_where p xs) ≡ count q xs
  count-delete p q [] h = refl
  count-delete p q (x ∷ xs) (a, h) = ground (arith, a, count-delete p q xs h)

  pub any-filter_split :
      (e p q : A → Bool) (xs : List A)
      → Within p q xs
      → (any e (filter p xs) || any e (filter q (delete_where p xs))) ≡ any e (filter q xs)
  any-filter_split e p q [] h = refl
  any-filter_split e p q (x ∷ xs) (a, h) = ground (arith, a, any-filter_split e p q xs h)

  pub delete-or :
      (p q r : A → Bool) (xs : List A)
      → ((x : A) → (p x || q x) ≡ r x)
      → delete_where q (delete_where p xs) ≡ delete_where r xs
  delete-or p q r [] h = refl
  delete-or p q r (x ∷ xs) h = ground (arith, h x, delete-or p q r xs h)

module _ {A : Type 0} (id_of : A → String) where
  -- no two rows share their id
  abbrev pub DistinctIds : List A → Type 0
  DistinctIds [] = Unit
  DistinctIds (x ∷ xs) = All (λ y. (id_of x == id_of y) ≡ false) xs × DistinctIds xs

  pub DistinctIds-filter : (p : A → Bool) (xs : List A) → DistinctIds xs → DistinctIds (filter p xs)
  DistinctIds-filter p [] h = tt
  DistinctIds-filter p (x ∷ xs) (a, h) = elim (Bool-cases (p x)) [
    | inl kept ↦
        rw kept (All-filter (λ y. (id_of x == id_of y) ≡ false) p xs a, DistinctIds-filter p xs h)
    | inr dropped ↦ rw dropped (DistinctIds-filter p xs h)
  ]

  any-fresh :
      (q : A → Bool) (x : A) (xs : List A)
      → All (λ y. (id_of x == id_of y) ≡ false) xs
      → any (λ y. q y && id_of y == id_of x) xs ≡ false
  any-fresh q x [] h = refl
  any-fresh q x (y ∷ xs) (a, h) =
      ground (arith, a, any-fresh q x xs h, eq_iff (id_of x) (id_of y), eq_iff (id_of y) (id_of x))

  any-later :
      (q : A → Bool) (x : A) (xs ys : List A)
      → All (λ y. (id_of x == id_of y) ≡ false) ys
      → Within (λ r. any (λ z. q z && id_of z == id_of r) xs) q ys
      → Within (λ r. any (λ z. q z && id_of z == id_of r) (x ∷ xs)) q ys
  any-later q x xs [] h k = tt
  any-later q x xs (y ∷ ys) (b, h) (g, k) =
      ((λ found. g (ground (arith, found, b))), any-later q x xs ys h k)

  -- A row whose id is that of a row that `q` finds is found by `q`.
  pub found_by_id :
      (q : A → Bool) (xs : List A)
      → DistinctIds xs
      → Within (λ r. any (λ x. q x && id_of x == id_of r) xs) q xs
  found_by_id q [] h = tt
  found_by_id q (x ∷ xs) (a, h) = (
    (λ found. ground (arith, found, any-fresh q x xs a, eq_refl (id_of x))),
    any-later q x xs xs a (found_by_id q xs h),
  )

module _ {A : Type 0} where
  pub All-imp : (P Q : A → Type 0) (xs : List A) → ((x : A) → P x → Q x) → All P xs → All Q xs
  All-imp P Q [] f h = tt
  All-imp P Q (x ∷ xs) f (p, h) = (f x p, All-imp P Q xs f h)

  pub any-filter : (e q : A → Bool) (xs : List A) → any e (filter q xs) ≡ any (λ x. q x && e x) xs
  any-filter e q [] = refl
  any-filter e q (x ∷ xs) = ground (arith, any-filter e q xs)

  pub all-filter_self : (q : A → Bool) (xs : List A) → all q (filter q xs) ≡ true
  all-filter_self q [] = refl
  all-filter_self q (x ∷ xs) = ground (arith, all-filter_self q xs)

  pub all-filter_left : (p q : A → Bool) (xs : List A) → all p (filter (λ x. p x && q x) xs) ≡ true
  all-filter_left p q [] = refl
  all-filter_left p q (x ∷ xs) = ground (arith, all-filter_left p q xs)

  pub all-take : (p : A → Bool) (n : ℕ) (xs : List A) → all p xs ≡ true → all p (take n xs) ≡ true
  all-take p zero xs h = refl
  all-take p (suc n) [] h = refl
  all-take p (suc n) (x ∷ xs) h = ground (arith, all-take p n xs)

  pub all-both :
      (p q : A → Bool) (xs : List A)
      → all p xs ≡ true
      → All (λ x. q x ≡ true) xs
      → count (λ x. p x && q x) xs ≡ length xs
  all-both p q [] h k = refl
  all-both p q (x ∷ xs) h (b, k) = ground (arith, b, all-both p q xs, k)

module _ {A : Type 0} (id_of : A → String) where
  -- every row is among the rows with its id
  pub any_self : (xs : List A) → All (λ r. any (λ x. id_of x == id_of r) xs ≡ true) xs
  any_self [] = tt
  any_self (x ∷ xs) = (
    ground (arith, eq_refl (id_of x)),
    All-imp (λ r. any (λ z. id_of z == id_of r) xs ≡ true)
        (λ r. any (λ z. id_of z == id_of r) (x ∷ xs) ≡ true) xs (λ r h. ground (arith, h))
        (any_self xs),
  )

  -- every row that `q` finds is among the rows with its id that `q` finds
  pub Within-self :
      (q : A → Bool) (xs : List A) → Within q (λ r. any (λ x. q x && id_of x == id_of r) xs) xs
  Within-self q [] = tt
  Within-self q (x ∷ xs) = (
    (λ h. ground (arith, h, eq_refl (id_of x))),
    All-imp (λ r. q r ≡ true → any (λ z. q z && id_of z == id_of r) xs ≡ true)
        (λ r. q r ≡ true → any (λ z. q z && id_of z == id_of r) (x ∷ xs) ≡ true) xs
        (λ r f h. ground (arith, f h)) (Within-self q xs),
  )
