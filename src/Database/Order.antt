-- ===== src/Database/Order.antt =====
-- What the program relies on in the database server beside the statements: ORDER BY and the
-- comparison of `citext`. Rows that compare equal may come back in any order.
use frontdesk_intake.Prelude.{
  subst, inr, inl, some, none, take, sym, first, ℕ, String, Bool, true, false, ◌&&◌, ◌≡◌, refl, ◌∙◌,
  ◌⊎◌, ◌+◌, List, [], ◌∷◌, any, all, length, if◌then◌else◌, arith,
}

module _ {ℓ} {A : Type ℓ} where
  abbrev pub count : (A → Bool) → List A → ℕ
  count p [] = 0
  count p (x ∷ xs) = (if p x then 1 else 0) + count p xs

  pub count-eq_zero : (p : A → Bool) (xs : List A) → any p xs ≡ false → count p xs ≡ 0
  count-eq_zero p [] h = refl
  count-eq_zero p (x ∷ xs) h = ground (arith, count-eq_zero p xs)

  pub any-of_count : (p : A → Bool) (xs : List A) → count p xs ≡ 0 → any p xs ≡ false
  any-of_count p [] h = refl
  any-of_count p (x ∷ xs) h = ground (arith, any-of_count p xs)

  pub any-eq_of_count :
      (p : A → Bool) (xs ys : List A) → count p xs ≡ count p ys → any p xs ≡ any p ys
  any-eq_of_count p xs ys h =
      ground (arith, count-eq_zero p xs, count-eq_zero p ys, any-of_count p xs, any-of_count p ys)

  pub length-eq-count : (xs : List A) → length xs ≡ count (λ x. true) xs
  length-eq-count [] = refl
  length-eq-count (x ∷ xs) = ground (arith, length-eq-count xs)

  pub all-eq_not_any :
      (p : A → Bool) (xs : List A)
      → any (λ x. if p x then false else true) xs ≡ false
      → all p xs ≡ true
  all-eq_not_any p [] h = refl
  all-eq_not_any p (x ∷ xs) h = ground (arith, all-eq_not_any p xs)

  pub any_of_not_all :
      (p : A → Bool) (xs : List A)
      → all p xs ≡ true
      → any (λ x. if p x then false else true) xs ≡ false
  any_of_not_all p [] h = refl
  any_of_not_all p (x ∷ xs) h = ground (arith, any_of_not_all p xs)

  abbrev pub IsSorted : (A → A → Bool) → List A → Type 0
  IsSorted le [] = Unit
  IsSorted le (x ∷ xs) = (all (le x) xs ≡ true) × IsSorted le xs

  -- an ORDER BY expression compares any two rows, and compares them as one order
  pub record IsOrder (le : A → A → Bool) : Type ℓ where
    pub total : (x y : A) → (le x y ≡ true) ⊎ (le y x ≡ true)
    pub trans : (x y z : A) → le x y ≡ true → le y z ≡ true → le x z ≡ true

pub record Postgres : Type 1 where
  pub order_by : {A : Type 0} → (A → A → Bool) → List A → List A
  -- the same rows, each as often
  pub order_by-count :
      {A : Type 0} (le : A → A → Bool) (p : A → Bool) (xs : List A)
      → count p (order_by le xs) ≡ count p xs
  pub order_by-IsSorted :
      {A : Type 0} (le : A → A → Bool) (xs : List A) → IsOrder le → IsSorted le (order_by le xs)
  pub citext_eq : String → String → Bool
  pub citext_eq-refl : (s : String) → citext_eq s s ≡ true

module _ {A : Type 0} (pg : Postgres) (le : A → A → Bool) (xs : List A) where
  open pg use {order_by, order_by-count, order_by-IsSorted}

  pub any-order_by : (p : A → Bool) → any p (order_by le xs) ≡ any p xs
  any-order_by p = any-eq_of_count p (order_by le xs) xs (order_by-count le p xs)

  pub length-order_by : length (order_by le xs) ≡ length xs
  length-order_by = ground (
    arith,
    length-eq-count (order_by le xs),
    length-eq-count xs,
    order_by-count le (λ x. true) xs,
  )

  pub all-order_by : (p : A → Bool) → all p xs ≡ true → all p (order_by le xs) ≡ true
  all-order_by p h =
      let none_fails = any_of_not_all p xs h in
      all-eq_not_any p (order_by le xs)
        (any-order_by (λ x. if p x then false else true) ∙ none_fails)

  pub all-of_order_by : (p : A → Bool) → all p (order_by le xs) ≡ true → all p xs ≡ true
  all-of_order_by p h =
      all-eq_not_any p xs (
        sym (any-order_by (λ x. if p x then false else true)) ∙ any_of_not_all p (order_by le xs) h)

-- ORDER BY … LIMIT 1
module _ {A : Type 0} (pg : Postgres) (le : A → A → Bool) (order : IsOrder le) (xs : List A) where
  open pg use {order_by, order_by-IsSorted}

  IsSorted-least :
      (ys : List A) {d : A} → first (take 1 ys) ≡ some d → IsSorted le ys → all (le d) ys ≡ true
  IsSorted-least [] h sorted = cc
  IsSorted-least (y ∷ ys) {d} h (least, sorted) =
      let same : y ≡ d = ground arith in
      let itself : le d d ≡ true = elim (order.total d d) [ inl e ↦ e | inr e ↦ e ] in
      subst (λ z. (le d z && all (le d) ys) ≡ true) (sym same)
        (rw itself (subst (λ z. all (le z) ys ≡ true) same least))

  first-any :
      (p : A → Bool) (ys : List A) {d : A}
      → first (take 1 ys) ≡ some d
      → p d ≡ true
      → any p ys ≡ true
  first-any p [] h k = cc
  first-any p (y ∷ ys) {d} h k = let same : y ≡ d = ground arith in rw same (rw k refl)

  first-none : (p : A → Bool) (ys : List A) → first (take 1 ys) ≡ none → any p ys ≡ false
  first-none p [] h = refl
  first-none p (y ∷ ys) h = cc

  pub limit_one-least : {d : A} → first (take 1 (order_by le xs)) ≡ some d → all (le d) xs ≡ true
  limit_one-least h =
      all-of_order_by pg le xs _ (IsSorted-least (order_by le xs) h (order_by-IsSorted le xs order))

  pub limit_one-any :
      (p : A → Bool) {d : A}
      → first (take 1 (order_by le xs)) ≡ some d
      → p d ≡ true
      → any p xs ≡ true
  limit_one-any p h k = sym (any-order_by pg le xs p) ∙ first-any p (order_by le xs) h k

  pub limit_one-none : (p : A → Bool) → first (take 1 (order_by le xs)) ≡ none → any p xs ≡ false
  limit_one-none p h = sym (any-order_by pg le xs p) ∙ first-none p (order_by le xs) h
