-- ===== src/Tests/Server.antt =====
-- A database server that sorts by insertion and compares texts as they are.
use frontdesk_intake.Prelude.{
  ◌+◌, Bool, true, List, [], ◌∷◌, ◌≡◌, refl, ◌==◌, eq_refl, all, Bool-cases, inl, inr,
  if◌then◌else◌, arith,
}
use frontdesk_intake.Database.Order.{Postgres, count, IsSorted, IsOrder}

module _ {A : Type 0} (le : A → A → Bool) where
  abbrev pub insert : A → List A → List A
  insert x [] = x ∷ []
  insert x (y ∷ ys) = let rest = insert x ys in if le x y then x ∷ y ∷ ys else y ∷ rest

  abbrev pub sort : List A → List A
  sort [] = []
  sort (x ∷ xs) = insert x (sort xs)

  count-insert :
      (p : A → Bool) (x : A) (ys : List A)
      → count p (insert x ys) ≡ (if p x then 1 else 0) + count p ys
  count-insert p x [] = refl
  count-insert p x (y ∷ ys) = ground (arith, count-insert p x ys)

  pub count-sort : (p : A → Bool) (xs : List A) → count p (sort xs) ≡ count p xs
  count-sort p [] = refl
  count-sort p (x ∷ xs) = ground (arith, count-insert p x (sort xs), count-sort p xs)

  module _ (order : IsOrder le) where
    all-insert :
        (y x : A) (ys : List A)
        → le y x ≡ true
        → all (le y) ys ≡ true
        → all (le y) (insert x ys) ≡ true
    all-insert y x [] h k = rw h refl
    all-insert y x (z ∷ ys) h k = ground (arith, h, k, all-insert y x ys)

    all_trans :
        (x y : A) (ys : List A) → le x y ≡ true → all (le y) ys ≡ true → all (le x) ys ≡ true
    all_trans x y [] h k = refl
    all_trans x y (z ∷ ys) h k = ground (arith, h, k, all_trans x y ys, order.trans x y z)

    IsSorted-insert : (x : A) (ys : List A) → IsSorted le ys → IsSorted le (insert x ys)
    IsSorted-insert x [] h = (refl, tt)
    IsSorted-insert x (y ∷ ys) (least, h) = elim (Bool-cases (le x y)) [
      | inl first ↦ rw first (rw first (all_trans x y ys first least), (least, h))
      | inr later ↦ rw later (
        all-insert y x ys (elim (order.total x y) [ inl e ↦ absurd (cc (later)) | inr e ↦ e ])
            least,
        IsSorted-insert x ys h,
      )
    ]

    pub IsSorted-sort : (xs : List A) → IsSorted le (sort xs)
    IsSorted-sort [] = tt
    IsSorted-sort (x ∷ xs) = IsSorted-insert x (sort xs) (IsSorted-sort xs)

abbrev pub server : Postgres
server = record {
  order_by = λ {A} le xs. sort {A = A} le xs;
  order_by-count = λ {A} le p xs. count-sort {A = A} le p xs;
  order_by-IsSorted = λ {A} le xs order. IsSorted-sort {A = A} le order xs;
  citext_eq = λ a b. a == b;
  citext_eq-refl = λ s. eq_refl s;
}
