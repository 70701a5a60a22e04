-- ===== src/Database/Limit.antt =====
-- ORDER BY … LIMIT n: the rows that come first, and those that are left out.
use frontdesk_intake.Prelude.{
  ℕ, zero, suc, min, Bool, List, [], ◌∷◌, ◌++◌, ◌≡◌, refl, sym, ap, subst, ◌∙◌, length, take,
  length-take,
}
use frontdesk_intake.Database.Order.{Postgres, count, IsSorted, IsOrder, length-order_by}

-- `shown` are the first `n` rows of `matching` in the order `le`, or all of them: together with the
-- rows left out they are the rows of `matching`, each as often, and sorted.
pub record IsTop {A : Type 0} (le : A → A → Bool) (n : ℕ) (matching shown : List A) : Type 0 where
  pub left_out : List A
  pub same_rows : (p : A → Bool) → count p (shown ++ left_out) ≡ count p matching
  pub sorted : IsSorted le (shown ++ left_out)
  pub size : length shown ≡ min n (length matching)

module _ {A : Type 0} where
  abbrev drop : ℕ → List A → List A
  drop zero xs = xs
  drop (suc n) [] = []
  drop (suc n) (x ∷ xs) = drop n xs

  take-drop : (n : ℕ) (xs : List A) → take n xs ++ drop n xs ≡ xs
  take-drop zero xs = refl
  take-drop (suc n) [] = refl
  take-drop (suc n) (x ∷ xs) = ap (λ ys. x ∷ ys) (take-drop n xs)

  pub limit-IsTop :
      (pg : Postgres) (le : A → A → Bool) (n : ℕ) (xs : List A)
      → IsOrder le
      → IsTop le n xs (take n (pg.order_by le xs))
  limit-IsTop pg le n xs order = record {
    left_out = drop n (pg.order_by le xs);
    same_rows = λ p. ap (count p) (take-drop n (pg.order_by le xs)) ∙ pg.order_by-count le p xs;
    sorted =
        subst (IsSorted le) (sym (take-drop n (pg.order_by le xs)))
          (pg.order_by-IsSorted le xs order);
    size = length-take n (pg.order_by le xs) ∙ ap (λ k. min n k) (length-order_by pg le xs);
  }
