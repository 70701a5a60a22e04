-- ===== src/Web/Pages/Offers.antt =====
-- The Server Actions that the forms of a page call, in the order of the page.
use frontdesk_intake.Web.Html.{
  text, element, nothing, attr, flag, action, ◌▹◌, ◌⊕◌, each, Attribute, Html, Nodes, ServerAction,
}
use frontdesk_intake.Prelude.{List, [], ◌∷◌, ◌++◌, ◌≡◌, ◌∙◌, refl, ap, sym}
use mathlib.Core.List.{append_assoc}

abbrev pub actions_of : List Attribute → List ServerAction
actions_of [] = []
actions_of (action a ∷ rest) = a ∷ actions_of rest
actions_of (attr name value ∷ rest) = actions_of rest
actions_of (flag name ∷ rest) = actions_of rest

abbrev mutual
  pub offers : Html → List ServerAction
  offers (text t) = []
  offers (element tag attributes nodes) = actions_of attributes ++ offers_all nodes

  pub offers_all : Nodes → List ServerAction
  offers_all nothing = []
  offers_all (x ▹ xs) = offers x ++ offers_all xs

pub offers_all-append : (xs ys : Nodes) → offers_all (xs ⊕ ys) ≡ offers_all xs ++ offers_all ys
unfolding ◌⊕◌
offers_all-append nothing ys = refl
offers_all-append (x ▹ xs) ys =
    ap (λ as'. offers x ++ as') (offers_all-append xs ys)
    ∙ sym (append_assoc (offers x) (offers_all xs) (offers_all ys))

pub offers_all-each :
    {A : Type 0} (f : A → Html) (xs : List A)
    → ((x : A) → offers (f x) ≡ [])
    → offers_all (each f xs) ≡ []
unfolding each
offers_all-each f [] h = refl
offers_all-each f (x ∷ xs) h = rw (h x) (offers_all-each f xs h)
