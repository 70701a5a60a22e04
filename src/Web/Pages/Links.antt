-- ===== src/Web/Pages/Links.antt =====
-- Where the links of a page lead, in the order of the page.
use frontdesk_intake.Web.Html.{
  each, Attribute, Html, Nodes, text, element, nothing, attr, flag, action, ◌▹◌,
}
use frontdesk_intake.Prelude.{String, List, [], ◌∷◌, ◌++◌, ◌≡◌, refl, ap, ◌==◌, if◌then◌else◌, map}

abbrev href_values : List Attribute → List String
href_values [] = []
href_values (attr name value ∷ rest) =
    if name == "href" then value ∷ href_values rest else href_values rest
href_values (flag name ∷ rest) = href_values rest
href_values (action a ∷ rest) = href_values rest

-- of an `a` element
abbrev hrefs_of : String → List Attribute → List String
hrefs_of tag attributes = if tag == "a" then href_values attributes else []

abbrev mutual
  pub hrefs : Html → List String
  hrefs (text t) = []
  hrefs (element tag attributes nodes) = hrefs_of tag attributes ++ hrefs_all nodes

  pub hrefs_all : Nodes → List String
  hrefs_all nothing = []
  hrefs_all (x ▹ xs) = hrefs x ++ hrefs_all xs

-- items that each hold one link
pub hrefs_all-each :
    {A : Type 0} (f : A → Html) (link : A → String) (xs : List A)
    → ((x : A) → hrefs (f x) ≡ link x ∷ [])
    → hrefs_all (each f xs) ≡ map link xs
unfolding each
hrefs_all-each f link [] h = refl
hrefs_all-each f link (x ∷ xs) h = rw (h x) (ap (λ l. link x ∷ l) (hrefs_all-each f link xs h))

-- items that hold none
pub hrefs_all-none :
    {A : Type 0} (f : A → Html) (xs : List A)
    → ((x : A) → hrefs (f x) ≡ [])
    → hrefs_all (each f xs) ≡ []
unfolding each
hrefs_all-none f [] h = refl
hrefs_all-none f (x ∷ xs) h = rw (h x) (hrefs_all-none f xs h)
