-- ===== src/Web/Html.antt =====
-- The markup that the pages of web/src render: tags, the attributes that a browser acts on, and
-- text. Names of style classes are left out.
use frontdesk_intake.Prelude.{
  ℕ, if◌then◌else◌, is_empty, String, Bool, true, false, Option, none, some, List, [], ◌∷◌,
}

-- the Server Action that a form calls, with the arguments bound to it
pub data ServerAction : Type 0 where
  approve_form edit_form reject_form submit_form : String → ServerAction

pub data Attribute : Type 0 where
  attr : String → String → Attribute
  flag : String → Attribute
  action : ServerAction → Attribute

infixr 20 ◌▹◌
mutual
  pub data Html : Type 0 where
    text : String → Html
    element : String → List Attribute → Nodes → Html

  pub data Nodes : Type 0 where
    nothing : Nodes
    ◌▹◌ : Html → Nodes → Nodes

infixr 19 ◌⊕◌
unfoldable pub ◌⊕◌ : Nodes → Nodes → Nodes
nothing ⊕ ys = ys
(x ▹ xs) ⊕ ys = x ▹ (xs ⊕ ys)

-- `{condition && <x />}`
abbrev pub when : Bool → Nodes → Nodes
when true nodes = nodes
when false nodes = nothing

-- `{value && <x />}` of a text that may be missing; the empty text renders as itself
abbrev pub when_given : Option String → (String → Html) → Nodes
when_given none f = nothing
when_given (some t) f = if is_empty t then text "" ▹ nothing else f t ▹ nothing

-- `{items.map((item) => <x />)}`
unfoldable pub each {ℓ} : {A : Type ℓ} → (A → Html) → List A → Nodes
each f [] = nothing
each f (x ∷ xs) = f x ▹ each f xs

-- `value ?? "—"`
abbrev pub or_dash : Option String → String
or_dash none = "—"
or_dash (some t) = t

-- What the router does with a page: render it, answer 404, send the visitor elsewhere, or render
-- nothing.
pub data Page : Type 0 where
  rendered : Html → Page
  not_found : Page
  moved : String → Page
  blank : Page

-- How JavaScript writes a date and a number.
pub record Format : Type 0 where
  pub iso : ℕ → String
  pub decimal : ℕ → String

-- an element that holds a text
abbrev pub plain : String → String → Html
plain tag t = element tag [] (text t ▹ nothing)

-- a section with its heading
abbrev pub titled : String → String → Nodes → Html
titled id title nodes =
    element "section" (attr "aria-labelledby" id ∷ [])
      (element "h2" (attr "id" id ∷ []) (text title ▹ nothing) ▹ nodes)
