-- ===== src/Web/Pages/Home.antt =====
-- web/src/app/page.tsx, web/src/app/r/[slug]/page.tsx and web/src/app/app/layout.tsx.
use frontdesk_intake.Prelude.{String, false, Option, none, some, List, [], ◌∷◌, first, ◌==◌}
use Prim.Native.String.{◌++◌ as str_append}
use frontdesk_intake.Database.Rows.{Database, Org}
use frontdesk_intake.Database.Tx.{Outcome, ok, err}
use frontdesk_intake.Database.Statements.{select_orgs}
use frontdesk_intake.Database.Order.{Postgres}
use frontdesk_intake.Web.Guard.{Visitor, require_session_or_redirect}
use frontdesk_intake.Web.Tracking.{status_label}
use frontdesk_intake.Web.Env.{Environment, load_turnstile_site_key}
use frontdesk_intake.Web.PublicForm.{initial_submit_state}
use frontdesk_intake.Web.DemoQueue.{
  DemoOrg, DemoQueueItem, status_item, approved_item, get_demo_org, get_demo_queue,
}
use frontdesk_intake.Web.Html.{
  Html, text, element, nothing, ◌▹◌, attr, each, plain, titled, Page, rendered, moved,
}
use frontdesk_intake.Web.Components.{public_form}

abbrev pub demo_card : DemoQueueItem → Html
unfolding status_label
demo_card (approved_item id subject reply_text) =
    element "li" [] (plain "p" subject ▹ plain "p" reply_text ▹ nothing)
demo_card (status_item id subject status) =
    element "li" []
      (plain "p" subject ▹ plain "p" (str_append "Status: " (status_label status)) ▹ nothing)

abbrev pub live_queue : List DemoQueueItem → Html
unfolding each status_label
live_queue [] =
    plain "p"
      "No requests in the last 24 hours - they're purged on a schedule (F17). Submit the form to see one appear here."
live_queue (item ∷ items) = element "ul" [] (each demo_card (item ∷ items))

abbrev demo_name : Option DemoOrg → String
demo_name none = "the demo"
demo_name (some o) = o.name

abbrev pub demo_form : Option DemoOrg → String → Html
unfolding public_form
demo_form none key = plain "p" "The demo isn't configured right now."
demo_form (some o) key =
    element "div" [] (public_form o.slug o.name key initial_submit_state false ▹ nothing)

abbrev link : String → String → Html
link href label = element "a" (attr "href" href ∷ []) (text label ▹ nothing)

unfoldable pub home_markup : Option DemoOrg → List DemoQueueItem → String → Html
unfolding public_form each status_label
home_markup org queue key = element "main" [] (
    plain "h1" "frontdesk"
    ▹ plain "p"
        "An AI-assisted request desk for small businesses: a visitor submits a request, an LLM triages it and drafts a cited reply from the business's own documents, and staff approve, edit, or reject before anything goes out."
    ▹ element "nav" (attr "aria-label" "Project links" ∷ []) (
        link "https://github.com/jason-trentcyber/frontdesk-intake" "Repo"
        ▹ text " · "
        ▹ link "https://github.com/users/jason-trentcyber/projects/1" "Board"
        ▹ text " · "
        ▹ link "https://github.com/jason-trentcyber/frontdesk-intake/blob/main/REQUIREMENTS.md"
            "Docs"
        ▹ nothing)
    ▹ element "div" [] (
        titled "demo-form-heading" (str_append "Try it - " (demo_name org))
          (demo_form org key ▹ nothing)
        ▹ titled "demo-queue-heading" "Live queue" (live_queue queue ▹ nothing)
        ▹ nothing)
    ▹ nothing)

abbrev demo_queue_of : Postgres → Option DemoOrg → Database → Outcome (List DemoQueueItem)
unfolding get_demo_queue
demo_queue_of pg none s = ok []
demo_queue_of pg (some o) s = get_demo_queue pg o.id s

abbrev with_queue : Option DemoOrg → Outcome String → Outcome (List DemoQueueItem) → Outcome Page
unfolding home_markup
with_queue org key (err e) = err e
with_queue org (err e) (ok queue) = err e
with_queue org (ok key) (ok queue) = ok (rendered (home_markup org queue key))

unfoldable pub home_page : Postgres → Environment → Database → Outcome Page
unfolding home_markup get_demo_queue get_demo_org load_turnstile_site_key
home_page pg env s =
    let org = get_demo_org s in
    with_queue org (load_turnstile_site_key env) (demo_queue_of pg org s)

abbrev contact_markup : Org → String → Html
unfolding public_form
contact_markup org key = element "main" [] (
    plain "h1" (str_append "Contact " org.name)
    ▹ plain "p" "Send a message and we'll get back to you."
    ▹ element "div" [] (public_form org.slug org.name key initial_submit_state false ▹ nothing)
    ▹ nothing)

abbrev contact_page : Org → Outcome String → Outcome Page
unfolding public_form
contact_page org (err e) = err e
contact_page org (ok key) = ok (rendered (contact_markup org key))

-- /r/<slug>, for any org
unfoldable pub public_form_page : Environment → String → Database → Outcome Page
unfolding public_form load_turnstile_site_key
public_form_page env slug s = elim (first (select_orgs (λ o. o.slug == slug) s)) [
  | none ↦ ok Page.not_found
  | some org ↦ contact_page org (load_turnstile_site_key env)
]

-- the layout of /app around a page
unfoldable pub app_layout : Postgres → Option String → Database → Page → Page
app_layout pg session s children = elim (require_session_or_redirect pg session s) [
  | Visitor.redirected url ↦ moved url
  | Visitor.not_a_member ↦ rendered (
      element "main" [] (
        plain "h1" "Not a member"
        ▹ element "div" [] (
            plain "p"
              "Your account isn't a member of any organization here. Ask your organization's owner to add you."
            ▹ nothing)
        ▹ nothing))
  | Visitor.member m ↦ children
]
