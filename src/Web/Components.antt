-- ===== src/Web/Components.antt =====
-- web/src/components: the badges and the public form.
use frontdesk_intake.Web.Html.{
  action, Attribute, Html, Nodes, text, element, nothing, ◌▹◌, ◌⊕◌, attr, flag, submit_form, when,
}
use frontdesk_intake.Prelude.{
  Option, none, some, String, Bool, true, false, List, [], ◌∷◌, if◌then◌else◌,
}
use Prim.Native.String.{◌++◌ as str_append}
use frontdesk_intake.Database.Enums.{
  RequestStatus, received, triaging, drafted, needs_human, approved, rejected, status_text,
}
use frontdesk_intake.Web.PublicForm.{SubmitState, SubmitStatus}

-- Here the colours are kept, as the component's argument.
unfoldable pub badge : String → Html → Html
badge class child = element "span" (attr "class" class ∷ []) (child ▹ nothing)

abbrev pub status_style : RequestStatus → String
status_style received = "bg-slate-100 text-slate-800"
status_style triaging = "bg-blue-100 text-blue-800"
status_style drafted = "bg-blue-100 text-blue-800"
status_style needs_human = "bg-amber-100 text-amber-800"
status_style approved = "bg-green-100 text-green-800"
status_style rejected = "bg-red-100 text-red-800"

unfoldable pub status_badge : RequestStatus → Html
unfolding badge status_text
status_badge status = badge (status_style status) (text (status_text status))

-- `state.status === "error"`
abbrev pub is_error : SubmitState → Bool
is_error state = elim state.status [ SubmitStatus.error ↦ true | _ ↦ false ]

abbrev message_nodes : Option String → Nodes
message_nodes none = nothing
message_nodes (some message) = text message ▹ nothing

abbrev form_field : String → String → String → String → List Attribute → Html
form_field prefix name label tag attributes = element "div" [] (
    element "label" (attr "for" (str_append prefix name) ∷ []) (text label ▹ nothing)
    ▹ element tag (attr "id" (str_append prefix name) ∷ attributes) nothing
    ▹ nothing)

-- The form in a state of its action, whether an answer is pending.
unfoldable pub public_form : String → String → String → SubmitState → Bool → Html
unfolding ◌⊕◌
public_form slug org_name turnstile_site_key state pending =
    let prefix = str_append "public-form-" slug in
    element "form"
      (action (submit_form slug) ∷ attr "aria-label" (str_append "Contact " org_name) ∷ [])
      ((form_field prefix "-name" "Name (optional)" "input"
            (attr "name" "requesterName" ∷ attr "type" "text" ∷ attr "autocomplete" "name" ∷ [])
          ▹ form_field prefix "-email" "Email (optional)" "input" (
              attr "name" "requesterEmail" ∷ attr "type" "email" ∷ attr "autocomplete" "email" ∷ [])
          ▹ form_field prefix "-subject" "Subject" "input"
              (attr "name" "subject" ∷ attr "type" "text" ∷ flag "required" ∷ [])
          ▹ form_field prefix "-body" "Message" "textarea"
              (attr "name" "body" ∷ flag "required" ∷ attr "rows" "4" ∷ [])
          ▹ element "script"
              (attr "src" "https://challenges.cloudflare.com/turnstile/v0/api.js"
                ∷ flag "async"
                ∷ flag "defer"
                ∷ [])
              nothing
          ▹ element "div"
              (attr "class" "cf-turnstile"
                ∷ attr "data-sitekey" turnstile_site_key
                ∷ attr "data-appearance" "interaction-only"
                ∷ [])
              nothing
          ▹ nothing)
        ⊕ when (is_error state)
            (element "p" (attr "role" "alert" ∷ []) (message_nodes state.message) ▹ nothing)
        ⊕ (element "button" (attr "type" "submit" ∷ (if pending then flag "disabled" ∷ [] else []))
              (text (if pending then "Sending…" else "Send") ▹ nothing)
            ▹ nothing))
