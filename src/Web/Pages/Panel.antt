-- ===== src/Web/Pages/Panel.antt =====
-- web/src/app/app/[id]/page.tsx: the panel of actions on an open request.
use frontdesk_intake.Web.Html.{
  titled, plain, action, Html, Nodes, text, element, nothing, ◌▹◌, attr, flag, approve_form,
  edit_form, reject_form,
}
use frontdesk_intake.Prelude.{String, Option, none, some, [], ◌∷◌}
use frontdesk_intake.Web.RequestDetail.{RequestDetailDraft}

abbrev pub submit : String → Html
submit label = element "button" (attr "type" "submit" ∷ []) (text label ▹ nothing)

abbrev pub body_of : Option RequestDetailDraft → String
body_of none = ""
body_of (some d) = d.body

abbrev pub approve_as_drafted : String → Option RequestDetailDraft → Nodes
approve_as_drafted id none = nothing
approve_as_drafted id (some d) =
    element "form" (action (approve_form id) ∷ []) (submit "Approve as drafted" ▹ nothing) ▹ nothing

unfoldable pub actions : String → Option RequestDetailDraft → Html
actions id latest = titled "actions-heading" "Actions" (
    element "div" [] (
      element "div" [] (
        plain "h3" "Edit & approve"
        ▹ element "form" (action (edit_form id) ∷ []) (
            element "div" [] (
              element "label" (attr "for" "edit-body" ∷ []) (text "Reply text" ▹ nothing)
              ▹ element "textarea"
                  (attr "id" "edit-body"
                    ∷ attr "name" "body"
                    ∷ flag "required"
                    ∷ attr "rows" "6"
                    ∷ [])
                  (text (body_of latest) ▹ nothing)
              ▹ nothing)
            ▹ submit "Save & approve"
            ▹ nothing)
        ▹ approve_as_drafted id latest)
      ▹ element "div" [] (
          plain "h3" "Reject"
          ▹ element "form" (action (reject_form id) ∷ []) (
              element "div" [] (
                element "label" (attr "for" "reject-reason" ∷ []) (text "Reason" ▹ nothing)
                ▹ element "textarea"
                    (attr "id" "reject-reason"
                      ∷ attr "name" "reason"
                      ∷ flag "required"
                      ∷ attr "rows" "3"
                      ∷ [])
                    nothing
                ▹ nothing)
              ▹ submit "Reject"
              ▹ nothing)
          ▹ nothing)
      ▹ nothing)
    ▹ nothing)
