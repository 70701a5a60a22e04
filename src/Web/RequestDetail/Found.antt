-- ===== src/Web/RequestDetail/Found.antt =====
-- What the detail page of a request shows to a member of its org.
use frontdesk_intake.Prelude.{
  String, true, ◌&&◌, Option, none, some, List, [], ◌∷◌, ◌==◌, ◌≡◌, refl, ap, ◌∙◌, any, All, first,
  take, filter, filter-congr, map, arith, eq_refl, Option-cases, inl, inr,
}
use frontdesk_intake.Database.Rows.{Database, Request, Draft, Chunk}
use frontdesk_intake.Database.Tx.{ok, ◌>>=◌, pure}
use frontdesk_intake.Database.Statements.{
  select_requests, select_drafts, select_actions, select_chunks, visible,
}
use frontdesk_intake.Database.Order.{Postgres}
use frontdesk_intake.Database.Client.{for_org}
use frontdesk_intake.Web.Staff.{is_request, is_draft_of, version_desc}
use frontdesk_intake.Web.Staff.Reads.{request_in, latest_in}
use frontdesk_intake.Web.RequestDetail.{
  RequestDetail, RequestDetailView, RequestDetailDraft, CitationSnippet, not_found, found,
  detail_request, detail_draft, detail_action, by_id, snippets, is_cited, citation_snippets,
  select_cited, is_action_of, action_desc, detail_of, request_detail_tx, get_request_detail,
}

abbrev pub citations_of : Option RequestDetailDraft → List String
citations_of none = []
citations_of (some d) = d.citations

module _ (pg : Postgres) (o id : String) (s : Database) where
  abbrev draft_list : List RequestDetailDraft
  draft_list = map detail_draft (pg.order_by version_desc (filter (is_draft_of o id) s.drafts))

  abbrev cited_chunks : List String → List CitationSnippet
  cited_chunks ids = snippets (filter (is_cited o ids) s.chunks) ids

  abbrev shown : Option Request → RequestDetailView
  shown none = not_found
  shown (some r) = found (record {
    request = detail_request r;
    drafts = draft_list;
    latest_draft = first draft_list;
    citations = cited_chunks (citations_of (first draft_list));
    action_history =
        map detail_action (pg.order_by action_desc (filter (is_action_of o id) s.actions));
  })

  select_cited-eq : (ids : List String) → select_cited o ids (some o) s ≡ (ok (cited_chunks ids), s)
  unfolding select_cited snippets select_chunks ◌>>=◌ pure
  select_cited-eq [] = refl
  select_cited-eq (x ∷ xs) =
      ap (λ (rows : List Chunk). (ok (snippets rows (x ∷ xs)), s))
        (filter-congr (λ c. visible (some o) c.org_id && is_cited o (x ∷ xs) c)
          (is_cited o (x ∷ xs)) s.chunks (λ c. ground arith))

  citation_snippets-eq :
      (latest : Option RequestDetailDraft)
      → citation_snippets o latest (some o) s ≡ (ok (cited_chunks (citations_of latest)), s)
  unfolding citation_snippets snippets pure
  citation_snippets-eq none = refl
  citation_snippets-eq (some d) = select_cited-eq d.citations

  detail_of-eq : (row : Option Request) → detail_of pg o id row (some o) s ≡ (ok (shown row), s)
  unfolding detail_of select_drafts select_actions ◌>>=◌ pure
  detail_of-eq none = refl
  detail_of-eq (some r) =
      rw
        (filter-congr (λ d. visible (some o) d.org_id && is_draft_of o id d) (is_draft_of o id)
          s.drafts (λ d. ground arith))
        (rw (citation_snippets-eq (first draft_list)) (
          rw
            (filter-congr (λ a. visible (some o) a.org_id && is_action_of o id a)
              (is_action_of o id) s.actions (λ a. ground arith))
            refl))

  get_request_detail-eq : get_request_detail pg o id s ≡ ok (shown (request_in o id s))
  unfolding get_request_detail for_org request_detail_tx select_requests ◌>>=◌
  get_request_detail-eq =
      rw
        (
          filter-congr (λ r. visible (some o) r.org_id && is_request o id r) (is_request o id)
              s.requests (λ r. ground arith),
          get_request_detail,
        )
        (rw (detail_of-eq (request_in o id s)) refl)

  by_id-source :
      (rows : List Chunk) (key text : String)
      → by_id rows key ≡ some text
      → any (λ c. c.id == key && c.text == text) rows ≡ true
  unfolding by_id
  by_id-source [] key text h = cc
  by_id-source (c ∷ rows) key text h = ground (arith, h, by_id-source rows key text, eq_refl text)

  any-filter_own :
      (ids : List String) (key text : String) (rows : List Chunk)
      → any (λ c. c.id == key && c.text == text) (filter (is_cited o ids) rows) ≡ true
      → any (λ c. c.org_id == o && (c.id == key && c.text == text)) rows ≡ true
  any-filter_own ids key text [] h = cc
  any-filter_own ids key text (c ∷ rows) h = ground (arith, h, any-filter_own ids key text rows)

  -- the snippet is the text of a chunk of the org
  abbrev pub IsOwnChunk : CitationSnippet → Type 0
  IsOwnChunk c =
      any (λ k. k.org_id == o && (k.id == c.chunk_id && k.text == c.text)) s.chunks ≡ true

  snippets-own :
      (all_ids ids : List String)
      → All IsOwnChunk (snippets (filter (is_cited o all_ids) s.chunks) ids)
  unfolding snippets
  snippets-own all_ids [] = tt
  snippets-own all_ids (x ∷ xs) =
      elim (Option-cases (by_id (filter (is_cited o all_ids) s.chunks) x)) [
        | inl missing ↦ rw (missing, All) (snippets-own all_ids xs)
        | inr (text, here) ↦
            rw (here, All)
              (
                any-filter_own all_ids x text s.chunks
                    (by_id-source (filter (is_cited o all_ids) s.chunks) x text here),
                snippets-own all_ids xs,
              )
      ]

  abbrev pub detail_of_draft : Option Draft → Option RequestDetailDraft
  detail_of_draft none = none
  detail_of_draft (some d) = some (detail_draft d)

  first-detail :
      (rows : List Draft) → first (map detail_draft rows) ≡ detail_of_draft (first (take 1 rows))
  first-detail [] = refl
  first-detail (d ∷ rows) = refl

  -- A request of the caller's own org is shown as it is; the current draft of the page is the one
  -- that an approval would publish, and each snippet is the text of a chunk of the same org.
  pub get_request_detail-found :
      (r : Request)
      → request_in o id s ≡ some r
      → (v : RequestDetail) × (get_request_detail pg o id s ≡ ok (found v))
        × (v.request ≡ detail_request r)
        × (v.latest_draft ≡ detail_of_draft (latest_in pg o id s))
        × All IsOwnChunk v.citations
  get_request_detail-found r here = (
    _,
    get_request_detail-eq ∙ ap (λ x. ok (shown x)) here,
    refl,
    first-detail (pg.order_by version_desc (filter (is_draft_of o id) s.drafts)),
    snippets-own (citations_of (first draft_list)) (citations_of (first draft_list)),
  )
