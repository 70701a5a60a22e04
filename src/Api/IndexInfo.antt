-- ===== src/Api/IndexInfo.antt =====
-- api/src/routes/index-info.ts: the public facts on the index of a demo org.
use frontdesk_intake.Prelude.{
  arith, ◌&&◌, filter-congr, true, ℕ, String, false, Option, none, some, ◌==◌, ◌≡◌, refl, sym, ap,
  ◌∙◌, first, filter, length, if◌then◌else◌,
}
use Prim.Native.String.{◌++◌ as str_append}
use frontdesk_intake.Database.Rows.{Database, Org}
use frontdesk_intake.Database.Tx.{Outcome, ok, err, Error, Tx, pure, ◌>>=◌}
use frontdesk_intake.Database.Statements.{visible, select_orgs, select_documents, select_chunks}
use frontdesk_intake.Database.Client.{for_org}
use frontdesk_intake.Api.Problem.{Problem, problem}

-- INDEX_INFO_STATIC
pub record IndexInfoStatic : Type 0 where
  pub embedding_model : String
  pub embedding_dimensions : ℕ
  pub strategy : String
  pub target_tokens : ℕ
  pub overlap_tokens : ℕ
  pub index_type : String
  pub distance : String
  pub m : ℕ
  pub ef_construction : ℕ

abbrev pub index_info_static : IndexInfoStatic
index_info_static = record {
  embedding_model = "BAAI/bge-small-en-v1.5";
  embedding_dimensions = 384;
  strategy = "markdown-aware";
  target_tokens = 400;
  overlap_tokens = 60;
  index_type = "hnsw";
  distance = "cosine";
  m = 16;
  ef_construction = 64;
}

pub record Counts : Type 0 where
  pub document_count : ℕ
  pub chunk_count : ℕ

pub data InfoReply : Type 0 where
  info : IndexInfoStatic → Counts → InfoReply
  no_info : Problem → InfoReply
  crashed : Error → InfoReply

-- SELECT count(*), twice
unfoldable pub count_rows : String → Tx Counts
count_rows org_id = do
  documents ← select_documents (λ d. d.org_id == org_id)
  chunks ← select_chunks (λ c. c.org_id == org_id)
  pure (record { document_count = length documents; chunk_count = length chunks })

abbrev pub counted : Outcome Counts → InfoReply
counted (ok c) = info index_info_static c
counted (err e) = crashed e

abbrev pub for_demo : String → Option Org → Database → InfoReply
for_demo slug none s = no_info (problem 404 "Not Found" (str_append "no such org: " slug))
for_demo slug (some org) s =
    if org.is_demo
    then counted (for_org org.id count_rows s).0
    else no_info (problem 404 "Not Found" (str_append "no such org: " slug))

unfoldable pub index_info : String → Database → InfoReply
unfolding count_rows
index_info slug s = for_demo slug (first (select_orgs (λ o. o.slug == slug) s)) s

-- The reply on an org that exists but is no demo org is the one on an org that does not exist: for
-- any two databases, the one with such an org for the slug and the other with none.
pub index_info-private :
    (slug : String) (s t : Database) (org : Org)
    → first (filter (λ o. o.slug == slug) s.orgs) ≡ some org
    → org.is_demo ≡ false
    → first (filter (λ (o : Org). o.slug == slug) t.orgs) ≡ none
    → index_info slug s ≡ index_info slug t
unfolding index_info select_orgs
index_info-private slug s t org here private_one missing =
    ap (λ o. for_demo slug o s) here
    ∙ rw private_one refl
    ∙ sym (ap (λ o. for_demo slug o t) missing)

-- For a demo org the reply counts the documents and the chunks of that org.
pub index_info-counts :
    (slug : String) (s : Database) (org : Org)
    → first (filter (λ o. o.slug == slug) s.orgs) ≡ some org
    → org.is_demo ≡ true
    → index_info slug s
      ≡ info index_info_static (record {
        document_count = length (filter (λ d. d.org_id == org.id) s.documents);
        chunk_count = length (filter (λ c. c.org_id == org.id) s.chunks);
      })
unfolding index_info select_orgs for_org count_rows select_documents select_chunks ◌>>=◌ pure
index_info-counts slug s org here demo =
    ap (λ o. for_demo slug o s) here
    ∙ rw demo (
        rw
          (filter-congr (λ d. visible (some org.id) d.org_id && d.org_id == org.id)
            (λ d. d.org_id == org.id) s.documents (λ d. ground arith))
          (rw
            (filter-congr (λ c. visible (some org.id) c.org_id && c.org_id == org.id)
              (λ c. c.org_id == org.id) s.chunks (λ c. ground arith))
            refl))
