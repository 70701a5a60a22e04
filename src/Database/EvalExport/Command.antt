-- ===== src/Database/EvalExport/Command.antt =====
-- db/src/eval-export.ts: the arguments of the command line, and the run that they ask for. Files are
-- a parameter: what is written, and where.
use frontdesk_intake.Database.EvalExport.{Bool, CandidateExample, export_candidates}
use frontdesk_intake.Database.Statements.{select_orgs}
use frontdesk_intake.Prelude.{
  String, Option, none, some, List, [], ◌∷◌, ◌==◌, is_empty, first, if◌then◌else◌,
}
use frontdesk_intake.Database.Rows.{Database, Org}
use frontdesk_intake.Database.Tx.{Outcome, ok, err, thrown}
use frontdesk_intake.Database.Order.{Postgres}
use Prim.Native.String.{◌++◌ as str_append}

pub record ExportArgs : Type 0 where
  pub slug : String
  pub out_dir : String

abbrev usage : String
usage = "usage: pnpm eval:export --org <slug> [--out <dir>]"

-- `if (!slug)` at the end of the loop
abbrev given_slug : Option String → String → Outcome ExportArgs
given_slug none dir = err (thrown usage)
given_slug (some slug) dir =
    if is_empty slug then err (thrown usage) else ok (record { slug = slug; out_dir = dir })

-- The loop over the arguments; an option takes the next one with it.
unfoldable pub args_from : List String → Option String → String → Outcome ExportArgs
args_from [] slug dir = given_slug slug dir
args_from (arg ∷ []) slug dir =
    if arg == "--org"
    then given_slug none dir
    else if arg == "--out"
    then given_slug slug dir
    else err (thrown (str_append "unknown argument " arg))
args_from (arg ∷ value ∷ rest) slug dir =
    let as_org = args_from rest (some value) dir in
    let as_out = args_from rest slug value in
    if arg == "--org"
    then as_org
    else if arg == "--out"
    then as_out
    else err (thrown (str_append "unknown argument " arg))

-- the file that the job writes, below a directory that it makes
pub record Written : Type 0 where
  pub dir : String
  pub file : String
  pub examples : List CandidateExample

abbrev written : ExportArgs → Outcome (List CandidateExample) → Outcome Written
written args (err e) = err e
written args (ok examples) =
    ok (record { dir = args.out_dir; file = str_append args.slug ".jsonl"; examples = examples })

module _ (pg : Postgres) (text_le : String → String → Bool) where
  abbrev for_slug : ExportArgs → Option Org → Database → Outcome Written
  unfolding export_candidates
  for_slug args none s = err (thrown (str_append "no org with slug " args.slug))
  for_slug args (some org) s = written args (export_candidates pg text_le org.id s)

  abbrev with_args : Outcome ExportArgs → Database → Outcome Written
  unfolding export_candidates
  with_args (err e) s = err e
  with_args (ok args) s = for_slug args (first (select_orgs (λ o. o.slug == args.slug) s)) s

  -- the command, given the directory that it writes to by default
  unfoldable pub eval_export : List String → String → Database → Outcome Written
  unfolding args_from export_candidates
  eval_export argv default_dir s = with_args (args_from argv none default_dir) s
