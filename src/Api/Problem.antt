-- ===== src/Api/Problem.antt =====
-- api/src/problem.ts: problem details of RFC 9457.
use frontdesk_intake.Prelude.{ℕ, String, Option, none, some, is_empty, if◌then◌else◌}

pub record Problem : Type 0 where
  pub type : String
  pub title : String
  pub status : ℕ
  pub detail : Option String

-- An empty detail is left out.
unfoldable pub problem : ℕ → String → String → Problem
problem status title detail = record {
  type = "about:blank";
  title = title;
  status = status;
  detail = if is_empty detail then none else some detail;
}
