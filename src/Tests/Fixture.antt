-- ===== src/Tests/Fixture.antt =====
-- A small database: a demo org with a drafted and an old request, another org, and the calls that
-- the tests make.
use frontdesk_intake.Prelude.{
  ℕ, String, true, false, Option, none, some, [], ◌∷◌, ◌==◌, if◌then◌else◌, nat_beq,
}
use frontdesk_intake.Json.{null, arr, nil}
use frontdesk_intake.Database.Enums.{owner, staff, RequestSource, RequestStatus}
use frontdesk_intake.Database.Rows.{Org, Request, Draft, Database}
use frontdesk_intake.Database.Tx.{Supply}
use frontdesk_intake.Web.Form.{FormData, text, absent}

abbrev pub dental : Org
dental = record {
  id = "dental";
  slug = "bright-smile";
  name = "Bright Smile";
  is_demo = true;
  daily_token_budget = 1000;
  settings = null;
  created_at = 0;
}

abbrev pub legal : Org
legal = record {
  id = "legal";
  slug = "harbor";
  name = "Harbor Legal";
  is_demo = false;
  daily_token_budget = 1000;
  settings = null;
  created_at = 0;
}

abbrev pub request_row : String → String → String → RequestStatus → ℕ → Request
request_row org_id id token status created_at = record {
  id = id;
  org_id = org_id;
  source = RequestSource.form;
  requester_name = none;
  requester_email = none;
  subject = "Toothache";
  body = "It hurts.";
  tracking_token = token;
  status = status;
  category = none;
  urgency = none;
  summary = none;
  lane = none;
  reply_text = none;
  resolved_at = none;
  created_at = created_at;
}

abbrev pub draft_row : String → String → String → ℕ → String → Draft
draft_row org_id request_id id version body = record {
  id = id;
  org_id = org_id;
  request_id = request_id;
  version = version;
  body = body;
  citations = arr nil;
  confidence = "0.9";
  model = "m";
  prompt_version = "1";
  tokens_in = 1;
  tokens_out = 1;
  created_at = 0;
}

abbrev pub clinic : Database
clinic = record {
  orgs = dental ∷ legal ∷ [];
  org_members =
      record {
        id = "m1";
        org_id = "dental";
        email = "ann@dental.test";
        role = staff;
        created_at = 0;
      }
      ∷ record {
        id = "m2";
        org_id = "legal";
        email = "lee@legal.test";
        role = owner;
        created_at = 0;
      }
      ∷ [];
  api_keys =
      record {
        id = "k1";
        org_id = "dental";
        key_hash = "hash";
        prefix = "fd";
        name = "key";
        last_used_at = none;
        revoked_at = none;
        created_at = 0;
      }
      ∷ [];
  requests =
      request_row "dental" "r1" "t1" RequestStatus.drafted 50
      ∷ request_row "legal" "r2" "t2" RequestStatus.drafted 5
      ∷ request_row "dental" "r3" "t3" RequestStatus.received 5
      ∷ [];
  drafts =
      draft_row "dental" "r1" "d1" 1 "Come at nine."
      ∷ draft_row "legal" "r2" "d2" 1 "We will call."
      ∷ [];
  actions = [];
  documents = [];
  chunks = [];
}

abbrev pub supply : Supply
supply = record { new_date = 100; now = 100; uuid = λ n. if nat_beq n 0 then "u0" else "u1" }

abbrev pub ann : Option String
ann = some "ann@dental.test"

abbrev pub reply_form : FormData
reply_form name =
    if name == "body"
    then text " Come at ten. "
    else if name == "reason"
    then text "spam"
    else absent
