-- ===== src/Web/Env.antt =====
-- web/src/lib/env.ts: the three loaders of the web process, over its environment variables.
use frontdesk_intake.Prelude.{String, Option, none, some, is_empty, if◌then◌else◌}
use frontdesk_intake.Database.Tx.{Outcome, ok, err, thrown}

abbrev pub Environment : Type 0
Environment = String → Option String

-- `if (!value) throw`: an empty text counts as missing
abbrev pub required : Option String → String → Outcome String
required none message = err (thrown message)
required (some value) message = if is_empty value then err (thrown message) else ok value

-- `a ?? b`
abbrev pub or_else : Option String → Option String → Option String
or_else none b = b
or_else (some a) b = some a

unfoldable pub load_database_url : Environment → Outcome String
load_database_url source =
    required (or_else (source "DATABASE_APP_URL") (source "DATABASE_URL"))
      "DATABASE_URL (or DATABASE_APP_URL locally) is required"

unfoldable pub load_api_origin : Environment → Outcome String
load_api_origin source = required (source "API_ORIGIN") "API_ORIGIN is required"

unfoldable pub load_turnstile_site_key : Environment → Outcome String
load_turnstile_site_key source =
    required (source "TURNSTILE_SITE_KEY") "TURNSTILE_SITE_KEY is required"
