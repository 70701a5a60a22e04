-- ===== src/Api/Env.antt =====
-- api/src/env.ts and queue/create.ts: the process's configuration and the choice of its two queues.
-- What zod makes of the variables is a parameter.
use frontdesk_intake.Prelude.{
  ℕ, String, Bool, true, false, ◌||◌, Option, none, some, List, [], ◌∷◌, ◌≡◌, refl, sym, subst,
  is_empty, arith, if◌then◌else◌, Bool-cases, Option-cases, inl, inr,
}
use Prim.Native.String.{◌++◌ as str_append}
use frontdesk_intake.Database.Tx.{Outcome, ok, err, thrown}

pub data QueueProvider : Type 0 where
  pgmq sqs : QueueProvider

pub record RawEnv : Type 0 where
  pub port : ℕ
  pub database_url : Option String
  pub database_app_url : Option String
  pub queue_provider : QueueProvider
  pub turnstile_secret_key : Option String
  pub public_web_origin : String
  pub aws_endpoint_url : Option String
  pub aws_region : Option String
  pub sqs_queue_url : Option String
  pub sqs_dlq_url : Option String
  pub ingest_sqs_queue_url : Option String
  pub ingest_sqs_dlq_url : Option String

pub record Env : Type 0 where
  pub raw : RawEnv
  pub database_url : String

pub data ParsedEnv : Type 0 where
  valid : RawEnv → ParsedEnv
  invalid : String → ParsedEnv

-- `!value`
abbrev pub is_missing : Option String → Bool
is_missing none = true
is_missing (some value) = is_empty value

abbrev runtime_url : RawEnv → Option String
runtime_url env = elim env.database_app_url [ none ↦ env.database_url | some url ↦ some url ]

abbrev sqs_keys : RawEnv → List (String × Option String)
sqs_keys env =
    ("AWS_REGION", env.aws_region)
    ∷ ("SQS_QUEUE_URL", env.sqs_queue_url)
    ∷ ("SQS_DLQ_URL", env.sqs_dlq_url)
    ∷ ("INGEST_SQS_QUEUE_URL", env.ingest_sqs_queue_url)
    ∷ ("INGEST_SQS_DLQ_URL", env.ingest_sqs_dlq_url)
    ∷ []

-- the first key of the loop that is missing
abbrev pub first_missing : List (String × Option String) → Option String
first_missing [] = none
first_missing ((key, value) ∷ rest) =
    let later = first_missing rest in if is_missing value then some key else later

abbrev pub checked_keys : QueueProvider → RawEnv → Option String
checked_keys pgmq env = none
checked_keys sqs env = first_missing (sqs_keys env)

abbrev no_database : Outcome Env
no_database = err (thrown "DATABASE_URL (or DATABASE_APP_URL locally) is required")

abbrev with_url : RawEnv → Option String → Outcome Env
with_url env none = no_database
with_url env (some url) =
    if is_empty url then no_database else elim (checked_keys env.queue_provider env) [
      | some key ↦ err (thrown (str_append key " is required when QUEUE_PROVIDER=sqs"))
      | none ↦ ok (record { raw = env; database_url = url })
    ]

unfoldable pub load_env : ParsedEnv → Outcome Env
load_env (invalid issues) = err (thrown (str_append "Invalid environment:\n" issues))
load_env (valid env) = with_url env (runtime_url env)

pub data ChosenQueue : Type 0 where
  postgres_queue : String → ChosenQueue
  sqs_queue : String → String → String → Option String → ChosenQueue

abbrev missing_sqs : Outcome ChosenQueue
missing_sqs =
    err (thrown "SQS_QUEUE_URL, SQS_DLQ_URL, and AWS_REGION are required when QUEUE_PROVIDER=sqs")

abbrev sqs_with :
    Option String → Option String → Option String → Option String → Outcome ChosenQueue
sqs_with (some url) (some dlq) (some region) endpoint =
    if is_empty url || (is_empty dlq || is_empty region)
    then missing_sqs
    else ok (sqs_queue url dlq region endpoint)
sqs_with _ _ _ endpoint = missing_sqs

unfoldable pub create_queue_for :
    QueueProvider → RawEnv → String → Option String → Option String → Outcome ChosenQueue
create_queue_for pgmq env name url dlq = ok (postgres_queue name)
create_queue_for sqs env name url dlq = sqs_with url dlq env.aws_region env.aws_endpoint_url

unfoldable pub create_queue : Env → Outcome ChosenQueue
unfolding create_queue_for
create_queue env =
    create_queue_for env.raw.queue_provider env.raw "frontdesk_triage" env.raw.sqs_queue_url
      env.raw.sqs_dlq_url

unfoldable pub create_ingest_queue : Env → Outcome ChosenQueue
unfolding create_queue_for
create_ingest_queue env =
    create_queue_for env.raw.queue_provider env.raw "frontdesk_ingest" env.raw.ingest_sqs_queue_url
      env.raw.ingest_sqs_dlq_url

abbrev pub Created : Outcome ChosenQueue → Type 0
Created r = (q : ChosenQueue) × (r ≡ ok q)

ok_raw :
    (raw : RawEnv) (url : String) (env : Env)
    → ok (record { raw = raw; database_url = url }) ≡ ok env
    → env.raw ≡ raw
ok_raw raw url env h = ground (arith, h)

with_url-ok :
    (raw : RawEnv) (url : Option String) (env : Env)
    → with_url raw url ≡ ok env
    → (env.raw ≡ raw) × (checked_keys raw.queue_provider raw ≡ none)
with_url-ok raw none env h = absurd (cc (h))
with_url-ok raw (some url) env h = elim (Bool-cases (is_empty url)) [
  | inl empty ↦ absurd (cc (rw empty at h))
  | inr given ↦ elim (Option-cases (checked_keys raw.queue_provider raw)) [
    | inl complete ↦ (ok_raw raw url env (rw complete at (rw given at h)), complete)
    | inr (key, missing) ↦ absurd (cc (rw missing at (rw given at h)))
  ]
]

load_env-ok :
    (p : ParsedEnv) (env : Env)
    → load_env p ≡ ok env
    → checked_keys env.raw.queue_provider env.raw ≡ none
unfolding load_env
load_env-ok (invalid issues) env h = absurd (cc (h))
load_env-ok (valid raw) env h =
    let (is_raw, complete) = with_url-ok raw (runtime_url raw) env h in
    subst (λ x. checked_keys x.queue_provider x ≡ none) (sym is_raw) complete

sqs_with-Created :
    (url dlq region endpoint : Option String)
    → is_missing url ≡ false
    → is_missing dlq ≡ false
    → is_missing region ≡ false
    → Created (sqs_with url dlq region endpoint)
sqs_with-Created none dlq region endpoint h k l = absurd (cc (h))
sqs_with-Created (some url) none region endpoint h k l = absurd (cc (k))
sqs_with-Created (some url) (some dlq) none endpoint h k l = absurd (cc (l))
sqs_with-Created (some url) (some dlq) (some region) endpoint h k l =
    (sqs_queue url dlq region endpoint, rw h (rw k (rw l refl)))

create_queue_for-Created :
    (provider : QueueProvider) (raw : RawEnv) (name other : String)
    → checked_keys provider raw ≡ none
    → Created (create_queue_for provider raw name raw.sqs_queue_url raw.sqs_dlq_url)
      × Created
          (create_queue_for provider raw other raw.ingest_sqs_queue_url raw.ingest_sqs_dlq_url)
unfolding create_queue_for
create_queue_for-Created pgmq raw name other h =
    ((postgres_queue name, refl), (postgres_queue other, refl))
create_queue_for-Created sqs raw name other h = (
  sqs_with-Created raw.sqs_queue_url raw.sqs_dlq_url raw.aws_region raw.aws_endpoint_url
      (ground (arith, h)) (ground (arith, h)) (ground (arith, h)),
  sqs_with-Created raw.ingest_sqs_queue_url raw.ingest_sqs_dlq_url raw.aws_region
      raw.aws_endpoint_url (ground (arith, h)) (ground (arith, h)) (ground (arith, h)),
)

-- Once the environment was loaded, both queues can be created: no variable that they need is
-- missing.
pub load_env-Created :
    (p : ParsedEnv) (env : Env)
    → load_env p ≡ ok env
    → Created (create_queue env) × Created (create_ingest_queue env)
unfolding create_queue create_ingest_queue
load_env-Created p env h =
    create_queue_for-Created env.raw.queue_provider env.raw _ _ (load_env-ok p env h)
