-- ===== src/ConfigTest/Alone.antt =====
-- An environment of internal/config/configtest/env.go with one variable changed, as FromEnv of
-- internal/config/config.go reads it.
use overload_party_matchmaki.Prelude.{
  ◌≡◌, refl, Text, codes, text_eq, ℤ, pos, [], ◌∷◌, Result, ok, err, Result-cases, inl, inr,
  Bool-cases, if◌then◌else◌, text_eq_sound,
}
use overload_party_matchmaki.Std.Strings.{is_blank}
use overload_party_matchmaki.Std.Decimal.{parse_int}
use overload_party_matchmaki.Config.{
  Config, ConfigError, Problem, app_env_missing, app_env_invalid, app_env_local, app_env_production,
  problems, from_env, readings, seconds, max_port, no_upper_bound, max_duration_seconds,
  read_required_string, read_positive_int, check_int, finish, config_of, to_int64,
}
use overload_party_matchmaki.ConfigTest.{Env, set_env, set_all, set_value, unset}

-- What the tests load when nothing is overridden.
abbrev pub valid_config : Config
valid_config = record {
  app_env = codes "local";
  port = pos 8080;
  redis_url = codes "redis://dummy-valkey:6379";
  google_cloud_project_id = codes "dummy-project";
  match_made_topic = codes "dummy-topic";
  circuit_threshold = pos 3;
  circuit_cooldown = pos 30000000000;
  drain_timeout = pos 15000000000;
  internal_auth_public_key = codes "dummy-public-key";
}

-- What FromEnv makes of the one reading that is not known.
abbrev pub judged {ℓ} : {A : Type ℓ} → (A → Config) → Result Problem A → Result ConfigError Config
judged use_it (ok a) = ok (use_it a)
judged use_it (err p) = err (problems (p ∷ []))

abbrev pub loaded : Text → Text → Env → Result ConfigError Config
loaded name raw env = from_env (set_env ((name, set_value raw) ∷ []) env)

-- What FromEnv makes of the name of an environment. A production environment has no Redis URL of its own.
abbrev pub named : Text → Result ConfigError Config
named raw =
    if text_eq raw []
    then err app_env_missing
    else if text_eq raw app_env_local
    then ok valid_config
    else if text_eq raw app_env_production
    then ok (record valid_config { app_env = app_env_production; redis_url = [] })
    else err (app_env_invalid raw)

loads : (env : Env) → from_env (set_env [] env) ≡ ok valid_config
unfolding from_env set_env set_all set_value text_eq readings read_required_string read_positive_int
    is_blank parse_int check_int finish config_of seconds to_int64
loads env = refl

port :
    (env : Env) (raw : Text)
    → loaded (codes "PORT") raw env
      ≡ judged
          (λ n. record valid_config { port = n })
          (read_positive_int (λ _. raw) (codes "PORT") max_port)
unfolding from_env set_env set_all set_value text_eq readings read_required_string read_positive_int
    is_blank parse_int check_int finish config_of seconds to_int64
port env raw = elim (Result-cases (read_positive_int (λ _. raw) (codes "PORT") max_port)) [
  | inl (e, h) ↦ rw (h) refl
  | inr (n, h) ↦ rw (h) refl
]

threshold :
    (env : Env) (raw : Text)
    → loaded (codes "MATCHMAKING_CIRCUIT_THRESHOLD") raw env
      ≡ judged
          (λ n. record valid_config { circuit_threshold = n })
          (read_positive_int (λ _. raw) (codes "MATCHMAKING_CIRCUIT_THRESHOLD") no_upper_bound)
unfolding from_env set_env set_all set_value text_eq readings read_required_string read_positive_int
    is_blank parse_int check_int finish config_of seconds to_int64
threshold env raw =
    elim (Result-cases
      (read_positive_int (λ _. raw) (codes "MATCHMAKING_CIRCUIT_THRESHOLD") no_upper_bound)) [
        | inl (e, h) ↦ rw (h) refl
        | inr (n, h) ↦ rw (h) refl
      ]

cooldown :
    (env : Env) (raw : Text)
    → loaded (codes "MATCHMAKING_CIRCUIT_COOLDOWN_SEC") raw env
      ≡ judged
          (λ n. record valid_config { circuit_cooldown = seconds n })
          (read_positive_int
            (λ _. raw)
            (codes "MATCHMAKING_CIRCUIT_COOLDOWN_SEC")
            max_duration_seconds)
unfolding from_env set_env set_all set_value text_eq readings read_required_string read_positive_int
    is_blank parse_int check_int finish config_of seconds to_int64
cooldown env raw =
    elim (Result-cases (
      read_positive_int (λ _. raw) (codes "MATCHMAKING_CIRCUIT_COOLDOWN_SEC")
        max_duration_seconds)) [ inl (e, h) ↦ rw (h) refl | inr (n, h) ↦ rw (h) refl ]

drain :
    (env : Env) (raw : Text)
    → loaded (codes "MATCHMAKING_DRAIN_TIMEOUT_SEC") raw env
      ≡ judged
          (λ n. record valid_config { drain_timeout = seconds n })
          (read_positive_int
            (λ _. raw)
            (codes "MATCHMAKING_DRAIN_TIMEOUT_SEC")
            max_duration_seconds)
unfolding from_env set_env set_all set_value text_eq readings read_required_string read_positive_int
    is_blank parse_int check_int finish config_of seconds to_int64
drain env raw =
    elim (Result-cases
      (read_positive_int (λ _. raw) (codes "MATCHMAKING_DRAIN_TIMEOUT_SEC") max_duration_seconds)) [
        | inl (e, h) ↦ rw (h) refl
        | inr (n, h) ↦ rw (h) refl
      ]

redis_url :
    (env : Env) (raw : Text)
    → loaded (codes "UPSTASH_REDIS_URL") raw env
      ≡ judged
          (λ s. record valid_config { redis_url = s })
          (read_required_string (λ _. raw) (codes "UPSTASH_REDIS_URL"))
unfolding from_env set_env set_all set_value text_eq readings read_required_string read_positive_int
    is_blank parse_int check_int finish config_of seconds to_int64
redis_url env raw = elim (Bool-cases (is_blank raw)) [ inl h ↦ rw (h) refl | inr h ↦ rw (h) refl ]

project :
    (env : Env) (raw : Text)
    → loaded (codes "GOOGLE_CLOUD_PROJECT_ID") raw env
      ≡ judged
          (λ s. record valid_config { google_cloud_project_id = s })
          (read_required_string (λ _. raw) (codes "GOOGLE_CLOUD_PROJECT_ID"))
unfolding from_env set_env set_all set_value text_eq readings read_required_string read_positive_int
    is_blank parse_int check_int finish config_of seconds to_int64
project env raw = elim (Bool-cases (is_blank raw)) [ inl h ↦ rw (h) refl | inr h ↦ rw (h) refl ]

topic :
    (env : Env) (raw : Text)
    → loaded (codes "MATCH_MADE_TOPIC") raw env
      ≡ judged
          (λ s. record valid_config { match_made_topic = s })
          (read_required_string (λ _. raw) (codes "MATCH_MADE_TOPIC"))
unfolding from_env set_env set_all set_value text_eq readings read_required_string read_positive_int
    is_blank parse_int check_int finish config_of seconds to_int64
topic env raw = elim (Bool-cases (is_blank raw)) [ inl h ↦ rw (h) refl | inr h ↦ rw (h) refl ]

public_key :
    (env : Env) (raw : Text)
    → loaded (codes "INTERNAL_AUTH_PUBLIC_KEY") raw env
      ≡ judged
          (λ s. record valid_config { internal_auth_public_key = s })
          (read_required_string (λ _. raw) (codes "INTERNAL_AUTH_PUBLIC_KEY"))
unfolding from_env set_env set_all set_value text_eq readings read_required_string read_positive_int
    is_blank parse_int check_int finish config_of seconds to_int64
public_key env raw = elim (Bool-cases (is_blank raw)) [ inl h ↦ rw (h) refl | inr h ↦ rw (h) refl ]

app_env : (env : Env) (raw : Text) → loaded (codes "APP_ENV") raw env ≡ named raw
unfolding from_env set_env set_all set_value text_eq readings read_required_string read_positive_int
    is_blank parse_int check_int finish config_of seconds to_int64
app_env env raw = elim (Bool-cases (text_eq raw [])) [
  | inl empty ↦ rw (text_eq_sound raw [] empty) refl
  | inr some_name ↦ elim (Bool-cases (text_eq raw app_env_local)) [
    | inl local ↦ rw (text_eq_sound raw app_env_local local) refl
    | inr elsewhere ↦ elim (Bool-cases (text_eq raw app_env_production)) [
      | inl production ↦ rw (text_eq_sound raw app_env_production production) refl
      | inr unknown ↦ rw (some_name, elsewhere, unknown) refl
    ]
  ]
]

-- The number of a variable is judged by its bound, a text by whether it is blank.
abbrev pub number : Text → ℤ → Text → Result Problem ℤ
number name upper_bound raw = read_positive_int (λ _. raw) name upper_bound

abbrev pub text : Text → Text → Result Problem Text
text name raw = read_required_string (λ _. raw) name

-- One variable with the text `raw`, and the others as the tests set them: FromEnv gives the tests'
-- configuration with what that variable says, or exactly the one problem of that variable.
abbrev pub DecidesAlone : Env → Text → Type 0
DecidesAlone env raw =
    (loaded (codes "APP_ENV") raw env ≡ named raw)
    × (loaded (codes "PORT") raw env
        ≡ judged (λ n. record valid_config { port = n }) (number (codes "PORT") max_port raw))
    × (loaded (codes "MATCHMAKING_CIRCUIT_THRESHOLD") raw env
        ≡ judged (λ n. record valid_config { circuit_threshold = n })
            (number (codes "MATCHMAKING_CIRCUIT_THRESHOLD") no_upper_bound raw))
    × (loaded (codes "MATCHMAKING_CIRCUIT_COOLDOWN_SEC") raw env
        ≡ judged (λ n. record valid_config { circuit_cooldown = seconds n })
            (number (codes "MATCHMAKING_CIRCUIT_COOLDOWN_SEC") max_duration_seconds raw))
    × (loaded (codes "MATCHMAKING_DRAIN_TIMEOUT_SEC") raw env
        ≡ judged (λ n. record valid_config { drain_timeout = seconds n })
            (number (codes "MATCHMAKING_DRAIN_TIMEOUT_SEC") max_duration_seconds raw))
    × (loaded (codes "UPSTASH_REDIS_URL") raw env
        ≡ judged (λ s. record valid_config { redis_url = s })
            (text (codes "UPSTASH_REDIS_URL") raw))
    × (loaded (codes "GOOGLE_CLOUD_PROJECT_ID") raw env
        ≡ judged (λ s. record valid_config { google_cloud_project_id = s })
            (text (codes "GOOGLE_CLOUD_PROJECT_ID") raw))
    × (loaded (codes "MATCH_MADE_TOPIC") raw env
        ≡ judged (λ s. record valid_config { match_made_topic = s })
            (text (codes "MATCH_MADE_TOPIC") raw))
    × (loaded (codes "INTERNAL_AUTH_PUBLIC_KEY") raw env
        ≡ judged (λ s. record valid_config { internal_auth_public_key = s })
            (text (codes "INTERNAL_AUTH_PUBLIC_KEY") raw))

-- The tests' environment loads, whatever the process has set before, and then one variable decides
-- alone, whichever of the nine it is and whatever text it has; to unset it is to leave it empty.
pub set_env-from_env :
    (env : Env) (name raw : Text)
    → (from_env (set_env [] env) ≡ ok valid_config)
      × DecidesAlone env raw
      × (set_env ((name, unset) ∷ []) env ≡ set_env ((name, set_value []) ∷ []) env)
unfolding set_env set_all unset set_value
set_env-from_env env name raw = (
  loads env,
  (
    app_env env raw,
    port env raw,
    threshold env raw,
    cooldown env raw,
    drain env raw,
    redis_url env raw,
    project env raw,
    topic env raw,
    public_key env raw,
  ),
  refl,
)
