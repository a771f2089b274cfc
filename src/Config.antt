-- ===== src/Config.antt =====
-- internal/config/config.go: the configuration read from the environment. The environment is a
-- function, which is empty at a variable that is not set, as `os.Getenv` is.
pub mod Readers
pub mod Load
use overload_party_matchmaki.Prelude.{
  ℕ, ◌+◌, ◌-◌, ◌*◌, ◌/◌, ◌%◌, ◌^◌, ℤ, pos, negsuc, ◌*ℤ◌, ltb_ℤ, leb_ℤ, ltb, Text, codes, text_eq,
  Bool, true, false, ◌||◌, not, if◌then◌else◌, List, [], ◌∷◌, ◌++◌, Result, ok, err,
}
use overload_party_matchmaki.Std.Decimal.{NumError, parse_int}
use overload_party_matchmaki.Std.Strings.{is_blank}

abbrev pub app_env_local : Text
app_env_local = codes "local"

abbrev pub app_env_production : Text
app_env_production = codes "production"

abbrev pub max_port : ℤ
max_port = pos 65535

-- The nanoseconds of a second.
abbrev pub second : ℤ
second = pos 1000000000

abbrev pub max_duration_seconds : ℤ
max_duration_seconds = pos ((2 ^ 63 - 1) / 1000000000)

abbrev pub no_upper_bound : ℤ
no_upper_bound = pos (2 ^ 63 - 1)

-- An int64 product keeps the low 64 bits, read with their sign.
unfoldable pub to_int64 : ℤ → ℤ
to_int64 (pos n) =
    if ltb (n % 2 ^ 64) (2 ^ 63) then pos (n % 2 ^ 64) else negsuc (2 ^ 64 - 1 - n % 2 ^ 64)
to_int64 (negsuc n) =
    if ltb (n % 2 ^ 64) (2 ^ 63) then negsuc (n % 2 ^ 64) else pos (2 ^ 64 - 1 - n % 2 ^ 64)

-- `time.Duration(n) * time.Second`
unfoldable pub seconds : ℤ → ℤ
unfolding to_int64
seconds n = to_int64 (n *ℤ second)

pub record Config : Type 0 where
  pub app_env : Text
  pub port : ℤ
  pub redis_url : Text
  pub google_cloud_project_id : Text
  pub match_made_topic : Text
  pub circuit_threshold : ℤ
  pub circuit_cooldown : ℤ
  pub drain_timeout : ℤ
  pub internal_auth_public_key : Text

-- The texts of the problems, by what they say of which variable.
pub data Problem : Type 0 where
  missing : Text → Problem
  not_a_number : Text → Text → NumError → Problem
  not_positive : Text → ℤ → Problem
  too_large : Text → ℤ → ℤ → Problem

pub data ConfigError : Type 0 where
  app_env_missing : ConfigError
  app_env_invalid : Text → ConfigError
  problems : List Problem → ConfigError

-- The value that a reader returns beside a problem.
abbrev pub value_or {ℓ} : {A : Type ℓ} → A → Result Problem A → A
value_or d (ok a) = a
value_or d (err p) = d

abbrev pub problem_of {ℓ} : {A : Type ℓ} → Result Problem A → List Problem
problem_of (ok a) = []
problem_of (err p) = p ∷ []

-- readRequiredString
unfoldable pub read_required_string : (Text → Text) → Text → Result Problem Text
read_required_string env key = if is_blank (env key) then err (missing key) else ok (env key)

unfoldable pub check_int : Text → Text → ℤ → Result NumError ℤ → Result Problem ℤ
check_int key raw upper_bound (err e) = err (not_a_number key raw e)
check_int key raw upper_bound (ok n) =
    if leb_ℤ n (pos 0)
    then err (not_positive key n)
    else if ltb_ℤ upper_bound n
    then err (too_large key upper_bound n)
    else ok n

-- readPositiveInt
unfoldable pub read_positive_int : (Text → Text) → Text → ℤ → Result Problem ℤ
unfolding check_int
read_positive_int env key upper_bound =
    if text_eq (env key) []
    then err (missing key)
    else check_int key (env key) upper_bound (parse_int (env key))

-- What the readers give for the eight variables, in the order in which they are read.
pub record Readings : Type 0 where
  pub redis_url : Result Problem Text
  pub project_id : Result Problem Text
  pub topic : Result Problem Text
  pub public_key : Result Problem Text
  pub port : Result Problem ℤ
  pub threshold : Result Problem ℤ
  pub cooldown : Result Problem ℤ
  pub drain : Result Problem ℤ

-- The Redis URL is read in a local environment only.
unfoldable pub readings : (Text → Text) → Readings
readings env = record {
  redis_url =
      if text_eq (env (codes "APP_ENV")) app_env_local
      then read_required_string env (codes "UPSTASH_REDIS_URL")
      else ok [];
  project_id = read_required_string env (codes "GOOGLE_CLOUD_PROJECT_ID");
  topic = read_required_string env (codes "MATCH_MADE_TOPIC");
  public_key = read_required_string env (codes "INTERNAL_AUTH_PUBLIC_KEY");
  port = read_positive_int env (codes "PORT") max_port;
  threshold = read_positive_int env (codes "MATCHMAKING_CIRCUIT_THRESHOLD") no_upper_bound;
  cooldown = read_positive_int env (codes "MATCHMAKING_CIRCUIT_COOLDOWN_SEC") max_duration_seconds;
  drain = read_positive_int env (codes "MATCHMAKING_DRAIN_TIMEOUT_SEC") max_duration_seconds;
}

abbrev pub problems_of : Readings → List Problem
problems_of r =
    problem_of r.redis_url
    ++ (problem_of r.project_id
        ++ (problem_of r.topic
            ++ (problem_of r.public_key
                ++ (problem_of r.port
                    ++ (problem_of r.threshold ++ (problem_of r.cooldown ++ problem_of r.drain))))))

unfoldable pub config_of : Text → Readings → Config
unfolding seconds
config_of app_env r = record {
  app_env = app_env;
  port = value_or (pos 0) r.port;
  redis_url = value_or [] r.redis_url;
  google_cloud_project_id = value_or [] r.project_id;
  match_made_topic = value_or [] r.topic;
  circuit_threshold = value_or (pos 0) r.threshold;
  circuit_cooldown = seconds (value_or (pos 0) r.cooldown);
  drain_timeout = seconds (value_or (pos 0) r.drain);
  internal_auth_public_key = value_or [] r.public_key;
}

unfoldable pub finish : Config → List Problem → Result ConfigError Config
finish cfg [] = ok cfg
finish cfg (p ∷ ps) = err (problems (p ∷ ps))

-- FromEnv
unfoldable pub from_env : (Text → Text) → Result ConfigError Config
unfolding finish
from_env env =
    let app_env = env (codes "APP_ENV") in
    if text_eq app_env []
    then err app_env_missing
    else if text_eq app_env app_env_local || text_eq app_env app_env_production
    then finish (config_of app_env (readings env)) (problems_of (readings env))
    else err (app_env_invalid app_env)
