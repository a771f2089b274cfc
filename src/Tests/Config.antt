-- ===== src/Tests/Config.antt =====
-- The results on the configuration, at one production environment.
use overload_party_matchmaki.Prelude.{
  pos, Text, codes, text_eq, List, [], ◌∷◌, ok, ◌≡◌, refl, inr, arith, if◌then◌else◌,
}
use overload_party_matchmaki.Std.Decimal.{parse_int}
use overload_party_matchmaki.Std.Strings.{is_blank}
use overload_party_matchmaki.Config.{from_env}
use overload_party_matchmaki.Config.Load.{configured, from_env-configured, from_env_accepts}
use overload_party_matchmaki.Config.Readers.{Values, HasValues}
use overload_party_matchmaki.ConfigTest.{Env, set_env, unset, set_value}
use overload_party_matchmaki.ConfigTest.Alone.{valid_config, DecidesAlone, set_env-from_env}
use overload_party_matchmaki.Startup.{Starts, from_env-Starts}

-- The value of a variable in a list.
abbrev lookup : List (Text × Text) → Text → Text
lookup [] key = []
lookup ((k, v) ∷ vars) key = if text_eq k key then v else lookup vars key

abbrev pub production : Text → Text
production = lookup (
    (codes "APP_ENV", codes "production")
    ∷ (codes "GOOGLE_CLOUD_PROJECT_ID", codes "p")
    ∷ (codes "MATCH_MADE_TOPIC", codes "t")
    ∷ (codes "INTERNAL_AUTH_PUBLIC_KEY", codes "k")
    ∷ (codes "PORT", codes "8080")
    ∷ (codes "MATCHMAKING_CIRCUIT_THRESHOLD", codes "5")
    ∷ (codes "MATCHMAKING_CIRCUIT_COOLDOWN_SEC", codes "30")
    ∷ (codes "MATCHMAKING_DRAIN_TIMEOUT_SEC", codes "10")
    ∷ [])

abbrev read_values : Values
read_values = record {
  redis_url = [];
  project_id = codes "p";
  topic = codes "t";
  public_key = codes "k";
  port = pos 8080;
  threshold = pos 5;
  cooldown = pos 30;
  drain = pos 10;
}

production-HasValues : HasValues production read_values
unfolding text_eq is_blank parse_int
production-HasValues = (
  refl,
  inr (refl, refl),
  (refl, refl),
  (refl, refl),
  (refl, refl),
  (refl, omega arith, omega arith),
  (refl, omega arith, omega arith),
  (refl, omega arith, omega arith),
  (refl, omega arith, omega arith),
)

production_loads : from_env production ≡ ok (configured (production (codes "APP_ENV")) read_values)
production_loads = from_env_accepts production read_values production-HasValues

from_env_accepts_example :
    from_env production ≡ ok (configured (production (codes "APP_ENV")) read_values)
from_env_accepts_example = from_env_accepts production read_values production-HasValues

from_env-configured_example :
    (v : Values) × HasValues production v
    × (configured (production (codes "APP_ENV")) read_values
        ≡ configured (production (codes "APP_ENV")) v)
from_env-configured_example =
    from_env-configured production (configured (production (codes "APP_ENV")) read_values)
      production_loads

from_env-Starts_example : Starts (configured (production (codes "APP_ENV")) read_values)
from_env-Starts_example =
    from_env-Starts production (configured (production (codes "APP_ENV")) read_values)
      production_loads

abbrev process : Env
process = lookup ((codes "PORT", codes "1") ∷ (codes "HOME", codes "/root") ∷ [])

set_env-from_env_example :
    (from_env (set_env [] process) ≡ ok valid_config)
    × DecidesAlone process (codes "70000")
    × (set_env ((codes "PORT", unset) ∷ []) process
        ≡ set_env ((codes "PORT", set_value []) ∷ []) process)
set_env-from_env_example = set_env-from_env process (codes "PORT") (codes "70000")
