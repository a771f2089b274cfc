-- ===== src/ConfigTest.antt =====
-- internal/config/configtest/env.go: the environment that the tests of the configuration prepare. A
-- setting acts on the environment, which `testing.T` restores afterwards; a variable that is not set
-- reads as empty. The settings stand in the order in which the loops take them, which Go leaves open.
pub mod Alone
use overload_party_matchmaki.Prelude.{
  ◌≡◌, refl, Text, codes, text_eq, pos, List, [], ◌∷◌, map, All, Result, ok, err, if◌then◌else◌,
}
use overload_party_matchmaki.Config.{
  Config, ConfigError, app_env_missing, missing, problems, from_env, second,
}
use overload_party_matchmaki.Config.Load.{from_env_accepts, configured}

abbrev pub Env : Type 0
Env = Text → Text

-- `os.Setenv`
abbrev pub put : Text → Text → Env → Env
put name value env key = if text_eq key name then value else env key

abbrev pub Setting : Type 0
Setting = Text → Env → Env

-- Unset
unfoldable pub unset : Setting
unset name = put name []

-- SetValue
unfoldable pub set_value : Text → Setting
set_value value name = put name value

abbrev pub valid_env : List (Text × Text)
valid_env =
    (codes "APP_ENV", codes "local")
    ∷ (codes "UPSTASH_REDIS_URL", codes "redis://dummy-valkey:6379")
    ∷ (codes "GOOGLE_CLOUD_PROJECT_ID", codes "dummy-project")
    ∷ (codes "MATCH_MADE_TOPIC", codes "dummy-topic")
    ∷ (codes "INTERNAL_AUTH_PUBLIC_KEY", codes "dummy-public-key")
    ∷ (codes "PORT", codes "8080")
    ∷ (codes "MATCHMAKING_CIRCUIT_THRESHOLD", codes "3")
    ∷ (codes "MATCHMAKING_CIRCUIT_COOLDOWN_SEC", codes "30")
    ∷ (codes "MATCHMAKING_DRAIN_TIMEOUT_SEC", codes "15")
    ∷ []

unfoldable pub set_all : List (Text × Setting) → Env → Env
set_all [] env = env
set_all ((name, set) ∷ settings) env = set_all settings (set name env)

abbrev value_setting : Text × Text → Text × Setting
value_setting (name, value) = (name, set_value value)

-- SetEnv
unfoldable pub set_env : List (Text × Setting) → Env → Env
unfolding set_all set_value
set_env overrides env = set_all overrides (set_all (map value_setting valid_env) env)
