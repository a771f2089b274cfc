-- ===== src/Config/Load.antt =====
-- When a configuration loads, and what it then holds.
use overload_party_matchmaki.Prelude.{
  ℤ, pos, negsuc, ◌*ℤ◌, ◌≤ℤ◌, ◌<ℤ◌, Text, codes, text_eq, true, false, ◌≡◌, refl, sym, ◌∙◌, List,
  [], ◌∷◌, ok, arith,
}
use overload_party_matchmaki.Config.{
  Config, Problem, second, max_duration_seconds, seconds, Readings, readings, problems_of,
  config_of, finish, from_env,
}
use overload_party_matchmaki.Config.Readers.{
  is_known, Values, HasValues, values, IsRead, no_problems, problems_of_read, read-HasValues,
  HasValues-IsRead,
}

-- The configuration of these values; the durations are exact multiples of a second.
abbrev pub configured : Text → Values → Config
configured app_env v = record {
  app_env = app_env;
  port = v.port;
  redis_url = v.redis_url;
  google_cloud_project_id = v.project_id;
  match_made_topic = v.topic;
  circuit_threshold = v.threshold;
  circuit_cooldown = v.cooldown *ℤ second;
  drain_timeout = v.drain *ℤ second;
  internal_auth_public_key = v.public_key;
}

-- Within the bound of the seconds the product with a second does not wrap around.
pub seconds_exact :
    (n : ℤ)
    → pos 1 ≤ℤ n
    → n ≤ℤ max_duration_seconds
    → (seconds n ≡ n *ℤ second) × (pos 0 <ℤ n *ℤ second)
unfolding seconds
seconds_exact (pos n) h k = ground arith
seconds_exact (negsuc n) h k = ground arith

finish_ok : (c cfg : Config) (ps : List Problem) → finish c ps ≡ ok cfg → (ps ≡ []) × (c ≡ cfg)
unfolding finish
finish_ok c cfg [] h = (refl, cc)
finish_ok c cfg (p ∷ ps) h = absurd (cc)

-- The configuration of readings that all succeed.
config_of_read :
    (app_env : Text) (env : Text → Text) (r : Readings) (v : Values)
    → IsRead r v
    → HasValues env v
    → config_of app_env r ≡ configured app_env v
unfolding config_of
config_of_read app_env env r v (a, b, c, d, e, f, g, h) (_, _, _, _, _, _, _, cool, dr) =
    let p = (seconds_exact v.cooldown cool.1 cool.2).0 in
    let q = (seconds_exact v.drain dr.1 dr.2).0 in rw (a, b, c, d, e, f, g, h) (rw (p, q) refl)

known_not_empty : (s : Text) → is_known s ≡ true → text_eq s [] ≡ false
unfolding text_eq
known_not_empty [] h = cc
known_not_empty (c ∷ s) h = refl

from_env_finishes :
    (env : Text → Text)
    → is_known (env (codes "APP_ENV")) ≡ true
    → from_env env
      ≡ finish (config_of (env (codes "APP_ENV")) (readings env)) (problems_of (readings env))
unfolding from_env
from_env_finishes env known = rw (known_not_empty (env (codes "APP_ENV")) known, known) refl

from_env-is_known :
    (env : Text → Text) (cfg : Config)
    → from_env env ≡ ok cfg
    → is_known (env (codes "APP_ENV")) ≡ true
unfolding from_env
from_env-is_known env cfg h = ground arith

-- A configuration that FromEnv returns comes from variables that hold what it needs: a known
-- environment, texts that are not blank, a Redis URL if the environment is local, and numbers between
-- one and their bounds. Its fields are those values, and its durations the seconds of the variables in
-- nanoseconds, which no overflow changed.
pub from_env-configured :
    (env : Text → Text) (cfg : Config)
    → from_env env ≡ ok cfg
    → (v : Values) × HasValues env v × (cfg ≡ configured (env (codes "APP_ENV")) v)
from_env-configured env cfg h =
    let known = from_env-is_known env cfg h in
    let done =
      finish_ok (config_of (env (codes "APP_ENV")) (readings env)) cfg _
        (sym (from_env_finishes env known) ∙ h) in
    let read = no_problems (readings env) done.0 in
    let has = read-HasValues env _ known read in
    (values (readings env), has, sym done.1 ∙ config_of_read _ env _ _ read has)

-- FromEnv returns a configuration for every environment whose variables hold what it needs.
pub from_env_accepts :
    (env : Text → Text) (v : Values)
    → HasValues env v
    → from_env env ≡ ok (configured (env (codes "APP_ENV")) v)
unfolding finish
from_env_accepts env v has =
    let read = HasValues-IsRead env v has in
    rw
      (
        from_env_finishes env has.0,
        problems_of_read (readings env) v read,
        config_of_read (env (codes "APP_ENV")) env (readings env) v read has,
      )
      refl
