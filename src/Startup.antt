-- ===== src/Startup.antt =====
-- What cmd/server/main.go builds of a loaded configuration: the logger (`newLogger`), the options of the
-- matcher (`newMatcherOptions`, and `Options` and `New` of internal/usecase/matcher/matcher.go).
use overload_party_matchmaki.Prelude.{
  ℤ, pos, ◌<ℤ◌, leb_ℤ, Text, codes, text_eq, true, false, ◌≡◌, refl, Result, ok, err, [], ◌∷◌,
  Bool-cases, inl, inr, subst, sym, if◌then◌else◌, arith,
}
use overload_party_matchmaki.Circuit.{CircuitBreaker, new_circuit_breaker}
use overload_party_matchmaki.Pubsub.{check_publisher}
use overload_party_matchmaki.Std.Strings.{is_blank}
use overload_party_matchmaki.Config.{Config, app_env_local, app_env_production, second, from_env}
use overload_party_matchmaki.Config.Load.{configured, from_env-configured, seconds_exact}
use overload_party_matchmaki.Config.Readers.{is_known, Values, HasValues}

pub record Options : Type 0 where
  pub interval : ℤ
  pub circuit_threshold : ℤ
  pub circuit_cooldown : ℤ
  pub drain_timeout : ℤ

pub data OptionsError : Type 0 where
  interval_invalid threshold_invalid cooldown_invalid drain_invalid : ℤ → OptionsError

-- Options.validate; the checks run in order, and the first one that fails answers.
unfoldable pub validate : Options → Result OptionsError (Unit {0})
validate o =
    if leb_ℤ o.interval (pos 0)
    then err (interval_invalid o.interval)
    else if leb_ℤ o.circuit_threshold (pos 0)
    then err (threshold_invalid o.circuit_threshold)
    else if leb_ℤ o.circuit_cooldown (pos 0)
    then err (cooldown_invalid o.circuit_cooldown)
    else if leb_ℤ o.drain_timeout (pos 0)
    then err (drain_invalid o.drain_timeout)
    else ok tt

-- The fields of `Matcher` beside its ports.
pub record Matcher : Type 0 where
  pub interval : ℤ
  pub circuit : CircuitBreaker
  pub drain_timeout : ℤ

abbrev after_validate : Options → Result OptionsError (Unit {0}) → Result OptionsError Matcher
after_validate o (err e) = err e
after_validate o (ok u) = ok (record {
  interval = o.interval;
  circuit = new_circuit_breaker o.circuit_threshold o.circuit_cooldown;
  drain_timeout = o.drain_timeout;
})

-- New
unfoldable pub new_matcher : Options → Result OptionsError Matcher
unfolding validate
new_matcher o = after_validate o (validate o)

-- In nanoseconds.
abbrev pub matcher_interval : ℤ
matcher_interval = second

abbrev pub publish_timeout : ℤ
publish_timeout = pos 5000000000

unfoldable pub new_matcher_options : Config → Options
new_matcher_options cfg = record {
  interval = matcher_interval;
  circuit_threshold = cfg.circuit_threshold;
  circuit_cooldown = cfg.circuit_cooldown;
  drain_timeout = cfg.drain_timeout;
}

-- The two log formats: JSON for Cloud Logging on stdout, text on stderr.
pub data Logger : Type 0 where
  cloud_logging text_handler : Logger

unfoldable pub new_logger : Text → Result Text Logger
new_logger app_env =
    if text_eq app_env app_env_production
    then ok cloud_logging
    else if text_eq app_env app_env_local
    then ok text_handler
    else err app_env

new_logger_known : (s : Text) → is_known s ≡ true → (l : Logger) × (new_logger s ≡ ok l)
unfolding new_logger
new_logger_known s h = elim (Bool-cases (text_eq s app_env_production)) [
  | inl production ↦ (cloud_logging, rw (production) refl)
  | inr other ↦ (text_handler, ground arith)
]

not_blank : (s : Text) → is_blank s ≡ false → text_eq s [] ≡ false
unfolding is_blank text_eq
not_blank [] h = absurd (cc)
not_blank (c ∷ s) h = refl

new_matcher_ok :
    (o : Options)
    → pos 0 <ℤ o.interval
    → pos 0 <ℤ o.circuit_threshold
    → pos 0 <ℤ o.circuit_cooldown
    → pos 0 <ℤ o.drain_timeout
    → new_matcher o
      ≡ ok (record {
        interval = o.interval;
        circuit = new_circuit_breaker o.circuit_threshold o.circuit_cooldown;
        drain_timeout = o.drain_timeout;
      })
unfolding new_matcher validate
new_matcher_ok o a b c d = ground arith

-- The server starts with the configuration: a logger is chosen, the publisher's checks pass, and the
-- matcher is built with the configured limits and a closed circuit breaker.
abbrev pub Starts : Config → Type 0
Starts cfg =
    ((l : Logger) × (new_logger cfg.app_env ≡ ok l))
    × (check_publisher cfg.google_cloud_project_id cfg.match_made_topic publish_timeout ≡ ok tt)
    × (new_matcher (new_matcher_options cfg)
        ≡ ok (record {
          interval = second;
          circuit = new_circuit_breaker cfg.circuit_threshold cfg.circuit_cooldown;
          drain_timeout = cfg.drain_timeout;
        }))

configured-Starts :
    (env : Text → Text) (v : Values)
    → HasValues env v
    → Starts (configured (env (codes "APP_ENV")) v)
unfolding check_publisher new_matcher_options
configured-Starts env v (known, _, project, topic, _, _, threshold, cooldown, drain) = (
  new_logger_known (env (codes "APP_ENV")) known,
  rw (not_blank v.project_id project.1, not_blank v.topic topic.1) refl,
  new_matcher_ok (new_matcher_options (configured (env (codes "APP_ENV")) v)) (omega arith)
      (omega arith) (seconds_exact v.cooldown cooldown.1 cooldown.2).1
      (seconds_exact v.drain drain.1 drain.2).1,
)

-- Each configuration that FromEnv returns starts the server: a logger is chosen, the checks of the
-- publisher pass, and the matcher is built, with the configured limits and a closed circuit breaker.
pub from_env-Starts : (env : Text → Text) (cfg : Config) → from_env env ≡ ok cfg → Starts cfg
from_env-Starts env cfg h =
    let (v, has, same) = from_env-configured env cfg h in
    subst Starts (sym same) (configured-Starts env v has)
