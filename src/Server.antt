-- ===== src/Server.antt =====
-- cmd/server/main.go, `run` and `newRedisClient`: the start and the stop of the server, as the events
-- that it causes, in order, with its result. A `defer` is an event behind all events of what follows
-- it. What the libraries answer is the parameter `out`; the goroutines of the matcher and of the
-- listener run beside these events.
pub mod Events
pub mod Exit
pub mod Shutdown
use overload_party_matchmaki.Prelude.{
  ℕ, ℤ, Text, codes, text_eq, Bool, true, false, List, [], ◌∷◌, ◌++◌, Option, none, some, Result,
  ok, err, if◌then◌else◌,
}
use overload_party_matchmaki.Config.{
  Config, ConfigError, from_env, app_env_local, app_env_production,
}
use overload_party_matchmaki.Pubsub.{PublisherError, Publisher, new_publisher}
use overload_party_matchmaki.Secrets.{SecretError, new_client, access_latest}
use overload_party_matchmaki.Startup.{
  Logger, new_logger, OptionsError, Matcher, new_matcher, new_matcher_options, publish_timeout,
}

pub data Resource : Type 0 where
  redis_client secrets_client publisher_client : Resource

pub data Event : Type 0 where
  logger_set : Logger → Event
  opened : Resource → Event
  closed : Resource → Event
  -- `go m.Run(ctx)`, and the end of `matcherWG.Wait()`
  matcher_started : Event
  matcher_stopped : Event
  -- `srv.ListenAndServe`, and the end of `srv.Shutdown`
  listening : ℤ → Event
  http_stopped : Event
  -- the deferred `cancel()` of the signal context
  signals_released : Event

pub data RunError : Type 0 where
  config_error : ConfigError → RunError
  app_env_unexpected app_env_unsupported : Text → RunError
  redis_url_invalid ping_failed key_invalid serve_failed shutdown_failed : Text → RunError
  secret_error : SecretError → RunError
  publisher_error : PublisherError → RunError
  options_error : OptionsError → RunError

pub record Libraries : Type 1 where
  pub RedisClient : Type 0
  -- redis.ParseURL and redis.NewClient
  pub parse_redis_url : Text → Result Text RedisClient
  -- redis.NewClient with an address and a password, over TLS
  pub tls_client : Text → Text → RedisClient
  pub ping : RedisClient → Result Text (Unit {0})
  pub connect_secrets : Result Text (Unit {0})
  pub access_secret : Text → Result Text (Option Text)
  pub connect_pubsub : Text → Result Text (Unit {0})
  pub parse_public_key : Text → Result Text (Unit {0})
  -- what the `select` gets: the error of the listener, or none for the signal
  pub serve : ℤ → Option Text
  -- the error of `srv.Shutdown`
  pub shutdown : Option Text

abbrev pub secret_id_upstash_endpoint : Text
secret_id_upstash_endpoint = codes "matchmaking-upstash-redis-endpoint"

abbrev pub secret_id_upstash_password : Text
secret_id_upstash_password = codes "matchmaking-upstash-redis-password"

abbrev pub Run : Type 0 → Type 0
Run A = List Event × Result RunError A

unfoldable pub and_then : {A B : Type 0} → (A → Run B) → Run A → Run B
and_then f (es, err e) = (es, err e)
and_then f (es, ok a) = let r = f a in (es ++ r.0, r.1)

infixl 5 ◌>>=◌ ◌>>◌
abbrev pub ◌>>=◌ : {A B : Type 0} → Run A → (A → Run B) → Run B
m >>= f = and_then f m

abbrev pub ◌>>◌ : {B : Type 0} → Run (Unit {0}) → Run B → Run B
m >> k = and_then (λ _. k) m

unfoldable pub say : Event → Run (Unit {0})
say e = (e ∷ [], ok tt)

unfoldable pub done : {A : Type 0} → A → Run A
done a = ([], ok a)

-- `if err != nil { return …}`
unfoldable pub check : {E A : Type 0} → (E → RunError) → Result E A → Run A
check wrap (ok a) = ([], ok a)
check wrap (err e) = ([], err (wrap e))

-- `return` with an error, if there is one.
unfoldable pub check_none : (Text → RunError) → Option Text → Run (Unit {0})
check_none wrap none = ([], ok tt)
check_none wrap (some e) = ([], err (wrap e))

-- What follows a `defer`.
unfoldable pub deferring : {A : Type 0} → Event → Run A → Run A
deferring e r = (r.0 ++ e ∷ [], r.1)

-- A resource is opened, and its close is deferred.
unfoldable pub holding : {A : Type 0} → Resource → Run A → Run A
unfolding deferring and_then
holding r body = do say (opened r); deferring (closed r) body

module _ (out : Libraries) where
  open out use {RedisClient}

  unfoldable pub secret_client : Config → Run RedisClient
  unfolding holding and_then
  secret_client cfg = do
    project ← check secret_error (new_client out.connect_secrets cfg.google_cloud_project_id)
    holding secrets_client (do
      endpoint ←
          check secret_error (access_latest out.access_secret project secret_id_upstash_endpoint)
      password ←
          check secret_error (access_latest out.access_secret project secret_id_upstash_password)
      done (out.tls_client endpoint password))

  -- newRedisClient
  unfoldable pub new_redis_client : Config → Run RedisClient
  unfolding secret_client
  new_redis_client cfg =
      if text_eq cfg.app_env app_env_local
      then check redis_url_invalid (out.parse_redis_url cfg.redis_url)
      else if text_eq cfg.app_env app_env_production
      then secret_client cfg
      else ([], err (app_env_unsupported cfg.app_env))

  -- From the start of the matcher to the return.
  unfoldable pub serve_until_stopped : Config → Run (Unit {0})
  unfolding and_then
  serve_until_stopped cfg = do
    say matcher_started
    check key_invalid (out.parse_public_key cfg.internal_auth_public_key)
    say (listening cfg.port)
    check_none serve_failed (out.serve cfg.port)
    check_none shutdown_failed out.shutdown
    say http_stopped
    say matcher_stopped

  unfoldable pub run_publisher : Config → Run (Unit {0})
  unfolding holding and_then serve_until_stopped
  run_publisher cfg = do
    _ ← check publisher_error (
        new_publisher out.connect_pubsub cfg.google_cloud_project_id cfg.match_made_topic
          publish_timeout)
    holding publisher_client (do
      _ ← check options_error (new_matcher (new_matcher_options cfg))
      serve_until_stopped cfg)

  unfoldable pub run_redis : Config → Run (Unit {0})
  unfolding holding and_then new_redis_client run_publisher
  run_redis cfg = do
    client ← new_redis_client cfg
    holding redis_client (do check ping_failed (out.ping client); run_publisher cfg)

  -- run
  unfoldable pub run : (Text → Text) → Run (Unit {0})
  unfolding deferring and_then run_redis
  run env = do
    cfg ← check config_error (from_env env)
    logger ← check app_env_unexpected (new_logger cfg.app_env)
    say (logger_set logger)
    deferring signals_released (run_redis cfg)

  -- main, with the code of its exit.
  unfoldable pub main : (Text → Text) → List Event × ℕ
  main env = let (events, r) = run env in (events, elim r [ ok u ↦ 0 | err e ↦ 1 ])
