-- ===== src/Server/Shutdown.antt =====
-- The end of `run` of cmd/server/main.go: whether the matcher, which uses the clients of Redis and of
-- Pub/Sub, is waited for before they are closed.
use overload_party_matchmaki.Prelude.{
  Text, text_eq, Bool, true, false, ◌||◌, ◌≡◌, refl, ◌∙◌, List, [], ◌∷◌, ◌++◌, Result, ok, err,
  arith, if◌then◌else◌,
}
use overload_party_matchmaki.Config.{Config, app_env_local, app_env_production}
use overload_party_matchmaki.Startup.{Logger, new_matcher, new_matcher_options}
use overload_party_matchmaki.Server.{
  Resource, publisher_client, Event, logger_set, opened, closed, matcher_started, matcher_stopped,
  listening, http_stopped, signals_released, RunError, options_error, key_invalid, serve_failed,
  shutdown_failed, Libraries, Run, and_then, done, say, check, check_none, deferring, holding,
  secret_client, new_redis_client, serve_until_stopped, run_publisher, run_redis, run,
}

-- Whether the matcher is started and not waited for, and whether a client was closed meanwhile.
pub record Watch : Type 0 where
  pub running : Bool
  pub cut_off : Bool

abbrev pub idle : Watch
idle = record { running = false; cut_off = false }

unfoldable pub watch : Watch → List Event → Watch
watch s [] = s
watch s (matcher_started ∷ es) = watch (record { running = true; cut_off = s.cut_off }) es
watch s (matcher_stopped ∷ es) = watch (record { running = false; cut_off = s.cut_off }) es
watch s (closed r ∷ es) =
    watch (record { running = s.running; cut_off = s.cut_off || s.running }) es
watch s (e ∷ es) = watch s es

-- An error of a step behind the start of the matcher.
unfoldable pub is_late : RunError → Bool
is_late (key_invalid e) = true
is_late (serve_failed e) = true
is_late (shutdown_failed e) = true
is_late _ = false

unfoldable pub fails_late : {A : Type 0} → Result RunError A → Bool
unfolding is_late
fails_late (ok a) = false
fails_late (err e) = is_late e

watch-append : (es fs : List Event) (s : Watch) → watch s (es ++ fs) ≡ watch (watch s es) fs
unfolding watch
watch-append [] fs s = refl
watch-append (logger_set l ∷ es) fs s = watch-append es fs s
watch-append (opened r ∷ es) fs s = watch-append es fs s
watch-append (closed r ∷ es) fs s = watch-append es fs _
watch-append (matcher_started ∷ es) fs s = watch-append es fs _
watch-append (matcher_stopped ∷ es) fs s = watch-append es fs _
watch-append (listening port ∷ es) fs s = watch-append es fs s
watch-append (http_stopped ∷ es) fs s = watch-append es fs s
watch-append (signals_released ∷ es) fs s = watch-append es fs s

abbrev pub outcome : Bool → Watch
outcome b = record { running = b; cut_off = b }

-- A part before the start of the matcher.
record Early {A : Type 0} (r : Run A) : Type 0 where
  calm : watch idle r.0 ≡ idle
  not_late : fails_late r.1 ≡ false

-- A part that starts the matcher: a late error, and nothing else, leaves it without a wait, and its
-- clients closed.
record Late {A : Type 0} (r : Run A) : Type 0 where
  tells : watch idle r.0 ≡ outcome (fails_late r.1)

and_then-Late :
    {A B : Type 0} (f : A → Run B) (m : Run A)
    → Early m
    → ((a : A) → Late (f a))
    → Late (and_then f m)
unfolding and_then fails_late
and_then-Late f (es, err e) h k = record { tells = h.calm ∙ rw (h.not_late) refl }
and_then-Late f (es, ok a) h k = record {
  tells = watch-append es (f a).0 idle ∙ rw (h.calm) (k a).tells;
}

and_then-Early :
    {A B : Type 0} (f : A → Run B) (m : Run A)
    → Early m
    → ((a : A) → Early (f a))
    → Early (and_then f m)
unfolding and_then fails_late
and_then-Early f (es, err e) h k = record { calm = h.calm; not_late = h.not_late }
and_then-Early f (es, ok a) h k = record {
  calm = watch-append es (f a).0 idle ∙ rw (h.calm) (k a).calm;
  not_late = (k a).not_late;
}

check-Early :
    {E A : Type 0} (wrap : E → RunError) (r : Result E A)
    → ((e : E) → is_late (wrap e) ≡ false)
    → Early (check wrap r)
unfolding check watch fails_late
check-Early wrap (ok a) h = record { calm = refl; not_late = refl }
check-Early wrap (err e) h = record { calm = refl; not_late = h e }

done-Early : {A : Type 0} (a : A) → Early (done a)
unfolding done watch fails_late
done-Early a = record { calm = refl; not_late = refl }

holding-Early : {A : Type 0} (r : Resource) (body : Run A) → Early body → Early (holding r body)
unfolding holding deferring and_then say watch
holding-Early r (es, result) h = record {
  calm = watch-append es (closed r ∷ []) idle ∙ rw (h.calm) refl;
  not_late = h.not_late;
}

or_same : (b : Bool) → record { running = b; cut_off = b || b } ≡ outcome b
or_same true = refl
or_same false = refl

holding-Late : {A : Type 0} (r : Resource) (body : Run A) → Late body → Late (holding r body)
unfolding holding deferring and_then say watch
holding-Late r (es, result) h = record {
  tells = watch-append es (closed r ∷ []) idle ∙ rw (h.tells) (or_same (fails_late result));
}

if-Early : {A : Type 0} (b : Bool) (m n : Run A) → Early m → Early n → Early (if b then m else n)
if-Early true m n h k = h
if-Early false m n h k = k

module _ (out : Libraries) where
  secret_client-Early : (cfg : Config) → Early (secret_client out cfg)
  unfolding secret_client is_late
  secret_client-Early cfg = and_then-Early _ _ (check-Early _ _ (λ e. refl)) (λ project.
      holding-Early _ _ (
        and_then-Early _ _ (check-Early _ _ (λ e. refl)) (λ endpoint.
          and_then-Early _ _ (check-Early _ _ (λ e. refl)) (λ password. done-Early _))))

  new_redis_client-Early : (cfg : Config) → Early (new_redis_client out cfg)
  unfolding new_redis_client is_late watch fails_late
  new_redis_client-Early cfg =
      if-Early (text_eq cfg.app_env app_env_local) _ _ (check-Early _ _ (λ e. refl)) (
        if-Early (text_eq cfg.app_env app_env_production) _ _ (secret_client-Early cfg)
          (record { calm = refl; not_late = refl }))

  -- A late error leaves the matcher running; nothing is closed yet.
  watch-serve_until_stopped :
      (cfg : Config)
      → watch idle (serve_until_stopped out cfg).0
        ≡ record { running = fails_late (serve_until_stopped out cfg).1; cut_off = false }
  unfolding serve_until_stopped check_none check say and_then watch fails_late is_late
  watch-serve_until_stopped cfg = ground arith

  publisher-Late :
      {A : Type 0} (cfg : Config) (m : Run A)
      → Early m
      → Late (holding publisher_client (and_then (λ _. serve_until_stopped out cfg) m))
  unfolding holding deferring and_then say watch fails_late
  publisher-Late cfg (es, err e) h = record {
    tells = watch-append es (closed publisher_client ∷ []) idle ∙ rw (h.calm, h.not_late) refl;
  }
  publisher-Late cfg (es, ok u) h = record {
    tells =
        watch-append (es ++ (serve_until_stopped out cfg).0) (closed publisher_client ∷ []) idle
        ∙ rw
            (
              watch-append es (serve_until_stopped out cfg).0 idle,
              h.calm,
              watch-serve_until_stopped cfg,
            )
            refl;
  }

  run_publisher-Late : (cfg : Config) → Late (run_publisher out cfg)
  unfolding run_publisher is_late
  run_publisher-Late cfg = and_then-Late _ _ (check-Early _ _ (λ e. refl)) (λ p.
      publisher-Late cfg _
        (check-Early options_error (new_matcher (new_matcher_options cfg)) (λ e. refl)))

  run_redis-Late : (cfg : Config) → Late (run_redis out cfg)
  unfolding run_redis is_late
  run_redis-Late cfg = and_then-Late _ _ (new_redis_client-Early cfg) (λ client.
      holding-Late _ _
        (and_then-Late _ _ (check-Early _ _ (λ e. refl)) (λ _. run_publisher-Late cfg)))

  signals-Late : {A : Type 0} (body : Run A) → Late body → Late (deferring signals_released body)
  unfolding deferring watch
  signals-Late (es, result) h = record {
    tells = watch-append es (signals_released ∷ []) idle ∙ h.tells;
  }

  logged-Early : (logger : Logger) → Early (say (logger_set logger))
  unfolding say watch fails_late
  logged-Early logger = record { calm = refl; not_late = refl }

  run-Late : (env : Text → Text) → Late (run out env)
  unfolding run is_late
  run-Late env = and_then-Late _ _ (check-Early _ _ (λ e. refl)) (λ cfg.
      and_then-Late _ _ (check-Early _ _ (λ e. refl)) (λ logger.
        and_then-Late _ _ (logged-Early logger) (λ _. signals-Late _ (run_redis-Late cfg))))

  -- When run returns nil, or an error of a step before the start of the matcher, no client is closed
  -- between that start and the end of the wait for the matcher. When run returns an error of a step
  -- behind that start (an invalid key, the listener, the shutdown), it has not waited for the matcher,
  -- and has closed clients of it.
  pub watch-run :
      (env : Text → Text) → watch idle (run out env).0 ≡ outcome (fails_late (run out env).1)
  watch-run env = (run-Late env).tells
