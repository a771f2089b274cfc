-- ===== src/Server/Events.antt =====
-- What `run` of cmd/server/main.go causes, over all answers of the libraries: its clients are closed
-- in the order that `defer` gives.
use overload_party_matchmaki.Prelude.{
  append_assoc, sym, append-nil, text_eq, Text, arith, Bool, true, false, ◌≡◌, refl, ◌∙◌, List, [],
  ◌∷◌, ◌++◌, Option, none, some, Result, ok, err, if◌then◌else◌,
}
use overload_party_matchmaki.Config.{Config, app_env_local, app_env_production}
use overload_party_matchmaki.Server.{
  Resource, redis_client, secrets_client, publisher_client, Event, logger_set, opened, closed,
  matcher_started, matcher_stopped, listening, http_stopped, signals_released, RunError, Libraries,
  Run, and_then, done, say, check, check_none, deferring, holding, secret_client, new_redis_client,
  serve_until_stopped, run_publisher, run_redis, run,
}

same_resource : Resource → Resource → Bool
same_resource redis_client redis_client = true
same_resource secrets_client secrets_client = true
same_resource publisher_client publisher_client = true
same_resource _ _ = false

same_resource_refl : (r : Resource) → same_resource r r ≡ true
unfolding same_resource
same_resource_refl redis_client = refl
same_resource_refl secrets_client = refl
same_resource_refl publisher_client = refl

-- The clients that are open, the last one first; none if another than the last one is closed.
unfoldable pub open_after : List Resource → List Event → Option (List Resource)
unfolding same_resource
open_after rs [] = some rs
open_after rs (opened r ∷ es) = open_after (r ∷ rs) es
open_after [] (closed r ∷ es) = none
open_after (s ∷ rs) (closed r ∷ es) =
    let rest = open_after rs es in if same_resource s r then rest else none
open_after rs (e ∷ es) = open_after rs es

-- The events of a part leave the open clients as they were.
record Balanced {A : Type 0} (r : Run A) : Type 0 where
  same : (rs : List Resource) (fs : List Event) → open_after rs (r.0 ++ fs) ≡ open_after rs fs

done-Balanced : {A : Type 0} (a : A) → Balanced (done a)
unfolding done
done-Balanced a = record { same = λ rs fs. refl }

refuse-Balanced : {A : Type 0} (e : RunError) → Balanced {A = A} ([], err e)
refuse-Balanced e = record { same = λ rs fs. refl }

check-Balanced : {E A : Type 0} (wrap : E → RunError) (r : Result E A) → Balanced (check wrap r)
unfolding check
check-Balanced wrap (ok a) = record { same = λ rs fs. refl }
check-Balanced wrap (err e) = record { same = λ rs fs. refl }

check_none-Balanced : (wrap : Text → RunError) (o : Option Text) → Balanced (check_none wrap o)
unfolding check_none
check_none-Balanced wrap none = record { same = λ rs fs. refl }
check_none-Balanced wrap (some e) = record { same = λ rs fs. refl }

-- An event that opens and closes nothing.
is_plain : Event → Bool
is_plain (opened r) = false
is_plain (closed r) = false
is_plain _ = true

say-Balanced : (e : Event) → is_plain e ≡ true → Balanced (say e)
unfolding say open_after is_plain
say-Balanced (logger_set l) h = record { same = λ rs fs. refl }
say-Balanced (opened r) h = absurd (ground (arith, h))
say-Balanced (closed r) h = absurd (ground (arith, h))
say-Balanced matcher_started h = record { same = λ rs fs. refl }
say-Balanced matcher_stopped h = record { same = λ rs fs. refl }
say-Balanced (listening port) h = record { same = λ rs fs. refl }
say-Balanced http_stopped h = record { same = λ rs fs. refl }
say-Balanced signals_released h = record { same = λ rs fs. refl }

and_then-Balanced :
    {A B : Type 0} (f : A → Run B) (m : Run A)
    → Balanced m
    → ((a : A) → Balanced (f a))
    → Balanced (and_then f m)
unfolding and_then
and_then-Balanced f (es, err e) h k = record { same = h.same }
and_then-Balanced f (es, ok a) h k = record {
  same = λ rs fs. rw (append_assoc es (f a).0 fs) (h.same rs ((f a).0 ++ fs) ∙ (k a).same rs fs);
}

deferring-Balanced :
    {A : Type 0} (e : Event) (body : Run A)
    → is_plain e ≡ true
    → Balanced body
    → Balanced (deferring e body)
unfolding deferring say
deferring-Balanced e (es, result) p h = record {
  same = λ rs fs.
      rw (append_assoc es (e ∷ []) fs) (h.same rs (e ∷ fs) ∙ (say-Balanced e p).same rs fs);
}

holding-Balanced :
    {A : Type 0} (r : Resource) (body : Run A) → Balanced body → Balanced (holding r body)
unfolding holding deferring and_then open_after say
holding-Balanced r (es, result) h = record {
  same = λ rs fs.
      rw (append_assoc es (closed r ∷ []) fs)
        (h.same (r ∷ rs) (closed r ∷ fs) ∙ rw (same_resource_refl r) refl);
}

if-Balanced :
    {A : Type 0} (b : Bool) (m n : Run A) → Balanced m → Balanced n → Balanced (if b then m else n)
if-Balanced true m n h k = h
if-Balanced false m n h k = k

module _ (out : Libraries) where
  secret_client-Balanced : (cfg : Config) → Balanced (secret_client out cfg)
  unfolding secret_client
  secret_client-Balanced cfg = and_then-Balanced _ _ (check-Balanced _ _) (λ project.
      holding-Balanced _ _ (
        and_then-Balanced _ _ (check-Balanced _ _)
          (λ endpoint. and_then-Balanced _ _ (check-Balanced _ _) (λ password. done-Balanced _))))

  new_redis_client-Balanced : (cfg : Config) → Balanced (new_redis_client out cfg)
  unfolding new_redis_client
  new_redis_client-Balanced cfg =
      if-Balanced (text_eq cfg.app_env app_env_local) _ _ (check-Balanced _ _) (
        if-Balanced (text_eq cfg.app_env app_env_production) _ _ (secret_client-Balanced cfg)
          (refuse-Balanced _))

  serve_until_stopped-Balanced : (cfg : Config) → Balanced (serve_until_stopped out cfg)
  unfolding serve_until_stopped is_plain
  serve_until_stopped-Balanced cfg = and_then-Balanced _ _ (say-Balanced _ refl) (λ _.
      and_then-Balanced _ _ (check-Balanced _ _) (λ _.
        and_then-Balanced _ _ (say-Balanced _ refl) (λ _.
          and_then-Balanced _ _ (check_none-Balanced _ _) (λ _.
            and_then-Balanced _ _ (check_none-Balanced _ _)
              (λ _. and_then-Balanced _ _ (say-Balanced _ refl) (λ _. say-Balanced _ refl))))))

  run_publisher-Balanced : (cfg : Config) → Balanced (run_publisher out cfg)
  unfolding run_publisher
  run_publisher-Balanced cfg = and_then-Balanced _ _ (check-Balanced _ _) (λ p.
      holding-Balanced _ _
        (and_then-Balanced _ _ (check-Balanced _ _) (λ m. serve_until_stopped-Balanced cfg)))

  run_redis-Balanced : (cfg : Config) → Balanced (run_redis out cfg)
  unfolding run_redis
  run_redis-Balanced cfg = and_then-Balanced _ _ (new_redis_client-Balanced cfg) (λ client.
      holding-Balanced _ _
        (and_then-Balanced _ _ (check-Balanced _ _) (λ m. run_publisher-Balanced cfg)))

  run-Balanced : (env : Text → Text) → Balanced (run out env)
  unfolding run is_plain
  run-Balanced env = and_then-Balanced _ _ (check-Balanced _ _) (λ cfg.
      and_then-Balanced _ _ (check-Balanced _ _) (λ logger.
        and_then-Balanced _ _ (say-Balanced _ refl)
          (λ _. deferring-Balanced _ _ refl (run_redis-Balanced cfg))))

  -- Whatever the environment holds and the libraries answer, on success and on every error: run closes
  -- each client that it opened exactly once, the last one first, and leaves none open.
  pub open_after-run : (env : Text → Text) → open_after [] (run out env).0 ≡ some []
  unfolding open_after
  open_after-run env = rw (sym (append-nil (run out env).0)) ((run-Balanced env).same [] [])
