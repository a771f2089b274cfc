-- ===== src/Config/Readers.antt =====
-- The readers of internal/config/config.go against a description of the variables.
use overload_party_matchmaki.Prelude.{
  ℤ, pos, ◌≤ℤ◌, Text, codes, text_eq, Bool, true, false, ◌||◌, ◌≡◌, refl, List, [], ◌∷◌, ◌++◌,
  Result, ok, err, arith, Bool-cases, inl, inr, ◌⊎◌,
}
use overload_party_matchmaki.Std.Decimal.{parse_int}
use overload_party_matchmaki.Std.Strings.{is_blank}
use overload_party_matchmaki.Config.{
  Problem, app_env_local, app_env_production, max_port, max_duration_seconds, no_upper_bound,
  value_or, problem_of, read_required_string, check_int, read_positive_int, Readings, readings,
  problems_of,
}

-- The variable holds the number `n`, between one and the bound.
abbrev pub IsNumber : (Text → Text) → Text → ℤ → ℤ → Type 0
IsNumber env key upper_bound n = (parse_int (env key) ≡ ok n) × (pos 1 ≤ℤ n) × (n ≤ℤ upper_bound)

-- The variable holds the text, which is not blank.
abbrev pub IsText : (Text → Text) → Text → Text → Type 0
IsText env key s = (env key ≡ s) × (is_blank s ≡ false)

-- A local environment names its Redis; another one does not read the variable.
abbrev pub IsRedisUrl : (Text → Text) → Text → Type 0
IsRedisUrl env s =
    ((text_eq (env (codes "APP_ENV")) app_env_local ≡ true)
      × IsText env (codes "UPSTASH_REDIS_URL") s)
    ⊎ ((text_eq (env (codes "APP_ENV")) app_env_local ≡ false) × (s ≡ []))

abbrev pub is_known : Text → Bool
is_known s = text_eq s app_env_local || text_eq s app_env_production

-- The values that an environment gives, before a second becomes nanoseconds.
pub record Values : Type 0 where
  pub redis_url : Text
  pub project_id : Text
  pub topic : Text
  pub public_key : Text
  pub port : ℤ
  pub threshold : ℤ
  pub cooldown : ℤ
  pub drain : ℤ

abbrev pub HasValues : (Text → Text) → Values → Type 0
HasValues env v =
    (is_known (env (codes "APP_ENV")) ≡ true)
    × IsRedisUrl env v.redis_url
    × IsText env (codes "GOOGLE_CLOUD_PROJECT_ID") v.project_id
    × IsText env (codes "MATCH_MADE_TOPIC") v.topic
    × IsText env (codes "INTERNAL_AUTH_PUBLIC_KEY") v.public_key
    × IsNumber env (codes "PORT") max_port v.port
    × IsNumber env (codes "MATCHMAKING_CIRCUIT_THRESHOLD") no_upper_bound v.threshold
    × IsNumber env (codes "MATCHMAKING_CIRCUIT_COOLDOWN_SEC") max_duration_seconds v.cooldown
    × IsNumber env (codes "MATCHMAKING_DRAIN_TIMEOUT_SEC") max_duration_seconds v.drain

no_problem {ℓ} :
    {A : Type ℓ} (d : A) (r : Result Problem A) (rest : List Problem)
    → problem_of r ++ rest ≡ []
    → (r ≡ ok (value_or d r)) × (rest ≡ [])
no_problem d (ok a) rest h = (refl, h)
no_problem d (err p) rest h = absurd (cc)

read_positive_int_ok :
    (env : Text → Text) (key : Text) (upper_bound n : ℤ)
    → read_positive_int env key upper_bound ≡ ok n
    → IsNumber env key upper_bound n
unfolding read_positive_int
read_positive_int_ok env key upper_bound n h = ground arith

not_empty : (s : Text) (n : ℤ) → parse_int s ≡ ok n → text_eq s [] ≡ false
unfolding parse_int text_eq
not_empty [] n h = cc
not_empty (c ∷ s) n h = refl

read_positive_int_accepts :
    (env : Text → Text) (key : Text) (upper_bound n : ℤ)
    → IsNumber env key upper_bound n
    → read_positive_int env key upper_bound ≡ ok n
unfolding read_positive_int check_int
read_positive_int_accepts env key upper_bound n h =
    rw (not_empty (env key) n h.0, h.0) (ground arith)

read_required_string_ok :
    (env : Text → Text) (key s : Text) → read_required_string env key ≡ ok s → IsText env key s
unfolding read_required_string
read_required_string_ok env key s h = ground arith

read_required_string_accepts :
    (env : Text → Text) (key s : Text) → IsText env key s → read_required_string env key ≡ ok s
unfolding read_required_string
read_required_string_accepts env key s h = ground arith

-- The values behind the readings.
abbrev pub values : Readings → Values
values r = record {
  redis_url = value_or [] r.redis_url;
  project_id = value_or [] r.project_id;
  topic = value_or [] r.topic;
  public_key = value_or [] r.public_key;
  port = value_or (pos 0) r.port;
  threshold = value_or (pos 0) r.threshold;
  cooldown = value_or (pos 0) r.cooldown;
  drain = value_or (pos 0) r.drain;
}

abbrev pub IsRead : Readings → Values → Type 0
IsRead r v =
    (r.redis_url ≡ ok v.redis_url)
    × (r.project_id ≡ ok v.project_id)
    × (r.topic ≡ ok v.topic)
    × (r.public_key ≡ ok v.public_key)
    × (r.port ≡ ok v.port)
    × (r.threshold ≡ ok v.threshold)
    × (r.cooldown ≡ ok v.cooldown)
    × (r.drain ≡ ok v.drain)

last_problem {ℓ} :
    {A : Type ℓ} (d : A) (r : Result Problem A) → problem_of r ≡ [] → r ≡ ok (value_or d r)
last_problem d (ok a) h = refl
last_problem d (err p) h = absurd (cc)

pub no_problems : (r : Readings) → problems_of r ≡ [] → IsRead r (values r)
no_problems r h =
    let a = no_problem [] r.redis_url _ h in
    let b = no_problem [] r.project_id _ a.1 in
    let c = no_problem [] r.topic _ b.1 in
    let d = no_problem [] r.public_key _ c.1 in
    let e = no_problem (pos 0) r.port _ d.1 in
    let f = no_problem (pos 0) r.threshold _ e.1 in
    let g = no_problem (pos 0) r.cooldown _ f.1 in
    (a.0, b.0, c.0, d.0, e.0, f.0, g.0, last_problem (pos 0) r.drain g.1)

pub problems_of_read : (r : Readings) (v : Values) → IsRead r v → problems_of r ≡ []
problems_of_read r v (a, b, c, d, e, f, g, h) = rw (a, b, c, d, e, f, g, h) refl

read_redis_url_ok :
    (env : Text → Text) (s : Text) → (readings env).redis_url ≡ ok s → IsRedisUrl env s
unfolding readings
read_redis_url_ok env s h = elim (Bool-cases (text_eq (env (codes "APP_ENV")) app_env_local)) [
  | inl local ↦
      inl (local, read_required_string_ok env (codes "UPSTASH_REDIS_URL") s (ground (arith, local)))
  | inr remote ↦ inr (remote, ground (arith, remote))
]

read_redis_url_accepts :
    (env : Text → Text) (s : Text) → IsRedisUrl env s → (readings env).redis_url ≡ ok s
unfolding readings
read_redis_url_accepts env s (inl (local, given)) =
    rw (local) (read_required_string_accepts env (codes "UPSTASH_REDIS_URL") s given)
read_redis_url_accepts env s (inr (remote, empty)) = rw (remote, empty) refl

-- The readers agree with the description of the variables.
pub read-HasValues :
    (env : Text → Text) (v : Values)
    → is_known (env (codes "APP_ENV")) ≡ true
    → IsRead (readings env) v
    → HasValues env v
unfolding readings
read-HasValues env v known (a, b, c, d, e, f, g, h) = (
  known,
  read_redis_url_ok env v.redis_url a,
  read_required_string_ok env _ v.project_id b,
  read_required_string_ok env _ v.topic c,
  read_required_string_ok env _ v.public_key d,
  read_positive_int_ok env _ _ v.port e,
  read_positive_int_ok env _ _ v.threshold f,
  read_positive_int_ok env _ _ v.cooldown g,
  read_positive_int_ok env _ _ v.drain h,
)

pub HasValues-IsRead : (env : Text → Text) (v : Values) → HasValues env v → IsRead (readings env) v
unfolding readings
HasValues-IsRead env v (known, a, b, c, d, e, f, g, h) = (
  read_redis_url_accepts env v.redis_url a,
  read_required_string_accepts env _ v.project_id b,
  read_required_string_accepts env _ v.topic c,
  read_required_string_accepts env _ v.public_key d,
  read_positive_int_accepts env _ _ v.port e,
  read_positive_int_accepts env _ _ v.threshold f,
  read_positive_int_accepts env _ _ v.cooldown g,
  read_positive_int_accepts env _ _ v.drain h,
)
