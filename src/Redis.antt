-- ===== src/Redis.antt =====
-- The Redis server that internal/adapter/redisqueue talks to. It is not part of the repository, so
-- the model takes it as a parameter: the commands that the scripts call, and what the command
-- reference documents of them for sorted sets and strings, through what ZRANGE and GET answer.
-- A score is a whole number; Redis keeps it as a double.
pub mod Laws
pub mod Order
pub mod Sample
use overload_party_matchmaki.Prelude.{
  ℕ, ◌+◌, Text, text_eq, text_ltb, Bool, true, false, ℤ, ltb_ℤ, leb_ℤ, ◌&&◌, ◌||◌, not, ◌≡◌, Option,
  some, none, List, [], ◌∷◌, length, take, drop, keep, if◌then◌else◌,
}
use overload_party_matchmaki.Std.Decimal.{format_int}
use overload_party_matchmaki.Std.Float64.{float64, IsExact}

-- A member of a sorted set with its score.
pub record Scored : Type 0 where
  pub member : Text
  pub score : ℤ

-- The order of a sorted set: by score, then by the bytes of the member.
unfoldable pub before : Scored → Scored → Bool
before e f =
    ltb_ℤ e.score f.score
    || (leb_ℤ e.score f.score && leb_ℤ f.score e.score && text_ltb e.member f.member)

-- The sorted set without a member.
abbrev pub without : Text → List Scored → List Scored
without m = keep (λ e. not (text_eq e.member m))

-- An entry put at its place.
abbrev pub place : Scored → List Scored → List Scored
place e [] = e ∷ []
place e (f ∷ es) = if before e f then e ∷ f ∷ es else f ∷ place e es

pub record Redis : Type 1 where
  pub Db : Type 0
  pub zrange : Db → Text → List Scored
  pub get : Db → Text → Option Text
  pub zadd : Db → Text → ℤ → Text → Db
  pub zrem : Db → Text → Text → Db × ℕ
  pub zpopmin : Db → Text → ℕ → Db × List Scored
  pub zcard : Db → Text → ℕ
  pub score_text : ℤ → Text
  pub del : Db → Text → Db
  pub set : Db → Text → Text → Db
  -- A script reads a whole score as its decimal text, up to 2 ^ 53.
  pub score_text-format_int : (s : ℤ) → IsExact s → score_text s ≡ format_int s
  -- ZCARD is the number of members.
  pub zcard-zrange : (db : Db) (k : Text) → zcard db k ≡ length (zrange db k)
  -- ZADD gives the member the double that is nearest to the score, and leaves other keys alone.
  pub zrange-zadd :
      (db : Db) (k j m : Text) (s : ℤ)
      → zrange (zadd db k s m) j ≡ (
          if text_eq k j
          then place (record { member = m; score = float64 s }) (without m (zrange db k))
          else zrange db j)
  pub get-zadd : (db : Db) (k j m : Text) (s : ℤ) → get (zadd db k s m) j ≡ get db j
  -- ZREM removes the member if it is there, and answers how many it removed.
  pub zrange-zrem :
      (db : Db) (k j m : Text)
      → zrange (zrem db k m).0 j ≡ (if text_eq k j then without m (zrange db k) else zrange db j)
  pub get-zrem : (db : Db) (k j m : Text) → get (zrem db k m).0 j ≡ get db j
  pub zrem_count :
      (db : Db) (k m : Text)
      → (zrem db k m).1 + length (without m (zrange db k)) ≡ length (zrange db k)
  -- ZPOPMIN takes the first entries away and answers them.
  pub zpopmin_answer : (db : Db) (k : Text) (n : ℕ) → (zpopmin db k n).1 ≡ take n (zrange db k)
  pub zrange-zpopmin :
      (db : Db) (k j : Text) (n : ℕ)
      → zrange (zpopmin db k n).0 j ≡ (if text_eq k j then drop n (zrange db k) else zrange db j)
  pub get-zpopmin : (db : Db) (k j : Text) (n : ℕ) → get (zpopmin db k n).0 j ≡ get db j
  -- DEL and SET.
  pub zrange-del :
      (db : Db) (k j : Text) → zrange (del db k) j ≡ (if text_eq k j then [] else zrange db j)
  pub get-del : (db : Db) (k j : Text) → text_eq k j ≡ false → get (del db k) j ≡ get db j
  pub get-set :
      (db : Db) (k j v : Text) → get (set db k v) j ≡ (if text_eq k j then some v else get db j)
  pub zrange-set :
      (db : Db) (k j v : Text) → text_eq k j ≡ false → zrange (set db k v) j ≡ zrange db j
