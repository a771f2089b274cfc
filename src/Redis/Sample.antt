-- ===== src/Redis/Sample.antt =====
-- A server that meets the documented behaviour: an association list for each type of key.
use overload_party_matchmaki.Prelude.{
  ℕ, suc, ◌+◌, Text, text_eq, ◌≡◌, refl, Option, none, some, List, [], ◌∷◌, length, take, drop,
  arith, if◌then◌else◌,
}
use overload_party_matchmaki.Std.Decimal.{format_int}
use overload_party_matchmaki.Std.Float64.{float64}
use overload_party_matchmaki.Redis.{Redis, Scored, without, place}

-- A key that is not there holds no member.
unfoldable pub entries : List (Text × List Scored) → Text → List Scored
entries [] k = []
entries ((j, es) ∷ db) k = if text_eq j k then es else entries db k

unfoldable pub value : List (Text × Text) → Text → Option Text
value [] k = none
value ((j, v) ∷ db) k = if text_eq j k then some v else value db k

pub record Store : Type 0 where
  pub sets : List (Text × List Scored)
  pub strings : List (Text × Text)

abbrev pub with_set : Store → Text → List Scored → Store
with_set db k es = record db { sets = (k, es) ∷ db.sets }

-- How many entries hold the member.
unfoldable pub held : Text → List Scored → ℕ
held m [] = 0
held m (e ∷ es) = if text_eq e.member m then suc (held m es) else held m es

pub held_lem : (m : Text) (es : List Scored) → held m es + length (without m es) ≡ length es
unfolding held
held_lem m [] = omega arith
held_lem m (e ∷ es) = ground (arith, held_lem m es)

pub entries_cons :
    (k j : Text) (es : List Scored) (db : List (Text × List Scored))
    → entries ((k, es) ∷ db) j ≡ (if text_eq k j then es else entries db j)
unfolding entries
entries_cons k j es db = refl

pub value_cons :
    (k j v : Text) (db : List (Text × Text))
    → value ((k, v) ∷ db) j ≡ (if text_eq k j then some v else value db j)
unfolding value
value_cons k j v db = refl

abbrev pub sample : Redis
sample = record {
  Db = Store;
  zrange = λ db k. entries db.sets k;
  get = λ db k. value db.strings k;
  zadd = λ db k s m.
      with_set db k
        (place (record { member = m; score = float64 s }) (without m (entries db.sets k)));
  zrem = λ db k m. (with_set db k (without m (entries db.sets k)), held m (entries db.sets k));
  zpopmin = λ db k n. (with_set db k (drop n (entries db.sets k)), take n (entries db.sets k));
  zcard = λ db k. length (entries db.sets k);
  score_text = format_int;
  score_text-format_int = λ s h. refl;
  del = λ db k. with_set db k [];
  set = λ db k v. record db { strings = (k, v) ∷ db.strings };
  zcard-zrange = λ db k. refl;
  zrange-zadd = λ db k j m s. entries_cons k j _ db.sets;
  get-zadd = λ db k j m s. refl;
  zrange-zrem = λ db k j m. entries_cons k j _ db.sets;
  get-zrem = λ db k j m. refl;
  zrem_count = λ db k m. held_lem m (entries db.sets k);
  zpopmin_answer = λ db k n. refl;
  zrange-zpopmin = λ db k j n. entries_cons k j _ db.sets;
  get-zpopmin = λ db k j n. refl;
  zrange-del = λ db k j. entries_cons k j [] db.sets;
  get-del = λ db k j _. refl;
  get-set = λ db k j v. value_cons k j v db.strings;
  zrange-set = λ db k j v _. refl;
}
