-- ===== src/Redis/Laws.antt =====
-- The commands at the key that they are given.
use overload_party_matchmaki.Prelude.{ℕ, ℤ, Text, text_eq_refl, ◌≡◌, ◌∙◌, some, [], drop}
use overload_party_matchmaki.Redis.{Redis, without, place}
use overload_party_matchmaki.Std.Float64.{float64}

module _ (redis : Redis) where
  open redis use {
    Db, zrange, get, zadd, zrem, zpopmin, del, set, zrange-zadd, zrange-zrem, zrange-zpopmin,
    zrange-del, get-set,
  }

  pub zrange-zadd_self :
      (db : Db) (k m : Text) (s : ℤ)
      → zrange (zadd db k s m) k
        ≡ place (record { member = m; score = float64 s }) (without m (zrange db k))
  zrange-zadd_self db k m s = zrange-zadd db k k m s ∙ rw (text_eq_refl k)

  pub zrange-zrem_self : (db : Db) (k m : Text) → zrange (zrem db k m).0 k ≡ without m (zrange db k)
  zrange-zrem_self db k m = zrange-zrem db k k m ∙ rw (text_eq_refl k)

  pub zrange-zpopmin_self :
      (db : Db) (k : Text) (n : ℕ) → zrange (zpopmin db k n).0 k ≡ drop n (zrange db k)
  zrange-zpopmin_self db k n = zrange-zpopmin db k k n ∙ rw (text_eq_refl k)

  pub zrange-del_self : (db : Db) (k : Text) → zrange (del db k) k ≡ []
  zrange-del_self db k = zrange-del db k k ∙ rw (text_eq_refl k)

  pub get-set_self : (db : Db) (k v : Text) → get (set db k v) k ≡ some v
  get-set_self db k v = get-set db k k v ∙ rw (text_eq_refl k)
