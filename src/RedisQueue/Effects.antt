-- ===== src/RedisQueue/Effects.antt =====
-- What each script does to the waiting queue and to the stored instance.
use overload_party_matchmaki.Prelude.{
  ℤ, Text, text_eq, text_eq_sound, text_eq_refl, false, ltb, ◌≡◌, refl, ◌∙◌, ap, List, [], ◌∷◌,
  length, take, drop, All, Option, some, arith, if◌then◌else◌,
}
use overload_party_matchmaki.Redis.{Redis, Scored, without, place}
use overload_party_matchmaki.Std.Float64.{float64}
use overload_party_matchmaki.Redis.Laws.{
  zrange-zadd_self, zrange-zpopmin_self, zrange-del_self, get-set_self,
}
use overload_party_matchmaki.RedisQueue.Scripts.{
  EntryArgs, owner, is_stored, or_empty, queue_key, gateway_instance_key, remove_player_entries,
  cancel_script, reset_queue, enqueue_script, flatten_scored, pop_pair_script, reenqueue_loop,
  reenqueue_script,
}
use overload_party_matchmaki.RedisQueue.Purge.{
  others, zrange-remove_player_entries, get-remove_player_entries,
}

-- The entry that a script stores for a player: Redis keeps the score as a double.
abbrev pub scored : Text → ℤ → Scored
scored member score = record { member = member; score = float64 score }

owner-scored :
    (e : Scored) (member : Text) (score : ℤ)
    → e.member ≡ member
    → owner e ≡ owner (scored member score)
unfolding owner
owner-scored e member score h = ground arith

-- A member with the player in front is none of the other players'.
pub without-others :
    (player member : Text) (score : ℤ) (es : List Scored)
    → owner (scored member score) ≡ player
    → without member (others player es) ≡ others player es
without-others player member score [] h = refl
without-others player member score (e ∷ es) h = ground (
  arith,
  without-others player member score es h,
  text_eq_sound e.member member,
  text_eq_refl player,
  owner-scored e member score,
)

-- What the player's new entry makes of the queue.
abbrev pub replace : Text → Scored → List Scored → List Scored
replace player e es = place e (others player es)

-- Each triple has its player in front of its member.
abbrev pub Owned : List EntryArgs → Type 0
Owned = All (λ a. owner (scored a.member a.score) ≡ a.player_id)

abbrev pub replace_all : List EntryArgs → List Scored → List Scored
replace_all [] es = es
replace_all (a ∷ args) es = replace_all args (replace a.player_id (scored a.member a.score) es)

-- The keys differ.
keys_differ : text_eq queue_key gateway_instance_key ≡ false
unfolding text_eq
keys_differ = refl

keys_differ_back : text_eq gateway_instance_key queue_key ≡ false
unfolding text_eq
keys_differ_back = refl

module _ (redis : Redis) where
  open redis use {
    Db, zrange, get, zadd, zpopmin, zcard, set, score_text, get-zadd, zrange-set, get-del,
    zcard-zrange, zpopmin_answer, get-zpopmin,
  }

  -- The waiting queue, and the stored instance.
  abbrev pub waiting : Db → List Scored
  waiting db = zrange db queue_key

  abbrev pub instance_of : Db → Option Text
  instance_of db = get db gateway_instance_key

  -- Both are all that the scripts read.
  put_entry :
      (db : Db) (player member : Text) (score : ℤ)
      → owner (scored member score) ≡ player
      → waiting (zadd (remove_player_entries redis db queue_key player).0 queue_key score member)
        ≡ replace player (scored member score) (waiting db)
  put_entry db player member score h =
      zrange-zadd_self redis (remove_player_entries redis db queue_key player).0 queue_key member
        score
      ∙ rw (
        zrange-remove_player_entries redis db queue_key player,
        without-others player member score (waiting db) h,
      )

  get-put_entry :
      (db : Db) (player member j : Text) (score : ℤ)
      → get (zadd (remove_player_entries redis db queue_key player).0 queue_key score member) j
        ≡ get db j
  get-put_entry db player member j score =
      get-zadd (remove_player_entries redis db queue_key player).0 queue_key j member score
      ∙ get-remove_player_entries redis db queue_key player j

  -- The queue that an enqueue of an instance goes on with.
  abbrev pub kept : Text → Db → List Scored
  kept instance_id db = if is_stored (instance_of db) instance_id then waiting db else []

  waiting-reset_queue :
      (instance_id : Text) (db : Db)
      → waiting (set (reset_queue redis instance_id db).0 gateway_instance_key instance_id)
        ≡ kept instance_id db
  unfolding reset_queue
  waiting-reset_queue instance_id db =
      zrange-set _ gateway_instance_key queue_key instance_id keys_differ_back
      ∙ ground (arith, zrange-del_self redis db queue_key)

  -- After enqueue.lua, called with a member that names its player, the queue is the new entry, put at its
  -- place among the entries of the other players, in their order; if the stored instance was another
  -- one, or none, the others are gone.
  pub waiting-enqueue_script :
      (player member : Text) (score : ℤ) (instance_id : Text) (db : Db)
      → owner (scored member score) ≡ player
      → waiting (enqueue_script redis player member score instance_id db).0
        ≡ replace player (scored member score) (kept instance_id db)
  unfolding enqueue_script
  waiting-enqueue_script player member score instance_id db h =
      put_entry _ player member score h ∙ rw (waiting-reset_queue instance_id db)

  pub instance_of-enqueue_script :
      (player member : Text) (score : ℤ) (instance_id : Text) (db : Db)
      → instance_of (enqueue_script redis player member score instance_id db).0 ≡ some instance_id
  unfolding enqueue_script
  instance_of-enqueue_script player member score instance_id db =
      get-put_entry _ player member gateway_instance_key score
      ∙ get-set_self redis _ gateway_instance_key instance_id

  pub enqueue_script_reply :
      (player member : Text) (score : ℤ) (instance_id : Text) (db : Db)
      → (enqueue_script redis player member score instance_id db).1
        ≡ (if is_stored (instance_of db) instance_id then 0 else length (waiting db))
  unfolding enqueue_script reset_queue
  enqueue_script_reply player member score instance_id db =
      ground (arith, zcard-zrange db queue_key)

  -- cancel.lua
  pub waiting-cancel_script :
      (player : Text) (db : Db)
      → waiting (cancel_script redis player db).0 ≡ others player (waiting db)
  unfolding cancel_script
  waiting-cancel_script player db = zrange-remove_player_entries redis db queue_key player

  pub instance_of-cancel_script :
      (player : Text) (db : Db) → instance_of (cancel_script redis player db).0 ≡ instance_of db
  unfolding cancel_script
  instance_of-cancel_script player db =
      get-remove_player_entries redis db queue_key player gateway_instance_key

  -- pop_pair.lua
  pub waiting-pop_pair_script :
      (db : Db)
      → waiting (pop_pair_script redis db).0
        ≡ (if ltb (length (waiting db)) 2 then waiting db else drop 2 (waiting db))
  unfolding pop_pair_script
  waiting-pop_pair_script db =
      ground (arith, zcard-zrange db queue_key, zrange-zpopmin_self redis db queue_key 2)

  pub instance_of-pop_pair_script :
      (db : Db) → instance_of (pop_pair_script redis db).0 ≡ instance_of db
  unfolding pop_pair_script
  instance_of-pop_pair_script db = ground (arith, get-zpopmin db queue_key gateway_instance_key 2)

  pub pop_pair_script_reply :
      (db : Db)
      → (pop_pair_script redis db).1 ≡ (
          if ltb (length (waiting db)) 2
          then []
          else or_empty (instance_of db) ∷ flatten_scored redis (take 2 (waiting db)))
  unfolding pop_pair_script
  pop_pair_script_reply db = ground (
    arith,
    zcard-zrange db queue_key,
    zpopmin_answer db queue_key 2,
    get-zpopmin db queue_key gateway_instance_key 2,
  )

  waiting-reenqueue_loop :
      (args : List EntryArgs) (db : Db)
      → Owned args
      → waiting (reenqueue_loop redis args db) ≡ replace_all args (waiting db)
  unfolding reenqueue_loop
  waiting-reenqueue_loop [] db h = refl
  waiting-reenqueue_loop (a ∷ args) db h =
      waiting-reenqueue_loop args _ h.1
      ∙ ap (replace_all args) (put_entry db a.player_id a.member a.score h.0)

  instance_of-reenqueue_loop :
      (args : List EntryArgs) (db : Db)
      → instance_of (reenqueue_loop redis args db) ≡ instance_of db
  unfolding reenqueue_loop
  instance_of-reenqueue_loop [] db = refl
  instance_of-reenqueue_loop (a ∷ args) db =
      instance_of-reenqueue_loop args _
      ∙ get-put_entry db a.player_id a.member gateway_instance_key a.score

  -- reenqueue.lua
  pub waiting-reenqueue_script :
      (expected_id : Text) (args : List EntryArgs) (db : Db)
      → Owned args
      → waiting (reenqueue_script redis expected_id args db).0 ≡ (
          if text_eq (or_empty (instance_of db)) expected_id
          then replace_all args (waiting db)
          else waiting db)
  unfolding reenqueue_script
  waiting-reenqueue_script expected_id args db h = ground (arith, waiting-reenqueue_loop args db h)

  pub instance_of-reenqueue_script :
      (expected_id : Text) (args : List EntryArgs) (db : Db)
      → instance_of (reenqueue_script redis expected_id args db).0 ≡ instance_of db
  unfolding reenqueue_script
  instance_of-reenqueue_script expected_id args db =
      ground (arith, instance_of-reenqueue_loop args db)

  pub reenqueue_script_reply :
      (expected_id : Text) (args : List EntryArgs) (db : Db)
      → (reenqueue_script redis expected_id args db).1
        ≡ (if text_eq (or_empty (instance_of db)) expected_id then 1 else 0)
  unfolding reenqueue_script
  reenqueue_script_reply expected_id args db = ground arith
