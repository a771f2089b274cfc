-- ===== src/RedisQueue/Scripts.antt =====
-- internal/adapter/redisqueue/lua: the scripts, which Redis runs one at a time. Each is a function
-- from the database and its arguments to the database after it and its reply.
use overload_party_matchmaki.Prelude.{
  ℕ, ◌+◌, ℤ, Text, codes, text_eq, before_byte, Bool, false, not, ltb, if◌then◌else◌, List, [], ◌∷◌,
  Option, none, some,
}
use overload_party_matchmaki.Redis.{Redis, Scored}
use overload_party_matchmaki.RedisQueue.Member.{member_separator}

abbrev pub queue_key : Text
queue_key = codes "matchmaking:queue"

abbrev pub gateway_instance_key : Text
gateway_instance_key = codes "matchmaking:gateway_instance_id"

-- `string.match(member, '^[^:]*')`
unfoldable pub owner : Scored → Text
owner e = before_byte member_separator e.member

-- A stored string that equals the argument; a key that is not there equals no argument.
unfoldable pub is_stored : Option Text → Text → Bool
is_stored none id = false
is_stored (some stored) id = text_eq stored id

-- `GET … or ''`
unfoldable pub or_empty : Option Text → Text
or_empty none = []
or_empty (some stored) = stored

-- One of the triples that reenqueue.lua receives.
pub record EntryArgs : Type 0 where
  pub player_id : Text
  pub member : Text
  pub score : ℤ

module _ (redis : Redis) where
  open redis use {Db, zrange, get, zadd, zrem, zpopmin, zcard, del, set, score_text}

  -- The loop of removePlayerEntries over the members that ZRANGE answered.
  unfoldable pub remove_loop : Db → Text → Text → List Scored → ℕ → Db × ℕ
  remove_loop db key player [] removed = (db, removed)
  remove_loop db key player (e ∷ es) removed =
      let rest = λ (r : Db × ℕ). remove_loop r.0 key player es r.1 in
      rest (
        if text_eq (owner e) player
        then ((zrem db key e.member).0, removed + (zrem db key e.member).1)
        else (db, removed))

  unfoldable pub remove_player_entries : Db → Text → Text → Db × ℕ
  remove_player_entries db key player = remove_loop db key player (zrange db key) 0

  unfoldable pub cancel_script : Text → Db → Db × ℕ
  cancel_script player db = remove_player_entries db queue_key player

  -- The queue is emptied if the stored instance is another one, or none.
  unfoldable pub reset_queue : Text → Db → Db × ℕ
  reset_queue instance_id db =
      if not (is_stored (get db gateway_instance_key) instance_id)
      then (del db queue_key, zcard db queue_key)
      else (db, 0)

  unfoldable pub enqueue_script : Text → Text → ℤ → Text → Db → Db × ℕ
  enqueue_script player member score instance_id db =
      let (db1, removed) = reset_queue instance_id db in
      let db2 = set db1 gateway_instance_key instance_id in
      let db3 = (remove_player_entries db2 queue_key player).0 in
      (zadd db3 queue_key score member, removed)

  -- The flat list that ZPOPMIN answers.
  unfoldable pub flatten_scored : List Scored → List Text
  flatten_scored [] = []
  flatten_scored (e ∷ es) = e.member ∷ score_text e.score ∷ flatten_scored es

  unfoldable pub pop_pair_script : Db → Db × List Text
  pop_pair_script db =
      let (db', pair) = zpopmin db queue_key 2 in
      if ltb (zcard db queue_key) 2
      then (db, [])
      else (db', or_empty (get db' gateway_instance_key) ∷ flatten_scored pair)

  unfoldable pub reenqueue_loop : List EntryArgs → Db → Db
  reenqueue_loop [] db = db
  reenqueue_loop (a ∷ args) db =
      reenqueue_loop args
        (zadd (remove_player_entries db queue_key a.player_id).0 queue_key a.score a.member)

  unfoldable pub reenqueue_script : Text → List EntryArgs → Db → Db × ℕ
  reenqueue_script expected_id args db =
      if not (text_eq (or_empty (get db gateway_instance_key)) expected_id)
      then (db, 0)
      else (reenqueue_loop args db, 1)
