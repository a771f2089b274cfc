-- ===== src/RedisQueue/Refinement.antt =====
-- Sequences of calls of the methods of redis_queue.go against the waiting room of Room.
pub mod Calls
pub mod Pairs
pub mod Told
pub mod Popped
use overload_party_matchmaki.Prelude.{
  Text, text_eq, true, ltb, ◌≡◌, refl, ◌∙◌, ap, List, [], ◌∷◌, map, length, length-map, All,
  Option-cases, Result, ok, err, Result-cases, Bool-cases, inl, inr, arith,
}
use overload_party_matchmaki.Domain.{QueueEntry}
use overload_party_matchmaki.Redis.{Redis}
use overload_party_matchmaki.RedisQueue.Member.{
  QueueError, validate_member_player_id, encode_member,
}
use overload_party_matchmaki.RedisQueue.Scripts.{
  is_stored, or_empty, enqueue_script, cancel_script, reenqueue_script, queue_key,
}
use overload_party_matchmaki.RedisQueue.Queue.{
  answered, deliver, repeat, enqueue, cancel, size, pop_pair, reenqueue, decode_reply,
}
use overload_party_matchmaki.RedisQueue.Purge.{others, remove_player_entries_count}
use overload_party_matchmaki.RedisQueue.Effects.{
  waiting, instance_of, waiting-enqueue_script, instance_of-enqueue_script, enqueue_script_reply,
  waiting-cancel_script, instance_of-cancel_script, waiting-pop_pair_script,
  instance_of-pop_pair_script, pop_pair_script_reply, waiting-reenqueue_script,
  instance_of-reenqueue_script, reenqueue_script_reply,
}
use overload_party_matchmaki.RedisQueue.WellFormed.{IsStorable, to_scored, owner-to_scored}
use overload_party_matchmaki.RedisQueue.Invariant.{
  IsPlain, IsPlain-IsStorable, args_of, Owned-args_of,
}
use overload_party_matchmaki.RedisQueue.Restore.{pop_pair_front}
use overload_party_matchmaki.RedisQueue.Room.{
  Room, take_out, first_refused, Ask, enqueues, cancels, sizes, pops, reenqueues, Answer, removed,
  was_waiting, counted, popped, written, refused, admit, first_pair, take_back, ask_room,
  ask_room_all,
}
use overload_party_matchmaki.RedisQueue.Room.Lists.{
  others-map, take_out-All, join-All, join_all-All, replace-map, replace_all-map, take_out_count,
  entry_args_refused, entry_args-none,
}
use overload_party_matchmaki.RedisQueue.Refinement.Calls.{
  ask_redis, Represents, Agrees, cancel-Agrees, size-Agrees, enqueue-Agrees,
}
use overload_party_matchmaki.RedisQueue.Refinement.Pairs.{pop_front, reenqueue-Agrees}

-- What a caller may ask: numbers and names as Go gives them, and any player.
abbrev pub IsPlainAsk : Ask → Type 0
IsPlainAsk (enqueues q instance_id) = IsPlain q
IsPlainAsk (cancels player) = Unit {0}
IsPlainAsk sizes = Unit {0}
IsPlainAsk pops = Unit {0}
IsPlainAsk (reenqueues qs instance_id) = All IsPlain qs

module _ (redis : Redis) where
  open redis use {Db}

  unfoldable pub ask_redis_all : List Ask → Db → Db × List Answer
  ask_redis_all [] db = (db, [])
  ask_redis_all (a ∷ asks) db =
      let (next, answer) = ask_redis redis a db in
      let (last, answers) = ask_redis_all asks next in (last, answer ∷ answers)

  ask-Agrees :
      (a : Ask) (db : Db) (r : Room)
      → IsPlainAsk a
      → Represents redis db r
      → Agrees redis (ask_redis redis a db) (ask_room a r)
  ask-Agrees (enqueues q instance_id) db r p h = enqueue-Agrees redis q instance_id db r p h
  ask-Agrees (cancels player) db r p h = cancel-Agrees redis player db r h
  ask-Agrees sizes db r p h = size-Agrees redis db r h
  ask-Agrees pops db r p h = pop_front redis r.entries db r refl h h.storable
  ask-Agrees (reenqueues qs instance_id) db r p h = reenqueue-Agrees redis qs instance_id db r p h

  -- The Redis queue is a waiting room: whatever calls are made of it, in whatever order, with int64
  -- numbers, times within 2 ^ 53 milliseconds of 1970, byte names and any players, and with replies
  -- that arrive, its answers are those of the room, one by one, its refusals included, and its
  -- database holds the room in the end, if it did in the beginning.
  pub ask_redis_all-refines :
      (asks : List Ask) (db : Db) (r : Room)
      → All IsPlainAsk asks
      → Represents redis db r
      → Represents redis (ask_redis_all asks db).0 (ask_room_all asks r).0
        × ((ask_redis_all asks db).1 ≡ (ask_room_all asks r).1)
  unfolding ask_redis_all
  ask_redis_all-refines [] db r p h = (h, refl)
  ask_redis_all-refines (a ∷ asks) db r p h =
      let (next, same) = ask-Agrees a db r p.0 h in
      let (last, rest) = ask_redis_all-refines asks _ _ p.1 next in (last, rw (same, rest) refl)
