-- ===== src/RedisQueue/Refinement/Pairs.antt =====
-- PopPair and Reenqueue of redis_queue.go against the same calls of the waiting room of Room.
use overload_party_matchmaki.Prelude.{
  Text, text_eq, true, ltb, ◌≡◌, refl, ◌∙◌, ap, List, [], ◌∷◌, map, length, length-map, All,
  Option-cases, Bool-cases, inl, inr,
}
use overload_party_matchmaki.Domain.{QueueEntry}
use overload_party_matchmaki.Redis.{Redis}
use overload_party_matchmaki.RedisQueue.Scripts.{or_empty, reenqueue_script}
use overload_party_matchmaki.RedisQueue.Queue.{deliver, repeat, pop_pair, reenqueue, decode_reply}
use overload_party_matchmaki.RedisQueue.Effects.{
  waiting, waiting-pop_pair_script, instance_of-pop_pair_script, pop_pair_script_reply,
  waiting-reenqueue_script, instance_of-reenqueue_script, reenqueue_script_reply,
}
use overload_party_matchmaki.RedisQueue.WellFormed.{IsStorable, to_scored}
use overload_party_matchmaki.RedisQueue.Invariant.{IsPlain, args_of, Owned-args_of}
use overload_party_matchmaki.RedisQueue.Restore.{pop_pair_front}
use overload_party_matchmaki.RedisQueue.Room.{
  Room, first_refused, pops, reenqueues, popped, written, first_pair, take_back, ask_room,
}
use overload_party_matchmaki.RedisQueue.Room.Lists.{
  join_all-All, replace_all-map, entry_args_refused, entry_args-none,
}
use overload_party_matchmaki.RedisQueue.Refinement.Calls.{
  answer_of, answer_of_pair, ask_redis, Represents, Agrees,
}

module _ (redis : Redis) where
  open redis use {Db}

  -- A queue of less than two entries.
  pop_few :
      (db : Db) (r : Room)
      → Represents redis db r
      → ltb (length r.entries) 2 ≡ true
      → Agrees redis (ask_redis redis pops db) (r, popped [] [])
  unfolding ask_redis answer_of_pair pop_pair deliver repeat decode_reply
  pop_few db r h few =
      let short : ltb (length (waiting redis db)) 2 ≡ true =
        rw (h.stored, length-map r.entries to_scored) few in
      (
        record {
          stored = waiting-pop_pair_script redis db ∙ rw (short) h.stored;
          instance_same = instance_of-pop_pair_script redis db ∙ h.instance_same;
          storable = h.storable;
        },
        rw (pop_pair_script_reply redis db, short) refl,
      )

  pub pop_front :
      (es : List QueueEntry) (db : Db) (r : Room)
      → r.entries ≡ es
      → Represents redis db r
      → All IsStorable es
      → Agrees redis (ask_redis redis pops db) (first_pair r es)
  unfolding ask_redis answer_of_pair
  pop_front [] db r e h s = pop_few db r h (rw (e) refl)
  pop_front (a ∷ []) db r e h s = pop_few db r h (rw (e) refl)
  pop_front (a ∷ b ∷ rest) db r e h s =
      let (answer, left, same) =
        pop_pair_front redis db a b (map to_scored rest) s.0 s.1.0
          (h.stored ∙ ap (map to_scored) e) in
      (
        record { stored = left; instance_same = same ∙ h.instance_same; storable = s.1.1 },
        rw (answer, h.instance_same) refl,
      )

  take_back-Agrees :
      (qs : List QueueEntry) (id : Text) (db : Db) (r : Room)
      → All IsStorable qs
      → Represents redis db r
      → Agrees redis
          (
            (reenqueue_script redis id (map args_of qs) db).0,
            written (ltb 0 (reenqueue_script redis id (map args_of qs) db).1),
          )
          (take_back qs id r)
  take_back-Agrees qs id db r s h =
      let put = waiting-reenqueue_script redis id (map args_of qs) db (Owned-args_of qs s) in
      let same = instance_of-reenqueue_script redis id (map args_of qs) db ∙ h.instance_same in
      let reply = reenqueue_script_reply redis id (map args_of qs) db in
      elim (Bool-cases (text_eq (or_empty r.instance_id) id)) [
        | inl here ↦ rw (here) (
          record {
            stored =
                put
                ∙ rw (h.instance_same, here, h.stored) (replace_all-map qs r.entries s h.storable);
            instance_same = same;
            storable = join_all-All qs r.entries s h.storable;
          },
          rw (reply, h.instance_same, here) refl,
        )
        | inr elsewhere ↦ rw (elsewhere) (
          record {
            stored = put ∙ rw (h.instance_same, elsewhere) h.stored;
            instance_same = same;
            storable = h.storable;
          },
          rw (reply, h.instance_same, elsewhere) refl,
        )
      ]

  pub reenqueue-Agrees :
      (qs : List QueueEntry) (instance_id : Text) (db : Db) (r : Room)
      → All IsPlain qs
      → Represents redis db r
      → Agrees redis
          (ask_redis redis (reenqueues qs instance_id) db)
          (ask_room (reenqueues qs instance_id) r)
  unfolding ask_redis reenqueue deliver repeat answer_of
  reenqueue-Agrees qs instance_id db r p h = elim (Option-cases (first_refused qs)) [
    | inl all ↦
        let (found, storable) = entry_args-none qs p all in
        rw (all, found, ask_redis, reenqueue, ask_room)
          (take_back-Agrees qs instance_id db r storable h)
    | inr (e, some_refused) ↦
        rw (some_refused, entry_args_refused qs e some_refused, ask_redis, reenqueue, ask_room)
          (h, refl)
  ]
