-- ===== src/RedisQueue/Refinement/Calls.antt =====
-- Each method of redis_queue.go against the same call of the waiting room of Room.
use overload_party_matchmaki.Prelude.{
  Text, ◌≡◌, refl, ◌∙◌, ap, List, [], ◌∷◌, map, length, length-map, All, Result, ok, err,
  Result-cases, Bool-cases, inl, inr, arith,
}
use overload_party_matchmaki.Domain.{QueueEntry}
use overload_party_matchmaki.Redis.{Redis}
use overload_party_matchmaki.RedisQueue.Member.{
  QueueError, validate_member_player_id, encode_member,
}
use overload_party_matchmaki.RedisQueue.Scripts.{
  owner, is_stored, enqueue_script, cancel_script, queue_key,
}
use overload_party_matchmaki.RedisQueue.Queue.{
  answered, deliver, repeat, enqueue, cancel, size, pop_pair, reenqueue,
}
use overload_party_matchmaki.RedisQueue.Purge.{others, remove_player_entries_count}
use overload_party_matchmaki.RedisQueue.Effects.{
  waiting, instance_of, kept, replace, waiting-enqueue_script, instance_of-enqueue_script,
  enqueue_script_reply, waiting-cancel_script, instance_of-cancel_script,
}
use overload_party_matchmaki.RedisQueue.WellFormed.{
  IsStorable, to_scored, owner-to_scored, scored-to_scored,
}
use overload_party_matchmaki.RedisQueue.Invariant.{IsPlain, IsPlain-IsStorable, float64-joined_at}
use overload_party_matchmaki.RedisQueue.Room.{
  Room, take_out, Ask, enqueues, cancels, sizes, pops, reenqueues, Answer, removed, was_waiting,
  counted, popped, written, refused, admit, ask_room,
}
use overload_party_matchmaki.RedisQueue.Room.Lists.{
  others-map, take_out-All, join-All, replace-map, take_out_count,
}

module _ (redis : Redis) where
  open redis use {Db, zcard, zcard-zrange}

  unfoldable pub answer_of {ℓ} : {A : Type ℓ} → (A → Answer) → Result QueueError A → Answer
  answer_of f (ok a) = f a
  answer_of f (err e) = refused e

  unfoldable pub answer_of_pair : Result QueueError (List QueueEntry × Text) → Answer
  answer_of_pair (ok (es, id)) = popped es id
  answer_of_pair (err e) = refused e

  -- A call of the Redis queue whose reply arrives.
  unfoldable pub ask_redis : Ask → Db → Db × Answer
  unfolding answer_of answer_of_pair
  ask_redis (enqueues q instance_id) db =
      let r =
        enqueue redis (answered 0) q.joined_at q.player_id q.deck_id q.name q.level instance_id
          db in
      (r.0, answer_of removed r.1)
  ask_redis (cancels player) db =
      let r = cancel redis (answered 0) player db in (r.0, answer_of was_waiting r.1)
  ask_redis sizes db = (db, answer_of counted (size redis (answered 0) db))
  ask_redis pops db = let r = pop_pair redis (answered 0) db in (r.0, answer_of_pair r.1)
  ask_redis (reenqueues qs instance_id) db =
      let r = reenqueue redis (answered 0) qs instance_id db in (r.0, answer_of written r.1)

  -- The database holds the room.
  pub record Represents (db : Db) (r : Room) : Type 0 where
    pub stored : waiting redis db ≡ map to_scored r.entries
    pub instance_same : instance_of redis db ≡ r.instance_id
    pub storable : All IsStorable r.entries

  -- One call on both sides.
  abbrev pub Agrees : Db × Answer → Room × Answer → Type 0
  Agrees d r = Represents d.0 r.0 × (d.1 ≡ r.1)

  pub cancel-Agrees :
      (player : Text) (db : Db) (r : Room)
      → Represents db r
      → Agrees (ask_redis (cancels player) db) (ask_room (cancels player) r)
  unfolding ask_redis cancel deliver repeat answer_of cancel_script
  cancel-Agrees [] db r h = (h, refl)
  cancel-Agrees (c ∷ s) db r h = (
    record {
      stored =
          waiting-cancel_script redis (c ∷ s) db
          ∙ rw (h.stored) (others-map (c ∷ s) r.entries h.storable);
      instance_same = instance_of-cancel_script redis (c ∷ s) db ∙ h.instance_same;
      storable = take_out-All (c ∷ s) r.entries h.storable;
    },
    ap was_waiting (
        take_out_count (c ∷ s) r.entries _ (
          omega (
            arith,
            remove_player_entries_count redis db queue_key (c ∷ s),
            ap length (ap (others (c ∷ s)) h.stored ∙ others-map (c ∷ s) r.entries h.storable),
            ap length h.stored,
            length-map (take_out (c ∷ s) r.entries) to_scored,
            length-map r.entries to_scored,
          ))),
  )

  pub size-Agrees :
      (db : Db) (r : Room) → Represents db r → Agrees (ask_redis sizes db) (ask_room sizes r)
  unfolding ask_redis size deliver repeat answer_of
  size-Agrees db r h = (
    h,
    ap counted (zcard-zrange db queue_key ∙ ap length h.stored ∙ length-map r.entries to_scored),
  )

  -- The script of an enqueue, for a player who can be stored.
  admit-Agrees :
      (q : QueueEntry) (id : Text) (db : Db) (r : Room)
      → IsStorable q
      → Represents db r
      → Agrees
          (
            (enqueue_script redis q.player_id
                (encode_member q.player_id q.deck_id q.level q.name)
                q.joined_at
                id
                db).0,
            removed
                (enqueue_script redis q.player_id
                  (encode_member q.player_id q.deck_id q.level q.name)
                  q.joined_at
                  id
                  db).1,
          )
          (admit q id r)
  admit-Agrees q id db r s h =
      let set =
        instance_of-enqueue_script redis q.player_id
          (encode_member q.player_id q.deck_id q.level q.name) q.joined_at id db in
      let put =
        waiting-enqueue_script redis q.player_id
          (encode_member q.player_id q.deck_id q.level q.name) q.joined_at id db
          (ap owner (scored-to_scored q s) ∙ owner-to_scored q s)
        ∙ ap (λ e. replace q.player_id e (kept redis id db)) (scored-to_scored q s) in
      let reply =
        enqueue_script_reply redis q.player_id (encode_member q.player_id q.deck_id q.level q.name)
          q.joined_at id db in
      elim (Bool-cases (is_stored r.instance_id id)) [
        | inl same ↦ rw (same) (
          record {
            stored =
                put ∙ rw (h.instance_same, same, h.stored) (replace-map q r.entries h.storable);
            instance_same = set;
            storable = join-All q r.entries s h.storable;
          },
          ap removed (reply ∙ rw (h.instance_same, same) refl),
        )
        | inr other ↦ rw (other) (
          record {
            stored = put ∙ rw (h.instance_same, other) refl;
            instance_same = set;
            storable = (s, tt);
          },
          ap removed (
              reply
              ∙ rw (h.instance_same, other) (ap length h.stored ∙ length-map r.entries to_scored)),
        )
      ]

  pub enqueue-Agrees :
      (q : QueueEntry) (instance_id : Text) (db : Db) (r : Room)
      → IsPlain q
      → Represents db r
      → Agrees (ask_redis (enqueues q instance_id) db) (ask_room (enqueues q instance_id) r)
  unfolding ask_redis enqueue deliver repeat answer_of
  enqueue-Agrees q [] db r p h = elim (Result-cases (validate_member_player_id q.player_id)) [
    | inl (e, no_place) ↦ rw (no_place, ask_redis, enqueue, ask_room) (h, refl)
    | inr (_, accepted) ↦ rw (accepted, ask_redis, enqueue, ask_room) (h, refl)
  ]
  enqueue-Agrees q (c ∷ s) db r p h = elim (Result-cases (validate_member_player_id q.player_id)) [
    | inl (e, no_place) ↦ rw (no_place, ask_redis, enqueue, ask_room) (h, refl)
    | inr (_, accepted) ↦
        rw (accepted, ask_redis, enqueue, ask_room, float64-joined_at q p)
          (admit-Agrees q (c ∷ s) db r (IsPlain-IsStorable q p accepted) h)
  ]
