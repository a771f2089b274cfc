-- ===== src/RedisQueue/Refinement/Popped.antt =====
-- What PopPair of redis_queue.go can answer.
use overload_party_matchmaki.Prelude.{
  Text, ◌≡◌, refl, sym, ap, ◌∙◌, List, [], ◌∷◌, All, All-map_imp, ok,
}
use overload_party_matchmaki.Domain.{QueueEntry}
use overload_party_matchmaki.Redis.{Redis}
use overload_party_matchmaki.RedisQueue.Scripts.{pop_pair_script}
use overload_party_matchmaki.RedisQueue.Queue.{
  Delivery, answered, failed, deliver, repeat, pop_pair,
}
use overload_party_matchmaki.RedisQueue.Effects.{waiting, instance_of}
use overload_party_matchmaki.RedisQueue.WellFormed.{IsStorable}
use overload_party_matchmaki.RedisQueue.Invariant.{
  IsPlain, IsSound, repeat-IsSound, pop_pair_script-IsSound,
}
use overload_party_matchmaki.RedisQueue.Room.{Room, popped, first_pair}
use overload_party_matchmaki.RedisQueue.Refinement.Calls.{ask_redis, answer_of_pair}
use overload_party_matchmaki.RedisQueue.Refinement.Pairs.{pop_front}
use overload_party_matchmaki.RedisQueue.Refinement.Told.{read_back}

popped_same : (es fs : List QueueEntry) (s t : Text) → popped es s ≡ popped fs t → es ≡ fs
popped_same es fs s t h = cc

front_all :
    (r : Room) (es : List QueueEntry) (pair : List QueueEntry) (id : Text)
    → All IsStorable es
    → popped pair id ≡ (first_pair r es).1
    → All IsStorable pair
front_all r [] pair id h e = rw (popped_same pair [] id _ e) tt
front_all r (a ∷ []) pair id h e = rw (popped_same pair [] id _ e) tt
front_all r (a ∷ b ∷ es) pair id h e = rw (popped_same pair (a ∷ b ∷ []) id _ e) (h.0, (h.1.0, tt))

storable-IsPlain : (q : QueueEntry) → IsStorable q → IsPlain q
storable-IsPlain q s = record {
  deck_fits = s.deck_fits;
  level_fits = s.level_fits;
  joined_fits = s.joined_fits;
  name_bytes = s.name_bytes;
}

module _ (redis : Redis) where
  open redis use {Db}

  answered_once :
      (db : Db) (pair : List QueueEntry) (id : Text)
      → IsSound redis db
      → (pop_pair redis (answered 0) db).1 ≡ ok (pair, id)
      → All IsStorable pair
  unfolding ask_redis answer_of_pair
  answered_once db pair id w h =
      let (qs, stored, storable) = read_back (waiting redis db) w.readable in
      let r : Room = record { instance_id = instance_of redis db; entries = qs } in
      let front =
        pop_front redis qs db r refl
          (record { stored = stored; instance_same = refl; storable = storable }) storable in
      front_all r qs pair id storable (sym (ap (answer_of_pair redis) h) ∙ front.1)

  -- The entries that PopPair answers of a sound queue may be written back.
  pub pop_pair-IsPlain :
      (delivery : Delivery) (db : Db) (pair : List QueueEntry) (id : Text)
      → IsSound redis db
      → (pop_pair redis delivery db).1 ≡ ok (pair, id)
      → All IsPlain pair
  unfolding pop_pair deliver repeat
  pop_pair-IsPlain (answered n) db pair id w h = All-map_imp pair storable-IsPlain (
      answered_once (repeat redis n (pop_pair_script redis) db) pair id
        (repeat-IsSound redis (pop_pair_script redis) (pop_pair_script-IsSound redis) n db w) h)
  pop_pair-IsPlain (failed n cause) db pair id w h = absurd (cc)
