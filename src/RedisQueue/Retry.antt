-- ===== src/RedisQueue/Retry.antt =====
-- What happens to the queue when a reply is lost and the script runs again.
use overload_party_matchmaki.Prelude.{
  ℕ, zero, suc, ◌+◌, ◌*◌, ◌≤◌, ℤ, Text, text_eq_refl, true, ◌≡◌, refl, ◌∙◌, ap, List, [], ◌∷◌,
  length, drop, some, arith,
}
use overload_party_matchmaki.Redis.{Redis, Scored, place}
use overload_party_matchmaki.RedisQueue.Scripts.{owner, is_stored, enqueue_script, pop_pair_script}
use overload_party_matchmaki.RedisQueue.Queue.{repeat}
use overload_party_matchmaki.RedisQueue.Purge.{others}
use overload_party_matchmaki.RedisQueue.Effects.{
  waiting, instance_of, kept, scored, replace, waiting-enqueue_script, instance_of-enqueue_script,
  waiting-pop_pair_script,
}

others-place :
    (player : Text) (e : Scored) (es : List Scored)
    → owner e ≡ player
    → others player (place e es) ≡ others player es
others-place player e [] h = ground (arith, text_eq_refl player)
others-place player e (f ∷ es) h = ground (arith, text_eq_refl player, others-place player e es h)

others-others :
    (player : Text) (es : List Scored) → others player (others player es) ≡ others player es
others-others player [] = refl
others-others player (e ∷ es) = ground (arith, others-others player es)

stored_self : (id : Text) → is_stored (some id) id ≡ true
unfolding is_stored
stored_self id = text_eq_refl id

others-replace :
    (player : Text) (e : Scored) (es : List Scored)
    → owner e ≡ player
    → others player (replace player e es) ≡ others player es
others-replace player e es h = others-place player e (others player es) h ∙ others-others player es

drop_nil {ℓ} : {A : Type ℓ} (n : ℕ) → drop {A = A} n [] ≡ []
drop_nil zero = refl
drop_nil (suc n) = refl

drop-drop {ℓ} : {A : Type ℓ} (n : ℕ) (es : List A) → drop n (drop 2 es) ≡ drop (suc (suc n)) es
drop-drop n [] = drop_nil n
drop-drop n (x ∷ []) = drop_nil n
drop-drop n (x ∷ y ∷ es) = refl

length-drop-two {ℓ} : {A : Type ℓ} (es : List A) → length es ≤ length (drop 2 es) + 2
length-drop-two [] = omega arith
length-drop-two (x ∷ []) = omega arith
length-drop-two (x ∷ y ∷ es) = omega arith

module _ (redis : Redis) where
  open redis use {Db}

  again :
      (player member : Text) (score : ℤ) (id : Text) (db : Db)
      → owner (scored member score) ≡ player
      → let script = enqueue_script redis player member score id in
        waiting redis (script (script db).0).0 ≡ waiting redis (script db).0
  again player member score id db h =
      let once = (enqueue_script redis player member score id db).0 in
      waiting-enqueue_script redis player member score id once h
      ∙ rw (
        instance_of-enqueue_script redis player member score id db,
        stored_self id,
        waiting-enqueue_script redis player member score id db h,
        others-replace player (scored member score) (kept redis id db) h,
      )

  -- enqueue.lua may run again: after any number of runs, at least one, of the same call, whose member
  -- names the call's player, the queue is the one after a single run, and the stored instance is the
  -- caller's.
  pub waiting-repeat_enqueue :
      (n : ℕ) (player member : Text) (score : ℤ) (id : Text) (db : Db)
      → owner (scored member score) ≡ player
      → let script = enqueue_script redis player member score id in
        (waiting redis (repeat redis (suc n) script db) ≡ waiting redis (script db).0)
        × (instance_of redis (repeat redis (suc n) script db) ≡ some id)
  unfolding repeat
  waiting-repeat_enqueue zero player member score id db h =
      (refl, instance_of-enqueue_script redis player member score id db)
  waiting-repeat_enqueue (suc n) player member score id db h =
      let once = (enqueue_script redis player member score id db).0 in
      let (same, stored) = waiting-repeat_enqueue n player member score id once h in
      (same ∙ again player member score id db h, stored)

  -- pop_pair.lua may not: what `n` runs of it, whose replies are lost, leave of a queue of at least
  -- `2 * n` entries is the queue without its first `2 * n` entries.
  pub waiting-repeat_pop_pair :
      (n : ℕ) (db : Db)
      → 2 * n ≤ length (waiting redis db)
      → waiting redis (repeat redis n (pop_pair_script redis) db) ≡ drop (2 * n) (waiting redis db)
  unfolding repeat
  waiting-repeat_pop_pair zero db h = refl
  waiting-repeat_pop_pair (suc n) db h =
      let step : waiting redis (pop_pair_script redis db).0 ≡ drop 2 (waiting redis db) =
        waiting-pop_pair_script redis db ∙ ground arith in
      let twice : 2 * suc n ≡ suc (suc (2 * n)) = omega arith in
      waiting-repeat_pop_pair n (pop_pair_script redis db).0
        (rw step (omega (arith, length-drop-two (waiting redis db))))
      ∙ ap (drop (2 * n)) step
      ∙ rw twice (drop-drop (2 * n) (waiting redis db))
