-- ===== src/RedisQueue/Queue.antt =====
-- internal/adapter/redisqueue/redis_queue.go: the methods of RedisQueue. What the connection to Redis
-- does to a call is an argument of each method: go-redis may send a script again when its reply is
-- lost, and gives up with an error in the end.
use overload_party_matchmaki.Prelude.{
  ℕ, zero, suc, ℤ, Text, Bool, ltb, List, [], ◌∷◌, Result, ok, err,
}
use overload_party_matchmaki.Domain.{QueueEntry}
use overload_party_matchmaki.Redis.{Redis}
use overload_party_matchmaki.Std.Decimal.{NumError, parse_int}
use overload_party_matchmaki.Std.Float64.{float64}
use overload_party_matchmaki.RedisQueue.Member.{
  QueueError, player_id_empty, gateway_instance_id_empty, enqueue_failed, cancel_failed,
  zcard_failed, pop_pair_failed, reenqueue_failed, parse_score, index_out_of_range, Member,
  validate_member_player_id, encode_member, decode_member,
}
use overload_party_matchmaki.RedisQueue.Scripts.{
  EntryArgs, queue_key, cancel_script, enqueue_script, pop_pair_script, reenqueue_script,
}

-- `answered n`: the script ran `n` times with its reply lost, and then once with a reply.
-- `failed n cause`: it ran `n` times, and the caller gets the error.
pub data Delivery : Type 0 where
  answered : ℕ → Delivery
  failed : ℕ → Text → Delivery

infixl 5 ◌>>=◌
abbrev pub ◌>>=◌ :
    {A B : Type 0} → Result QueueError A → (A → Result QueueError B) → Result QueueError B
ok a >>= f = f a
err e >>= f = err e

parse_millis : Result NumError ℤ → Result QueueError ℤ
parse_millis (ok n) = ok n
parse_millis (err e) = err (parse_score e)

unfoldable pub to_entry : Member → ℤ → QueueEntry
to_entry m joined_at = record {
  player_id = m.player_id;
  deck_id = m.deck_id;
  name = m.name;
  level = m.level;
  joined_at = joined_at;
}

-- The loop of PopPair over the members and scores of the reply.
unfoldable pub decode_pairs : List Text → Result QueueError (List QueueEntry)
unfolding parse_millis
decode_pairs [] = ok []
decode_pairs (m ∷ []) = decode_member m >>= λ _. err index_out_of_range
decode_pairs (m ∷ s ∷ raw) =
    let rest = decode_pairs raw in
    decode_member m >>= λ member. parse_millis (parse_int s) >>= λ millis.
    rest >>= λ entries. ok (to_entry member millis ∷ entries)

unfoldable pub decode_reply : List Text → Result QueueError (List QueueEntry × Text)
decode_reply [] = ok ([], [])
decode_reply (instance_id ∷ raw) = decode_pairs raw >>= λ entries. ok (entries, instance_id)

-- The arguments of reenqueue.lua; the first player that cannot be stored stops the call.
unfoldable pub entry_args : List QueueEntry → Result QueueError (List EntryArgs)
entry_args [] = ok []
entry_args (e ∷ es) =
    let rest = entry_args es in
    validate_member_player_id e.player_id >>= λ _. rest >>= λ args. ok (
      record {
        player_id = e.player_id;
        member = encode_member e.player_id e.deck_id e.level e.name;
        score = float64 e.joined_at;
      }
      ∷ args)

module _ (redis : Redis) where
  open redis use {Db, zcard}

  unfoldable pub repeat {ℓ} : {A : Type ℓ} → ℕ → (Db → Db × A) → Db → Db
  repeat zero script db = db
  repeat (suc n) script db = repeat n script (script db).0

  unfoldable pub deliver {ℓ} :
      {A : Type ℓ} → Delivery → (Text → QueueError) → (Db → Db × A) → Db → Db × Result QueueError A
  unfolding repeat
  deliver (answered n) wrap script db = let r = script (repeat n script db) in (r.0, ok r.1)
  deliver (failed n cause) wrap script db = (repeat n script db, err (wrap cause))

  -- `now` is `time.Now().UnixMilli()`.
  unfoldable pub enqueue : Delivery → ℤ → Text → ℤ → Text → ℤ → Text → Db → Db × Result QueueError ℕ
  unfolding deliver
  enqueue delivery now player_id deck_id name level instance_id db =
      elim (validate_member_player_id player_id) [
        | err e ↦ (db, err e)
        | ok _ ↦ elim instance_id [
          | [] ↦ (db, err gateway_instance_id_empty)
          | c ∷ s ↦
              deliver delivery enqueue_failed
                (enqueue_script redis player_id (encode_member player_id deck_id level name)
                  (float64 now) (c ∷ s))
                db
        ]
      ]

  unfoldable pub cancel : Delivery → Text → Db → Db × Result QueueError Bool
  unfolding deliver
  cancel delivery [] db = (db, err player_id_empty)
  cancel delivery (c ∷ s) db =
      let (db', removed) = deliver delivery cancel_failed (cancel_script redis (c ∷ s)) db in
      (db', removed >>= λ n. ok (ltb 0 n))

  unfoldable pub size : Delivery → Db → Result QueueError ℕ
  unfolding deliver
  size delivery db = (deliver delivery zcard_failed (λ (d : Db). (d, zcard d queue_key)) db).1

  unfoldable pub pop_pair : Delivery → Db → Db × Result QueueError (List QueueEntry × Text)
  unfolding deliver
  pop_pair delivery db =
      let (db', reply) = deliver delivery pop_pair_failed (pop_pair_script redis) db in
      (db', reply >>= decode_reply)

  unfoldable pub reenqueue : Delivery → List QueueEntry → Text → Db → Db × Result QueueError Bool
  unfolding deliver
  reenqueue delivery entries instance_id db = elim (entry_args entries) [
    | err e ↦ (db, err e)
    | ok args ↦
        let (db', written) =
          deliver delivery reenqueue_failed (reenqueue_script redis instance_id args) db in
        (db', written >>= λ n. ok (ltb 0 n))
  ]
