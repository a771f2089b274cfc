-- ===== src/RedisQueue/Invariant.antt =====
-- The well-formed queue under sequences of the methods of redis_queue.go, with scripts that run more
-- than once and replies that are lost.
use overload_party_matchmaki.Prelude.{
  ℕ, zero, suc, IsInt64, IsBytes, Text, ◌≡◌, ap, ◌∙◌, inl, inr, List, [], ◌∷◌, map, All, ok,
  Result-cases, arith,
}
use overload_party_matchmaki.Domain.{QueueEntry}
use overload_party_matchmaki.Redis.{Redis, Scored}
use overload_party_matchmaki.Std.Float64.{float64, IsExact, float64-IsExact}
use overload_party_matchmaki.RedisQueue.Member.{
  QueueError, validate_member_player_id, encode_member,
}
use overload_party_matchmaki.RedisQueue.Scripts.{
  EntryArgs, owner, enqueue_script, cancel_script, pop_pair_script, reenqueue_script,
}
use overload_party_matchmaki.RedisQueue.Queue.{
  Delivery, answered, failed, repeat, deliver, enqueue, cancel, pop_pair, reenqueue, entry_args,
}
use overload_party_matchmaki.RedisQueue.Effects.{
  waiting, kept, replace, replace_all, Owned, waiting-enqueue_script, waiting-cancel_script,
  waiting-pop_pair_script, waiting-reenqueue_script,
}
use overload_party_matchmaki.RedisQueue.WellFormed.{
  IsWellFormed, IsStorable, to_scored, owner-to_scored, scored-to_scored, nil-IsWellFormed,
  drop-IsWellFormed, others-IsWellFormed, replace-IsWellFormed,
}

-- The fields that a caller may give freely: int64 numbers, a time that a float64 holds, and strings of
-- bytes.
pub record IsPlain (q : QueueEntry) : Type 0 where
  pub deck_fits : IsInt64 q.deck_id
  pub level_fits : IsInt64 q.level
  pub joined_fits : IsExact q.joined_at
  pub name_bytes : IsBytes q.name

pub IsPlain-IsStorable :
    (q : QueueEntry) → IsPlain q → validate_member_player_id q.player_id ≡ ok tt → IsStorable q
IsPlain-IsStorable q p h = record {
  accepted = h;
  deck_fits = p.deck_fits;
  level_fits = p.level_fits;
  joined_fits = p.joined_fits;
  name_bytes = p.name_bytes;
}

abbrev pub args_of : QueueEntry → EntryArgs
args_of q = record {
  player_id = q.player_id;
  member = encode_member q.player_id q.deck_id q.level q.name;
  score = q.joined_at;
}

pub float64-joined_at : (q : QueueEntry) → IsPlain q → float64 q.joined_at ≡ q.joined_at
float64-joined_at q p = float64-IsExact q.joined_at p.joined_fits

-- The reenqueue arguments exist only if every player is accepted, and are then those of each entry.
pub entry_args_ok :
    (qs : List QueueEntry) (args : List EntryArgs)
    → entry_args qs ≡ ok args
    → All IsPlain qs
    → (args ≡ map args_of qs) × All IsStorable qs
unfolding entry_args
entry_args_ok [] args h p = ground arith
entry_args_ok (q ∷ qs) args h p = elim (Result-cases (entry_args qs)) [
  | inl (e, refused) ↦ absurd (ground arith)
  | inr (rest, found) ↦
      let (same, storable) = entry_args_ok qs rest found p.1 in
      let accepted : validate_member_player_id q.player_id ≡ ok tt = ground arith in
      (ground (arith, float64-joined_at q p.0), (IsPlain-IsStorable q p.0 accepted, storable))
]

pub Owned-args_of : (qs : List QueueEntry) → All IsStorable qs → Owned (map args_of qs)
Owned-args_of [] h = tt
Owned-args_of (q ∷ qs) h =
    (ap owner (scored-to_scored q h.0) ∙ owner-to_scored q h.0, Owned-args_of qs h.1)

pub replace_all-args_of :
    (q : QueueEntry) (qs : List QueueEntry) (es : List Scored)
    → IsStorable q
    → replace_all (map args_of (q ∷ qs)) es
      ≡ replace_all (map args_of qs) (replace q.player_id (to_scored q) es)
replace_all-args_of q qs es s =
    ap (λ e. replace_all (map args_of qs) (replace q.player_id e es)) (scored-to_scored q s)

replace_all-IsWellFormed :
    (qs : List QueueEntry) (es : List Scored)
    → All IsStorable qs
    → IsWellFormed es
    → IsWellFormed (replace_all (map args_of qs) es)
replace_all-IsWellFormed [] es h w = w
replace_all-IsWellFormed (q ∷ qs) es h w =
    rw (replace_all-args_of q qs es h.0)
      (replace_all-IsWellFormed qs _ h.1 (replace-IsWellFormed q es h.0 w))

-- The calls of the methods that change the queue.
pub data QueueCall : Type 0 where
  enqueues : QueueEntry → Text → QueueCall
  cancels : Text → QueueCall
  pops : QueueCall
  reenqueues : List QueueEntry → Text → QueueCall

abbrev pub IsPlainCall : QueueCall → Type 0
IsPlainCall (enqueues q instance_id) = IsPlain q
IsPlainCall (cancels player) = Unit {0}
IsPlainCall pops = Unit {0}
IsPlainCall (reenqueues qs instance_id) = All IsPlain qs

module _ (redis : Redis) where
  open redis use {Db}

  -- The queue of a database is well-formed.
  abbrev pub IsSound : Db → Type 0
  IsSound db = IsWellFormed (waiting redis db)

  module _ {ℓ} {A : Type ℓ} (script : Db → Db × A)
      (keeps : (db : Db) → IsSound db → IsSound (script db).0) where
    pub repeat-IsSound : (n : ℕ) (db : Db) → IsSound db → IsSound (repeat redis n script db)
    unfolding repeat
    repeat-IsSound zero db w = w
    repeat-IsSound (suc n) db w = repeat-IsSound n (script db).0 (keeps db w)

    deliver-IsSound :
        (delivery : Delivery) (wrap : Text → QueueError) (db : Db)
        → IsSound db
        → IsSound (deliver redis delivery wrap script db).0
    unfolding deliver
    deliver-IsSound (answered n) wrap db w = keeps _ (repeat-IsSound n db w)
    deliver-IsSound (failed n cause) wrap db w = repeat-IsSound n db w

  enqueue_script-IsSound :
      (q : QueueEntry) (instance_id : Text) (db : Db)
      → IsStorable q
      → IsSound db
      → IsSound
          (enqueue_script redis q.player_id
            (encode_member q.player_id q.deck_id q.level q.name)
            q.joined_at
            instance_id
            db).0
  enqueue_script-IsSound q instance_id db s w =
      rw
        (
          waiting-enqueue_script redis q.player_id _ q.joined_at instance_id db
              (ap owner (scored-to_scored q s) ∙ owner-to_scored q s),
          scored-to_scored q s,
        )
        (replace-IsWellFormed q _ s kept_sound)
    where
      kept_sound : IsWellFormed (kept redis instance_id db)
      kept_sound = ground (arith, nil-IsWellFormed)

  cancel_script-IsSound :
      (player : Text) (db : Db) → IsSound db → IsSound (cancel_script redis player db).0
  cancel_script-IsSound player db w =
      rw (waiting-cancel_script redis player db) (others-IsWellFormed player _ w)

  pub pop_pair_script-IsSound : (db : Db) → IsSound db → IsSound (pop_pair_script redis db).0
  pop_pair_script-IsSound db w =
      rw (waiting-pop_pair_script redis db)
        (ground (arith, drop-IsWellFormed 2 (waiting redis db) w))

  reenqueue_script-IsSound :
      (instance_id : Text) (qs : List QueueEntry) (db : Db)
      → All IsStorable qs
      → IsSound db
      → IsSound (reenqueue_script redis instance_id (map args_of qs) db).0
  reenqueue_script-IsSound instance_id qs db s w =
      rw (waiting-reenqueue_script redis instance_id (map args_of qs) db (Owned-args_of qs s))
        (ground (arith, replace_all-IsWellFormed qs (waiting redis db) s w))

  -- The database after a call.
  unfoldable pub after_call : Db → QueueCall × Delivery → Db
  after_call db (enqueues q instance_id, delivery) =
      (enqueue redis delivery q.joined_at q.player_id q.deck_id q.name q.level instance_id db).0
  after_call db (cancels player, delivery) = (cancel redis delivery player db).0
  after_call db (pops, delivery) = (pop_pair redis delivery db).0
  after_call db (reenqueues qs instance_id, delivery) =
      (reenqueue redis delivery qs instance_id db).0

  unfoldable pub after_calls : Db → List (QueueCall × Delivery) → Db
  after_calls db [] = db
  after_calls db (c ∷ cs) = after_calls (after_call db c) cs

  enqueue-IsSound :
      (delivery : Delivery) (q : QueueEntry) (instance_id : Text) (db : Db)
      → IsPlain q
      → IsSound db
      → IsSound
          (enqueue redis delivery q.joined_at q.player_id q.deck_id q.name q.level instance_id db).0
  unfolding enqueue
  enqueue-IsSound delivery q [] db p w = ground arith
  enqueue-IsSound delivery q (c ∷ s) db p w =
      elim (Result-cases (validate_member_player_id q.player_id)) [
        | inl (e, refused) ↦ rw (refused, enqueue) w
        | inr (tt, accepted) ↦
            rw (accepted, enqueue, float64-joined_at q p)
              (deliver-IsSound
                (enqueue_script redis q.player_id
                  (encode_member q.player_id q.deck_id q.level q.name) q.joined_at (c ∷ s))
                (λ d v. enqueue_script-IsSound q (c ∷ s) d (IsPlain-IsStorable q p accepted) v)
                delivery _ db w)
      ]

  reenqueue-IsSound :
      (delivery : Delivery) (qs : List QueueEntry) (instance_id : Text) (db : Db)
      → All IsPlain qs
      → IsSound db
      → IsSound (reenqueue redis delivery qs instance_id db).0
  unfolding reenqueue
  reenqueue-IsSound delivery qs instance_id db p w = elim (Result-cases (entry_args qs)) [
    | inl (e, refused) ↦ rw (refused, reenqueue) w
    | inr (args, found) ↦
        let (same, storable) = entry_args_ok qs args found p in
        rw (found, reenqueue, same)
          (deliver-IsSound (reenqueue_script redis instance_id (map args_of qs))
            (λ d v. reenqueue_script-IsSound instance_id qs d storable v) delivery _ db w)
  ]

  pub after_call-IsSound :
      (db : Db) (c : QueueCall × Delivery)
      → IsPlainCall c.0
      → IsSound db
      → IsSound (after_call db c)
  unfolding after_call cancel pop_pair
  after_call-IsSound db (enqueues q instance_id, delivery) p w =
      enqueue-IsSound delivery q instance_id db p w
  after_call-IsSound db (cancels [], delivery) p w = w
  after_call-IsSound db (cancels (c ∷ s), delivery) p w =
      deliver-IsSound (cancel_script redis (c ∷ s)) (cancel_script-IsSound (c ∷ s)) delivery _ db w
  after_call-IsSound db (pops, delivery) p w =
      deliver-IsSound (pop_pair_script redis) pop_pair_script-IsSound delivery _ db w
  after_call-IsSound db (reenqueues qs instance_id, delivery) p w =
      reenqueue-IsSound delivery qs instance_id db p w

  -- After any sequence of calls on a well-formed queue, each with int64 numbers, a time within 2 ^ 53
  -- milliseconds of 1970, byte names and any player names, and each with any behaviour of the connection, the queue is in order, holds at
  -- most one entry of each player, and each entry can be read back.
  pub after_calls-IsSound :
      (db : Db) (cs : List (QueueCall × Delivery))
      → All (λ c. IsPlainCall c.0) cs
      → IsSound db
      → IsSound (after_calls db cs)
  unfolding after_calls
  after_calls-IsSound db [] p w = w
  after_calls-IsSound db (c ∷ cs) p w =
      after_calls-IsSound (after_call db c) cs p.1 (after_call-IsSound db c p.0 w)
