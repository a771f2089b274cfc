-- ===== src/Tests/Queue.antt =====
-- The results on the queue, at two players who wait.
use overload_party_matchmaki.Prelude.{
  ◌*◌, pos, codes, has_byte, before_byte, false, List, [], ◌∷◌, drop, some, ok, ◌≡◌, refl,
}
use overload_party_matchmaki.Domain.{QueueEntry}
use overload_party_matchmaki.Redis.{Scored}
use overload_party_matchmaki.Redis.Sample.{sample}
use overload_party_matchmaki.RedisQueue.Member.{
  member_separator, encode_member, decode_member, decode_member-encode_member,
}
use overload_party_matchmaki.RedisQueue.Scripts.{owner, enqueue_script, pop_pair_script}
use overload_party_matchmaki.RedisQueue.Queue.{answered, failed, repeat}
use overload_party_matchmaki.RedisQueue.Effects.{scored, waiting, instance_of}
use overload_party_matchmaki.RedisQueue.WellFormed.{to_scored}
use overload_party_matchmaki.RedisQueue.Invariant.{
  enqueues, cancels, pops, reenqueues, IsSound, after_calls, after_calls-IsSound,
}
use overload_party_matchmaki.RedisQueue.Restore.{IsRestored, pop_pair-reenqueue}
use overload_party_matchmaki.RedisQueue.Retry.{waiting-repeat_enqueue, waiting-repeat_pop_pair}
use overload_party_matchmaki.Tests.World.{
  ann, bob, gateway, stored, ann-IsPlain, bob-IsPlain, stored-IsWellFormed, two_wait,
}

pop_pair-reenqueue_example :
    (a : QueueEntry) × (b : QueueEntry) × (rest : List Scored) × (waiting sample stored
      ≡ to_scored a ∷ to_scored b ∷ rest)
    × IsRestored sample stored a b rest
pop_pair-reenqueue_example = pop_pair-reenqueue sample stored stored-IsWellFormed two_wait

after_calls-IsSound_example : IsSound sample (
    after_calls sample stored (
      (enqueues ann gateway, answered 1)
      ∷ (pops, failed 1 (codes "timeout"))
      ∷ (reenqueues (ann ∷ bob ∷ []) gateway, answered 0)
      ∷ (cancels (codes "bob"), answered 0)
      ∷ []))
after_calls-IsSound_example =
    after_calls-IsSound sample stored
      ((enqueues ann gateway, answered 1)
        ∷ (pops, failed 1 (codes "timeout"))
        ∷ (reenqueues (ann ∷ bob ∷ []) gateway, answered 0)
        ∷ (cancels (codes "bob"), answered 0)
        ∷ [])
      (ann-IsPlain, (tt, ((ann-IsPlain, (bob-IsPlain, tt)), (tt, tt)))) stored-IsWellFormed

bob_no_separator : has_byte member_separator (codes "bob") ≡ false
unfolding has_byte
bob_no_separator = refl

decode_member-encode_member_example :
    decode_member (encode_member (codes "bob") (pos 9) (pos 2) (codes "B:b"))
    ≡ ok (record { player_id = codes "bob"; deck_id = pos 9; level = pos 2; name = codes "B:b" })
decode_member-encode_member_example =
    decode_member-encode_member (codes "bob") (pos 9) (pos 2) (codes "B:b") bob_no_separator
      bob-IsPlain.deck_fits bob-IsPlain.level_fits bob-IsPlain.name_bytes

owner_new : owner (scored (codes "ann:5:7:QW5u") (pos 3000)) ≡ codes "ann"
unfolding owner before_byte
owner_new = refl

waiting-repeat_enqueue_example :
    let script = enqueue_script sample (codes "ann") (codes "ann:5:7:QW5u") (pos 3000) gateway in
    (waiting sample (repeat sample 3 script stored) ≡ waiting sample (script stored).0)
    × (instance_of sample (repeat sample 3 script stored) ≡ some gateway)
waiting-repeat_enqueue_example =
    waiting-repeat_enqueue sample 2 (codes "ann") (codes "ann:5:7:QW5u") (pos 3000) gateway stored
      owner_new

waiting-repeat_pop_pair_example :
    waiting sample (repeat sample 1 (pop_pair_script sample) stored)
    ≡ drop (2 * 1) (waiting sample stored)
waiting-repeat_pop_pair_example = waiting-repeat_pop_pair sample 1 stored two_wait
