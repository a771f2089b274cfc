-- ===== src/Tests/World.antt =====
-- The test data: two players who wait, a Redis that holds them, and ports that fail at first.
use overload_party_matchmaki.Prelude.{
  ℕ, suc, ltb, ◌≤◌, length, pos, Text, codes, text_eq, has_byte, before_byte, true, false,
  if◌then◌else◌, [], ◌∷◌, some, ok, err, ◌≡◌, refl, arith,
}
use overload_party_matchmaki.Domain.{QueueEntry}
use overload_party_matchmaki.Port.{Ports, elapsed}
use overload_party_matchmaki.Redis.{before}
use overload_party_matchmaki.Redis.Sample.{sample, Store, entries}
use overload_party_matchmaki.RedisQueue.Member.{encode_member, validate_member_player_id}
use overload_party_matchmaki.RedisQueue.Scripts.{queue_key, gateway_instance_key, owner}
use overload_party_matchmaki.RedisQueue.Effects.{waiting}
use overload_party_matchmaki.RedisQueue.WellFormed.{IsStorable, IsWellFormed, to_scored}
use overload_party_matchmaki.RedisQueue.Invariant.{IsPlain}

abbrev pub ann : QueueEntry
ann = record {
  player_id = codes "ann";
  deck_id = pos 4;
  name = codes "Ann";
  level = pos 7;
  joined_at = pos 1000;
}

abbrev pub bob : QueueEntry
bob = record {
  player_id = codes "bob";
  deck_id = pos 9;
  name = codes "B:b";
  level = pos 2;
  joined_at = pos 2000;
}

abbrev pub gateway : Text
gateway = codes "gw-1"

-- A Redis where the two wait.
abbrev pub stored : Store
stored = record {
  sets = (queue_key, to_scored ann ∷ to_scored bob ∷ []) ∷ [];
  strings = (gateway_instance_key, gateway) ∷ [];
}

pub ann-IsPlain : IsPlain ann
ann-IsPlain = record {
  deck_fits = ground arith;
  level_fits = ground arith;
  joined_fits = ground arith;
  name_bytes = ground arith;
}

pub bob-IsPlain : IsPlain bob
bob-IsPlain = record {
  deck_fits = ground arith;
  level_fits = ground arith;
  joined_fits = ground arith;
  name_bytes = ground arith;
}

pub ann-IsStorable : IsStorable ann
unfolding validate_member_player_id has_byte
ann-IsStorable = record {
  accepted = refl;
  deck_fits = ann-IsPlain.deck_fits;
  level_fits = ann-IsPlain.level_fits;
  joined_fits = ann-IsPlain.joined_fits;
  name_bytes = ann-IsPlain.name_bytes;
}

pub bob-IsStorable : IsStorable bob
unfolding validate_member_player_id has_byte
bob-IsStorable = record {
  accepted = refl;
  deck_fits = bob-IsPlain.deck_fits;
  level_fits = bob-IsPlain.level_fits;
  joined_fits = bob-IsPlain.joined_fits;
  name_bytes = bob-IsPlain.name_bytes;
}

pub waiting-stored : waiting sample stored ≡ to_scored ann ∷ to_scored bob ∷ []
unfolding entries text_eq
waiting-stored = refl

pair-IsWellFormed : IsWellFormed (to_scored ann ∷ to_scored bob ∷ [])
unfolding before owner encode_member text_eq before_byte
pair-IsWellFormed = record {
  ordered = ((refl, tt), (tt, tt));
  unique = ((refl, tt), (tt, tt));
  readable = ((ann, refl, ann-IsStorable), ((bob, refl, bob-IsStorable), tt));
}

pub stored-IsWellFormed : IsWellFormed (waiting sample stored)
stored-IsWellFormed = rw (waiting-stored) pair-IsWellFormed

pub two_wait : 2 ≤ length (waiting sample stored)
two_wait = rw (waiting-stored) (omega arith)

-- Ports whose world counts the calls: the queue answers the two players, the publisher fails, and the
-- first write-backs fail.
abbrev pub failing : Ports
failing = record {
  World = ℕ;
  Error = Text;
  enqueue = λ player deck name level id w. (suc w, ok 0);
  cancel = λ player w. (suc w, if ltb w 1 then err (codes "timeout") else ok true);
  size = λ w. (suc w, ok 2);
  pop_pair = λ w. (suc w, ok (ann ∷ bob ∷ [], gateway));
  reenqueue = λ ctx pair id w. (suc w, if ltb w 8 then err (codes "timeout") else ok true);
  publish = λ event_type payload w. (suc w, some (codes "deadline"));
  now = λ w. (suc w, w);
  wait = λ d w. (suc w, elapsed);
  ctx_err = λ w. (suc w, false);
  new_match_id = λ w. (suc w, codes "mch_1");
  marshal = λ e. ok e.match_id;
}
