-- ===== src/Tests/Server.antt =====
-- The results on the start and the stop of the server, the publisher and the queue's specification.
use overload_party_matchmaki.Prelude.{
  ℕ, suc, ℤ, pos, ◌≤ℤ◌, Text, codes, text_eq, false, List, [], ◌∷◌, All, none, some, Result, ok,
  err, ◌≡◌, refl,
}
use overload_party_matchmaki.Domain.{QueueEntry, MatchMadeEvent}
use overload_party_matchmaki.Port.{WireEvent}
use overload_party_matchmaki.Presenter.{event_type_match_made, to_wire, to_match_made_wire}
use overload_party_matchmaki.Pubsub.{
  Publisher, new_publisher, check_publisher, publish_failed, publish, publish-to_match_made_wire,
}
use overload_party_matchmaki.Server.{Libraries, run}
use overload_party_matchmaki.Server.Events.{open_after, open_after-run}
use overload_party_matchmaki.Server.Shutdown.{watch, idle, outcome, fails_late, watch-run}
use overload_party_matchmaki.Redis.Sample.{sample, value}
use overload_party_matchmaki.RedisQueue.Scripts.{or_empty}
use overload_party_matchmaki.RedisQueue.Queue.{answered, pop_pair}
use overload_party_matchmaki.RedisQueue.Effects.{waiting, instance_of}
use overload_party_matchmaki.RedisQueue.WellFormed.{to_scored}
use overload_party_matchmaki.RedisQueue.Fairness.{StaysBehind, pop_pair-first_two}
use overload_party_matchmaki.RedisQueue.Room.{
  Room, Ask, enqueues, cancels, sizes, pops, reenqueues, ask_room_all,
}
use overload_party_matchmaki.RedisQueue.Refinement.{ask_redis_all, ask_redis_all-refines}
use overload_party_matchmaki.RedisQueue.Refinement.Calls.{Represents}
use overload_party_matchmaki.RedisQueue.Room.Presence.{told_all}
use overload_party_matchmaki.RedisQueue.Refinement.Told.{has_entry, told_all-ask_redis_all}
use overload_party_matchmaki.Tests.Config.{production}
use overload_party_matchmaki.Tests.World.{
  ann, bob, gateway, stored, ann-IsPlain, bob-IsPlain, ann-IsStorable, bob-IsStorable,
  stored-IsWellFormed, two_wait, waiting-stored,
}

-- Libraries that work, but for the listener.
abbrev taken_port : Libraries
taken_port = record {
  RedisClient = Text;
  parse_redis_url = λ s. ok s;
  tls_client = λ endpoint password. endpoint;
  ping = λ c. ok tt;
  connect_secrets = ok tt;
  access_secret = λ s. ok (some (codes "x"));
  connect_pubsub = λ p. ok tt;
  parse_public_key = λ s. ok tt;
  serve = λ port. some (codes "address in use");
  shutdown = none;
}

open_after-run_example : open_after [] (run taken_port production).0 ≡ some []
open_after-run_example = open_after-run taken_port production

watch-run_example :
    watch idle (run taken_port production).0 ≡ outcome (fails_late (run taken_port production).1)
watch-run_example = watch-run taken_port production

abbrev pub room : Room
room = record { instance_id = some gateway; entries = ann ∷ bob ∷ [] }

pub stored-Represents : Represents sample stored room
unfolding text_eq value
stored-Represents = record {
  stored = waiting-stored;
  instance_same = refl;
  storable = (ann-IsStorable, (bob-IsStorable, tt));
}

abbrev asks : List Ask
asks =
    enqueues ann gateway
    ∷ pops
    ∷ reenqueues (ann ∷ bob ∷ []) gateway
    ∷ cancels (codes "bob")
    ∷ sizes
    ∷ []

ask_redis_all-refines_example :
    Represents sample (ask_redis_all sample asks stored).0 (ask_room_all asks room).0
    × ((ask_redis_all sample asks stored).1 ≡ (ask_room_all asks room).1)
ask_redis_all-refines_example =
    ask_redis_all-refines sample asks stored room
      (ann-IsPlain, (tt, ((ann-IsPlain, (bob-IsPlain, tt)), (tt, (tt, tt))))) stored-Represents

told_all-ask_redis_all_example :
    has_entry (codes "bob") (waiting sample (ask_redis_all sample asks stored).0)
    ≡ (told_all
        (codes "bob")
        asks
        (ask_redis_all sample asks stored).1
        (instance_of sample stored, has_entry (codes "bob") (waiting sample stored))).1
told_all-ask_redis_all_example =
    told_all-ask_redis_all sample (codes "bob") asks stored
      (ann-IsPlain, (tt, ((ann-IsPlain, (bob-IsPlain, tt)), (tt, (tt, tt))))) stored-IsWellFormed

pop_pair-first_two_example :
    (a : QueueEntry) × (b : QueueEntry) × ((pop_pair sample (answered 0) stored).1
      ≡ ok (a ∷ b ∷ [], or_empty (instance_of sample stored)))
    × (text_eq b.player_id a.player_id ≡ false)
    × (a.joined_at ≤ℤ b.joined_at)
    × All (StaysBehind a b) (waiting sample (pop_pair sample (answered 0) stored).0)
    × (waiting sample stored
        ≡ to_scored a ∷ to_scored b ∷ waiting sample (pop_pair sample (answered 0) stored).0)
pop_pair-first_two_example = pop_pair-first_two sample stored stored-IsWellFormed two_wait

abbrev event : MatchMadeEvent
event = record { match_id = codes "mch_1"; players = [] }

abbrev to_payload : WireEvent → Result Text Text
to_payload e = ok e.match_id

-- A Pub/Sub that counts the messages and fails.
abbrev refusing : ℤ → Text → Text → ℕ → ℕ × Result Text (Unit {0})
refusing timeout topic payload w = (suc w, err (codes "deadline"))

abbrev publisher : Publisher
publisher = record {
  by_event_type = (event_type_match_made, codes "t") ∷ [];
  publish_timeout = pos 5;
}

publisher_made : new_publisher (λ p. ok tt) (codes "p") (codes "t") (pos 5) ≡ ok publisher
unfolding new_publisher check_publisher text_eq
publisher_made = refl

event_wired : to_match_made_wire to_payload event ≡ ok (event_type_match_made, codes "mch_1")
unfolding to_match_made_wire to_wire
event_wired = refl

publish-to_match_made_wire_example :
    publish refusing publisher event_type_match_made (codes "mch_1") 0
    ≡ (1, err (publish_failed (codes "match_made") (codes "deadline")))
publish-to_match_made_wire_example =
    publish-to_match_made_wire refusing (λ p. ok tt) (codes "p") (codes "t") (pos 5) publisher
      to_payload event event_type_match_made (codes "mch_1") 0 publisher_made event_wired
