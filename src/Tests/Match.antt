-- ===== src/Tests/Match.antt =====
-- Two requests and a tick, from an empty Redis to the publish.
use overload_party_matchmaki.Prelude.{
  pos, codes, text_eq, has_byte, false, true, [], none, some, ◌≡◌, refl, arith,
}
use overload_party_matchmaki.Circuit.{new_circuit_breaker, allow_tick}
use overload_party_matchmaki.Http.Handler.{check_enqueue, handle_enqueue}
use overload_party_matchmaki.Std.Strings.{is_blank}
use overload_party_matchmaki.Redis.{before}
use overload_party_matchmaki.Redis.Sample.{sample, Store, value, entries}
use overload_party_matchmaki.RedisQueue.Member.{validate_member_player_id}
use overload_party_matchmaki.RedisQueue.Effects.{waiting}
use overload_party_matchmaki.RedisQueue.Room.{comes_before}
use overload_party_matchmaki.RedisQueue.Refinement.Calls.{Represents}
use overload_party_matchmaki.Matcher.{State, tick}
use overload_party_matchmaki.System.{service}
use overload_party_matchmaki.System.Admit.{IsGood}
use overload_party_matchmaki.System.Match.{arrival, before_publish, two_enqueued-matched}
use overload_party_matchmaki.Tests.Http.{enqueue_request}
use overload_party_matchmaki.Tests.System.{up}

abbrev empty : Store
empty = record { sets = []; strings = [] }

empty-Represents : Represents sample empty (record { instance_id = none; entries = [] })
unfolding entries value
empty-Represents = record { stored = refl; instance_same = refl; storable = tt }

ann-IsGood : IsGood enqueue_request (codes "ann") (pos 5)
unfolding check_enqueue is_blank validate_member_player_id has_byte
ann-IsGood = record {
  checked = refl;
  named = refl;
  plain = record {
    deck_fits = ground arith;
    level_fits = ground arith;
    joined_fits = ground arith;
    name_bytes = ground arith;
  };
}

bob-IsGood : IsGood enqueue_request (codes "bob") (pos 6)
unfolding check_enqueue is_blank validate_member_player_id has_byte
bob-IsGood = record {
  checked = refl;
  named = refl;
  plain = record {
    deck_fits = ground arith;
    level_fits = ground arith;
    joined_fits = ground arith;
    name_bytes = ground arith;
  };
}

different : text_eq (codes "ann") (codes "bob") ≡ false
unfolding text_eq
different = refl

in_order :
    comes_before
      (arrival sample up enqueue_request (codes "bob") 6)
      (arrival sample up enqueue_request (codes "ann") 5)
    ≡ false
unfolding before
in_order = refl

abbrev first_db : Store
first_db = (handle_enqueue (service sample up) (some enqueue_request) (codes "ann") (empty, 5)).0.0

abbrev start : State (service sample up)
start = record {
  world = (
    (handle_enqueue (service sample up) (some enqueue_request) (codes "bob") (first_db, 6)).0.0,
    9,
  );
  circuit = new_circuit_breaker (pos 3) (pos 10);
  log = [];
}

allowed : (allow_tick (new_circuit_breaker (pos 3) (pos 10)) 9).1.is_allowed ≡ true
unfolding allow_tick new_circuit_breaker
allowed = refl

two_enqueued-matched_example :
    ((handle_enqueue
        (service sample up)
        (some enqueue_request)
        (codes "ann")
        (empty, 5)).1.response.status
      ≡ 202)
    × ((handle_enqueue
          (service sample up)
          (some enqueue_request)
          (codes "bob")
          (first_db, 6)).1.response.status
        ≡ 202)
    × ((tick (service sample up) start).0.world.1
        ≡ (up.publish (codes "match_made") (codes "mch_1") (before_publish sample up start)).0)
    × (waiting sample (tick (service sample up) start).0.world.0 ≡ [])
two_enqueued-matched_example =
    two_enqueued-matched sample up enqueue_request enqueue_request (codes "ann") (codes "bob") empty
      none 5 6 start (codes "mch_1") empty-Represents ann-IsGood bob-IsGood refl different in_order
      refl allowed refl refl
