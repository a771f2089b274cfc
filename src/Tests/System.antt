-- ===== src/Tests/System.antt =====
-- The results on the whole service, at a Redis where two players wait.
use overload_party_matchmaki.Prelude.{
  ℕ, suc, pos, Text, codes, true, false, ◌≡◌, refl, [], ◌∷◌, drop, none, some, ok, ltb,
  if◌then◌else◌, arith,
}
use overload_party_matchmaki.Port.{elapsed, WireEvent}
use overload_party_matchmaki.Circuit.{new_circuit_breaker, allow_tick}
use overload_party_matchmaki.Matcher.{State, tick}
use overload_party_matchmaki.Redis.Sample.{sample}
use overload_party_matchmaki.RedisQueue.Effects.{waiting}
use overload_party_matchmaki.System.{Outside, service, db_of, tick-restores, tick-takes_two}
use overload_party_matchmaki.System.Shared.{
  Surroundings, ticks, requests, shared, IsSoundWorld, run_steps, run_steps-IsSound,
}
use overload_party_matchmaki.RedisQueue.Queue.{answered, failed}
use overload_party_matchmaki.RedisQueue.Invariant.{enqueues, pops}
use overload_party_matchmaki.Http.Messages.{no_body}
use overload_party_matchmaki.Http.Router.{Request, post}
use overload_party_matchmaki.Tests.World.{
  ann, gateway, ann-IsPlain, stored, stored-IsWellFormed, two_wait,
}

-- A world whose publisher is down, and one whose publisher is up.
abbrev down : Outside
down = record {
  Rest = ℕ;
  publish = λ event_type payload w. (suc w, some (codes "deadline"));
  now = λ w. (suc w, w);
  unix_milli = λ w. pos w;
  wait = λ d w. (suc w, elapsed);
  ctx_err = λ w. (suc w, false);
  new_match_id = λ w. (suc w, codes "mch_1");
  marshal = λ e. ok e.match_id;
}

abbrev pub up : Outside
up = record down { publish = λ event_type payload w. (suc w, none) }

abbrev down_start : State (service sample down)
down_start = record {
  world = (stored, 5);
  circuit = new_circuit_breaker (pos 3) (pos 10);
  log = [];
}

abbrev up_start : State (service sample up)
up_start = record { world = (stored, 5); circuit = new_circuit_breaker (pos 3) (pos 10); log = [] }

allowed : (allow_tick (new_circuit_breaker (pos 3) (pos 10)) 5).1.is_allowed ≡ true
unfolding allow_tick new_circuit_breaker
allowed = refl

is_down :
    (event_type payload : Text) (r : ℕ)
    → (e : Text) × ((down.publish event_type payload r).1 ≡ some e)
is_down event_type payload r = (codes "deadline", refl)

is_up : (event_type payload : Text) (r : ℕ) → (up.publish event_type payload r).1 ≡ none
is_up event_type payload r = refl

builds : (e : WireEvent) → (payload : Text) × (up.marshal e ≡ ok payload)
builds e = (e.match_id, refl)

tick-restores_example :
    waiting sample (db_of sample down (tick (service sample down) down_start).0)
    ≡ waiting sample stored
tick-restores_example =
    tick-restores sample down is_down down_start allowed stored-IsWellFormed two_wait

tick-takes_two_example :
    waiting sample (db_of sample up (tick (service sample up) up_start).0)
    ≡ drop 2 (waiting sample stored)
tick-takes_two_example =
    tick-takes_two sample up builds is_up up_start allowed stored-IsWellFormed two_wait

-- A service whose replies get lost, and beside which someone else takes a pair out, and enqueues a player
-- whose id is not accepted.
abbrev crowd : Surroundings
crowd = record {
  out = record down { unix_milli = λ w. pos 1700000000000 };
  delivery = λ w. if ltb w 7 then answered 1 else failed 1 (codes "connection reset");
  others = λ w. (pops, answered 0) ∷ (enqueues ann (codes "gw-2"), failed 2 (codes "timeout")) ∷ [];
  called = suc;
  others_plain = λ w. (tt, (ann-IsPlain, tt));
  clock_fits = λ w. ground arith;
}

abbrev crowd_start : State (shared sample crowd)
crowd_start = record {
  world = (stored, 5);
  circuit = new_circuit_breaker (pos 3) (pos 10);
  log = [];
}

abbrev wish : Request
wish = record {
  method = post;
  path = codes "/internal/v1/enqueue";
  token = codes "bob";
  enqueue_body = some (record {
    deck_id = pos 9;
    gateway_instance_id = gateway;
    level = pos 2;
    name = codes "Bob";
  });
  report_body = none;
}

run_steps-IsSound_example :
    IsSoundWorld sample crowd
      (run_steps sample crowd
        (λ token. ok token)
        (record { status = 404; body = no_body })
        crowd_start
        (requests wish ∷ ticks ∷ requests wish ∷ ticks ∷ [])).world
run_steps-IsSound_example =
    run_steps-IsSound sample crowd (λ token. ok token) (record { status = 404; body = no_body })
      (requests wish ∷ ticks ∷ requests wish ∷ ticks ∷ []) crowd_start
      (
        ((ground arith), (ground arith), (ground arith)),
        (tt, (((ground arith), (ground arith), (ground arith)), (tt, tt))),
      )
      stored-IsWellFormed
