-- ===== src/System/Shared.antt =====
-- cmd/server/main.go, `run`: the handlers and the matcher over one Redis, which other goroutines and
-- other processes use as well. Redis runs a script at once, so that what the others do in between is a
-- list of calls before each call of the queue; and the connection may lose a reply.
use overload_party_matchmaki.Prelude.{Text, ◌≡◌, List, [], ◌∷◌, All, Result, ok, err}
use overload_party_matchmaki.Domain.{QueueEntry}
use overload_party_matchmaki.Port.{Ports}
use overload_party_matchmaki.Port.Kept.{Kept}
use overload_party_matchmaki.Redis.{Redis}
use overload_party_matchmaki.RedisQueue.Member.{QueueError}
use overload_party_matchmaki.RedisQueue.Queue.{Delivery, enqueue, cancel, size, pop_pair, reenqueue}
use overload_party_matchmaki.RedisQueue.Invariant.{
  IsPlain, QueueCall, enqueues, cancels, pops, reenqueues, IsPlainCall, IsSound, after_call,
  after_calls, after_call-IsSound, after_calls-IsSound,
}
use overload_party_matchmaki.RedisQueue.Refinement.Popped.{pop_pair-IsPlain}
use overload_party_matchmaki.Http.Messages.{Response}
use overload_party_matchmaki.Http.Router.{Request, serve}
use overload_party_matchmaki.Std.Float64.{IsExact}
use overload_party_matchmaki.Http.Kept.{IsPlainBody, serve-Kept}
use overload_party_matchmaki.Matcher.{State, tick}
use overload_party_matchmaki.Matcher.Kept.{tick-Kept}
use overload_party_matchmaki.System.{Outside, Failure, queue_result, outside_result, outside_error}

-- What is around the service: what is outside, how the connection delivers the next call, and what the
-- others call before it. A call of the queue moves it on.
pub record Surroundings : Type 1 where
  pub out : Outside
  pub delivery : out.Rest → Delivery
  pub others : out.Rest → List (QueueCall × Delivery)
  pub called : out.Rest → out.Rest
  pub others_plain : (r : out.Rest) → All (λ c. IsPlainCall c.0) (others r)
  pub clock_fits : (r : out.Rest) → IsExact (out.unix_milli r)

pub data Step : Type 0 where
  ticks : Step
  requests : Request → Step

abbrev pub IsPlainStep : Step → Type 0
IsPlainStep ticks = Unit {0}
IsPlainStep (requests req) = IsPlainBody req.enqueue_body

module _ (redis : Redis) (around : Surroundings) where
  open redis use {Db}

  abbrev out : Outside
  out = around.out

  abbrev World : Type 0
  World = Db × out.Rest

  -- The database that a call of the queue finds.
  unfoldable pub found : World → Db
  found w = after_calls redis w.0 (around.others w.1)

  abbrev on_queue {ℓ} :
      {A : Type ℓ} → (Delivery → Db → Db × Result QueueError A) → World → World × Result Failure A
  on_queue f w =
      let r = f (around.delivery w.1) (found w) in ((r.0, around.called w.1), queue_result r.1)

  abbrev on_rest {ℓ} : {A : Type ℓ} → (out.Rest → out.Rest × A) → World → World × A
  on_rest f w = ((w.0, (f w.1).0), (f w.1).1)

  abbrev pub shared : Ports
  shared = record {
    World = World;
    Error = Failure;
    enqueue = λ player deck name level id w.
        on_queue (λ d. enqueue redis d (out.unix_milli w.1) player deck name level id) w;
    cancel = λ player. on_queue (λ d. cancel redis d player);
    size = on_queue (λ d db. (db, size redis d db));
    pop_pair = on_queue (pop_pair redis);
    reenqueue = λ ctx pair id. on_queue (λ d. reenqueue redis d pair id);
    publish = λ event_type payload w. (
      (on_rest (out.publish event_type payload) w).0,
      outside_error (out.publish event_type payload w.1).1,
    );
    now = on_rest out.now;
    wait = λ d. on_rest (out.wait d);
    ctx_err = on_rest out.ctx_err;
    new_match_id = on_rest out.new_match_id;
    marshal = λ e. outside_result (out.marshal e);
  }

  abbrev pub IsSoundWorld : World → Type 0
  IsSoundWorld w = IsSound redis w.0

  found-IsSound : (w : World) → IsSoundWorld w → IsSound redis (found w)
  unfolding found
  found-IsSound w h = after_calls-IsSound redis w.0 (around.others w.1) (around.others_plain w.1) h

  good_answer :
      (w : World) (r : Result QueueError (List QueueEntry × Text)) (pair : List QueueEntry)
      (id : Text)
      → queue_result r ≡ ok (pair, id)
      → r ≡ ok (pair, id)
  good_answer w (ok a) pair id h = cc
  good_answer w (err e) pair id h = absurd (cc)

  shared-Kept : Kept shared IsSoundWorld IsPlain
  unfolding after_call
  shared-Kept = record {
    on_enqueue = λ player deck name level id w fits levels bytes h.
        after_call-IsSound redis (found w)
          (
            enqueues
                (record {
                  player_id = player;
                  deck_id = deck;
                  name = name;
                  level = level;
                  joined_at = out.unix_milli w.1;
                })
                id,
            around.delivery w.1,
          )
          (record {
            deck_fits = fits;
            level_fits = levels;
            joined_fits = around.clock_fits w.1;
            name_bytes = bytes;
          })
          (found-IsSound w h);
    on_cancel = λ player w h.
        after_call-IsSound redis (found w) (cancels player, around.delivery w.1) tt
          (found-IsSound w h);
    on_size = λ w h. found-IsSound w h;
    on_pop_pair = λ w h.
        after_call-IsSound redis (found w) (pops, around.delivery w.1) tt (found-IsSound w h);
    good_pair = λ w pair id h answer.
        pop_pair-IsPlain redis (around.delivery w.1) (found w) pair id (found-IsSound w h)
          (good_answer w _ pair id answer);
    on_reenqueue = λ ctx pair id w good h.
        after_call-IsSound redis (found w) (reenqueues pair id, around.delivery w.1) good
          (found-IsSound w h);
    on_publish = λ event_type payload w h. h;
    on_now = λ w h. h;
    on_wait = λ d w h. h;
    on_ctx_err = λ w h. h;
    on_new_match_id = λ w h. h;
  }

  module _ (verify : Text → Result Response Text) (not_found : Response) where
    -- One request, which reads the breaker, or one tick.
    unfoldable pub run_step : State shared → Step → State shared
    run_step s ticks = (tick shared s).0
    run_step s (requests req) = record s {
      world = (serve shared verify not_found s.circuit req s.world).0;
    }

    unfoldable pub run_steps : State shared → List Step → State shared
    unfolding run_step
    run_steps s [] = s
    run_steps s (step ∷ steps) = run_steps (run_step s step) steps

    -- The service keeps the queue on Redis sound: after any requests and ticks on a well-formed queue,
    -- whatever their routes and tokens, with int64 numbers and byte names in their bodies, with times of
    -- the clock and of the others' entries within 2 ^ 53 milliseconds of 1970, however the publisher
    -- and a shutdown behave, whatever replies the connection loses, and whatever
    -- calls others make of the queue between any two calls of it, also in the middle of a tick, the queue
    -- is in order, holds at most one entry of each player, and each entry can be read back.
    pub run_steps-IsSound :
        (steps : List Step) (s : State shared)
        → All IsPlainStep steps
        → IsSoundWorld s.world
        → IsSoundWorld (run_steps s steps).world
    unfolding run_steps run_step
    run_steps-IsSound [] s plain h = h
    run_steps-IsSound (ticks ∷ steps) s plain h =
        run_steps-IsSound steps _ plain.1 (tick-Kept shared IsSoundWorld IsPlain shared-Kept s h)
    run_steps-IsSound (requests req ∷ steps) s plain h = run_steps-IsSound steps _ plain.1 (
        serve-Kept shared IsSoundWorld IsPlain shared-Kept verify not_found s.circuit req s.world
          plain.0 h)
