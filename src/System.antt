-- ===== src/System.antt =====
-- cmd/server/main.go, `run`: the matcher over the Redis queue. The publisher, the clock, the match ids
-- and the shutdown are the parameter `out`; the connection to Redis answers each call.
pub mod Admit
pub mod Match
pub mod Report
pub mod Shared
use overload_party_matchmaki.Prelude.{
  ℕ, ℤ, ◌≤◌, Text, Bool, true, ◌≡◌, refl, sym, ◌∙◌, ap, List, [], ◌∷◌, length, drop, Option, none,
  some, Result, ok, err,
}
use overload_party_matchmaki.Domain.{QueueEntry}
use overload_party_matchmaki.Port.{Ports, Wake, WireEvent}
use overload_party_matchmaki.Presenter.{to_wire, to_match_made_wire}
use overload_party_matchmaki.Circuit.{allow_tick}
use overload_party_matchmaki.Redis.{Redis}
use overload_party_matchmaki.RedisQueue.Member.{QueueError}
use overload_party_matchmaki.RedisQueue.Queue.{answered, enqueue, cancel, size, pop_pair, reenqueue}
use overload_party_matchmaki.RedisQueue.Effects.{waiting}
use overload_party_matchmaki.RedisQueue.WellFormed.{IsWellFormed}
use overload_party_matchmaki.RedisQueue.Restore.{pop_pair-reenqueue}
use overload_party_matchmaki.Matcher.{
  State, LogEntry, M, matched, reenqueue_with_retry, reenqueue_attempts, attempt_round,
  after_attempt, give_back, after_publish, after_build, make_match, handle_popped, after_pop,
  on_permit, tick, build_failed, publish_failed,
}

-- What is outside of the service and its Redis.
pub record Outside : Type 1 where
  pub Rest : Type 0
  pub publish : Text → Text → Rest → Rest × Option Text
  pub now : Rest → Rest × ℕ
  pub unix_milli : Rest → ℤ
  pub wait : ℕ → Rest → Rest × Wake
  pub ctx_err : Rest → Rest × Bool
  pub new_match_id : Rest → Rest × Text
  pub marshal : WireEvent → Result Text Text

pub data Failure : Type 0 where
  of_queue : QueueError → Failure
  of_outside : Text → Failure

abbrev pub queue_result {ℓ} : {A : Type ℓ} → Result QueueError A → Result Failure A
queue_result (ok a) = ok a
queue_result (err e) = err (of_queue e)

abbrev pub outside_result {ℓ} : {A : Type ℓ} → Result Text A → Result Failure A
outside_result (ok a) = ok a
outside_result (err e) = err (of_outside e)

abbrev pub outside_error : Option Text → Option Failure
outside_error none = none
outside_error (some e) = some (of_outside e)

module _ (redis : Redis) (out : Outside) where
  open redis use {Db}
  open out use {Rest}

  -- A call of the queue, and a call of what is outside.
  abbrev on_db {ℓ} :
      {A : Type ℓ} → (Db → Db × Result QueueError A) → Db × Rest → (Db × Rest) × Result Failure A
  on_db f w = (((f w.0).0, w.1), queue_result (f w.0).1)

  abbrev on_rest {ℓ} : {A : Type ℓ} → (Rest → Rest × A) → Db × Rest → (Db × Rest) × A
  on_rest f w = ((w.0, (f w.1).0), (f w.1).1)

  abbrev pub service : Ports
  service = record {
    World = Db × Rest;
    Error = Failure;
    enqueue = λ player deck name level id w.
        on_db (enqueue redis (answered 0) (out.unix_milli w.1) player deck name level id) w;
    cancel = λ player. on_db (cancel redis (answered 0) player);
    size = on_db (λ db. (db, size redis (answered 0) db));
    pop_pair = on_db (pop_pair redis (answered 0));
    reenqueue = λ ctx pair id. on_db (reenqueue redis (answered 0) pair id);
    publish = λ event_type payload w. (
      (on_rest (out.publish event_type payload) w).0,
      outside_error (out.publish event_type payload w.1).1,
    );
    now = on_rest out.now;
    wait = λ d. on_rest (out.wait d);
    ctx_err = on_rest out.ctx_err;
    new_match_id = on_rest out.new_match_id;
    marshal = λ e. outside_result (out.marshal e);
  }

  -- The database of a state.
  abbrev pub db_of : State service → Db
  db_of s = s.world.0

  module _ (pair : List QueueEntry) (id : Text) where
    -- What a write-back of the pair does to a database, and that it is accepted.
    abbrev written_back : Db → Db
    written_back db = (reenqueue redis (answered 0) pair id db).0

    abbrev IsAccepted : Db → Type 0
    IsAccepted db = (reenqueue redis (answered 0) pair id db).1 ≡ ok true

    attempt_db :
        (attempt backoff : ℕ) (next : M service (Unit {0})) (match_id : Text) (s : State service)
        → IsAccepted (db_of s)
        → db_of (attempt_round service attempt backoff next match_id pair id s).0
          ≡ written_back (db_of s)
    unfolding attempt_round after_attempt
    attempt_db attempt backoff next match_id s e = rw (e, attempt_round, after_attempt) refl

    -- The first write-back succeeds, and the loop ends.
    retry_db :
        (match_id : Text) (s : State service)
        → IsAccepted (db_of s)
        → db_of (reenqueue_with_retry service match_id pair id s).0 ≡ written_back (db_of s)
    unfolding reenqueue_with_retry reenqueue_attempts
    retry_db match_id s e = attempt_db 1 100 _ match_id s e

    give_back_db :
        (entry : LogEntry Failure) (match_id : Text) (s : State service)
        → IsAccepted (db_of s)
        → db_of (give_back service entry match_id pair id s).0 ≡ written_back (db_of s)
    unfolding give_back
    give_back_db entry match_id s e = retry_db match_id _ e

    after_publish_db :
        (match_id : Text) (e : Text) (s : State service)
        → IsAccepted (db_of s)
        → db_of (after_publish service match_id pair id (some (of_outside e)) s).0
          ≡ written_back (db_of s)
    unfolding after_publish
    after_publish_db match_id e s h = give_back_db (publish_failed (of_outside e)) match_id s h

    -- No publish succeeds.
    module _
        (fails : (event_type payload : Text) (r : Rest)
          → (e : Text) × ((out.publish event_type payload r).1 ≡ some e)) where
      after_build_db :
          (match_id : Text) (wire : Result Failure (Text × Text)) (s : State service)
          → IsAccepted (db_of s)
          → db_of (after_build service match_id pair id wire s).0 ≡ written_back (db_of s)
      unfolding after_build
      after_build_db match_id (err e) s h = give_back_db (build_failed e) match_id s h
      after_build_db match_id (ok (event_type, payload)) s h =
          let (e, refused) = fails event_type payload s.world.1 in
          rw (refused, after_build) (after_publish_db match_id e _ h)

      make_match_db :
          (s : State service)
          → IsAccepted (db_of s)
          → db_of (make_match service pair id s).0 ≡ written_back (db_of s)
      unfolding make_match
      make_match_db s h = after_build_db _ _ _ h

  module _
      (fails : (event_type payload : Text) (r : Rest)
        → (e : Text) × ((out.publish event_type payload r).1 ≡ some e)) where
    tick_db :
        (a b : QueueEntry) (id : Text) (s : State service)
        → (allow_tick s.circuit (out.now s.world.1).1).1.is_allowed ≡ true
        → (pop_pair redis (answered 0) (db_of s)).1 ≡ ok (a ∷ b ∷ [], id)
        → IsAccepted (a ∷ b ∷ []) id (pop_pair redis (answered 0) (db_of s)).0
        → db_of (tick service s).0
          ≡ written_back (a ∷ b ∷ []) id (pop_pair redis (answered 0) (db_of s)).0
    unfolding tick on_permit after_pop handle_popped
    tick_db a b id s allowed answer written =
        rw (allowed, answer, tick, on_permit, after_pop, handle_popped)
          (make_match_db (a ∷ b ∷ []) id fails _ written)

    -- If the publisher is down, a tick loses nobody: while the breaker allows it and Redis answers, a tick
    -- on a well-formed queue of two or more entries, whose publish fails or whose event cannot be built,
    -- leaves the queue as it was, entry by entry.
    pub tick-restores :
        (s : State service)
        → (allow_tick s.circuit (out.now s.world.1).1).1.is_allowed ≡ true
        → IsWellFormed (waiting redis (db_of s))
        → 2 ≤ length (waiting redis (db_of s))
        → waiting redis (db_of (tick service s).0) ≡ waiting redis (db_of s)
    tick-restores s allowed sound two =
        let (a, b, rest, front, back) = pop_pair-reenqueue redis (db_of s) sound two in
        ap (waiting redis) (tick_db a b _ s allowed back.answer back.written) ∙ back.restored

  module _ (builds : (e : WireEvent) → (payload : Text) × (out.marshal e ≡ ok payload))
      (succeeds : (event_type payload : Text) (r : Rest)
        → (out.publish event_type payload r).1 ≡ none) where
    published_db :
        (pair : List QueueEntry) (id match_id : Text) (wire : Text × Text) (s : State service)
        → db_of (after_build service match_id pair id (ok wire) s).0 ≡ db_of s
    unfolding after_build after_publish
    published_db pair id match_id (event_type, payload) s =
        rw (succeeds event_type payload s.world.1, after_build, after_publish) refl

    made_db :
        (pair : List QueueEntry) (id : Text) (s : State service)
        → db_of (make_match service pair id s).0 ≡ db_of s
    unfolding make_match to_match_made_wire
    made_db pair id s =
        let drawn = out.new_match_id s.world.1 in
        let (payload, built) = builds (to_wire (matched drawn.1 pair)) in
        rw (built, make_match, to_match_made_wire) (published_db pair id drawn.1 _ _)

    tick_popped_db :
        (a b : QueueEntry) (id : Text) (s : State service)
        → (allow_tick s.circuit (out.now s.world.1).1).1.is_allowed ≡ true
        → (pop_pair redis (answered 0) (db_of s)).1 ≡ ok (a ∷ b ∷ [], id)
        → db_of (tick service s).0 ≡ (pop_pair redis (answered 0) (db_of s)).0
    unfolding tick on_permit after_pop handle_popped
    tick_popped_db a b id s allowed answer =
        rw (allowed, answer, tick, on_permit, after_pop, handle_popped) (made_db (a ∷ b ∷ []) id _)

    -- If the event can be built and the publisher is up, a tick that the breaker allows takes exactly the
    -- two entries that come first out of a well-formed queue of two or more.
    pub tick-takes_two :
        (s : State service)
        → (allow_tick s.circuit (out.now s.world.1).1).1.is_allowed ≡ true
        → IsWellFormed (waiting redis (db_of s))
        → 2 ≤ length (waiting redis (db_of s))
        → waiting redis (db_of (tick service s).0) ≡ drop 2 (waiting redis (db_of s))
    tick-takes_two s allowed sound two =
        let (a, b, rest, front, back) = pop_pair-reenqueue redis (db_of s) sound two in
        ap (waiting redis) (tick_popped_db a b _ s allowed back.answer)
        ∙ back.popped
        ∙ sym (ap (drop 2) front)
