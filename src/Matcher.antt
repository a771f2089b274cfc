-- ===== src/Matcher.antt =====
-- internal/usecase/matcher/matcher.go: one tick of the matching loop. A method changes the world
-- behind the ports, the circuit breaker and the log, newest entry first.
pub mod Kept
pub mod Attempts
pub mod Retry
pub mod Bounds
pub mod Ends
pub mod Ticks
pub mod Loop
use overload_party_matchmaki.Prelude.{
  ℕ, zero, suc, ◌+◌, ◌*◌, Text, Bool, true, false, not, ◌==◌, if◌then◌else◌, List, [], ◌∷◌, map,
  length, Option, none, some, Result, ok, err,
}
use overload_party_matchmaki.Domain.{
  QueueEntry, MatchedPlayer, MatchMadeEvent, match_player_count, collect_player_ids,
}
use overload_party_matchmaki.Port.{Ports, Context, request, background, Wake, ctx_done, elapsed}
use overload_party_matchmaki.Presenter.{to_match_made_wire}
use overload_party_matchmaki.Circuit.{
  CircuitBreaker, TickPermit, allow_tick, record_pop_failure, record_pop_success,
  record_publish_failure, record_publish_success,
}

abbrev pub reenqueue_max_attempts : ℕ
reenqueue_max_attempts = 5

-- In milliseconds.
abbrev pub reenqueue_initial_backoff : ℕ
reenqueue_initial_backoff = 100

abbrev pub reenqueue_backoff_factor : ℕ
reenqueue_backoff_factor = 2

-- The log lines of the matcher, with the values that they carry.
pub data LogEntry (Error : Type 0) : Type 0 where
  skipping_tick : LogEntry Error
  pop_pair_failed : Error → LogEntry Error
  unexpected_pair_size : ℕ → List Text → LogEntry Error
  build_failed : Error → LogEntry Error
  publish_failed : Error → LogEntry Error
  match_made : Text → Text → Text → LogEntry Error
  attempt_failed : ℕ → Error → LogEntry Error
  lost_after_attempts : Text → List Text → LogEntry Error
  final_attempt : Text → List Text → LogEntry Error
  lost_during_shutdown : Text → List Text → Error → LogEntry Error
  shutdown_reenqueued : Text → LogEntry Error
  dropped_stale_pair : Text → List Text → LogEntry Error

pub record Run (World Error : Type 0) : Type 0 where
  pub world : World
  pub circuit : CircuitBreaker
  pub log : List (LogEntry Error)

-- `pair[i].PlayerID`, which the tick reads behind its check of the length.
unfoldable pub player_at : List QueueEntry → ℕ → Text
player_at [] i = []
player_at (e ∷ es) zero = e.player_id
player_at (e ∷ es) (suc i) = player_at es i

unfoldable pub to_matched_player : QueueEntry → MatchedPlayer
to_matched_player e = record {
  player_id = e.player_id;
  deck_id = e.deck_id;
  name = e.name;
  level = e.level;
}

unfoldable pub matched : Text → List QueueEntry → MatchMadeEvent
unfolding to_matched_player
matched match_id pair = record { match_id = match_id; players = map to_matched_player pair }

module _ (ports : Ports) where
  open ports use {
    World, Error, pop_pair, reenqueue, publish, now, wait, ctx_err, new_match_id, marshal,
  }

  abbrev pub State : Type 0
  State = Run World Error

  abbrev pub M : Type 0 → Type 0
  M A = State → State × A

  infixl 5 ◌>>=◌ ◌>>◌
  abbrev pub ◌>>=◌ : {A B : Type 0} → M A → (A → M B) → M B
  ◌>>=◌ m f s = f (m s).1 (m s).0

  abbrev pub ◌>>◌ : {B : Type 0} → M (Unit {0}) → M B → M B
  ◌>>◌ m k s = k (m s).0

  abbrev pub done : M (Unit {0})
  done s = (s, tt)

  abbrev pub emit : LogEntry Error → M (Unit {0})
  emit e s = (record s { log = e ∷ s.log }, tt)

  -- A call of a port.
  abbrev pub call : {A : Type 0} → (World → World × A) → M A
  call f s = (record s { world = (f s.world).0 }, (f s.world).1)

  abbrev pub update_circuit : (CircuitBreaker → CircuitBreaker) → M (Unit {0})
  update_circuit f s = (record s { circuit = f s.circuit }, tt)

  -- logDroppedPair
  unfoldable pub log_dropped_pair : Text → List QueueEntry → M (Unit {0})
  log_dropped_pair match_id pair = emit (dropped_stale_pair match_id (collect_player_ids pair))

  unfoldable pub after_best_effort : Text → List QueueEntry → Result Error Bool → M (Unit {0})
  unfolding log_dropped_pair
  after_best_effort match_id pair (err e) =
      emit (lost_during_shutdown match_id (collect_player_ids pair) e)
  after_best_effort match_id pair (ok false) = log_dropped_pair match_id pair
  after_best_effort match_id pair (ok true) = emit (shutdown_reenqueued match_id)

  -- bestEffortReenqueue
  unfoldable pub best_effort_reenqueue : Text → List QueueEntry → Text → M (Unit {0})
  unfolding after_best_effort
  best_effort_reenqueue match_id pair instance_id = do
    emit (final_attempt match_id (collect_player_ids pair))
    answer ← call (reenqueue background pair instance_id)
    after_best_effort match_id pair answer

  -- The `if err == nil` of a round; `again` is the rest of the round, for an error.
  unfoldable pub after_attempt :
      Text → List QueueEntry → (Error → M (Unit {0})) → Result Error Bool → M (Unit {0})
  unfolding log_dropped_pair
  after_attempt match_id pair again (ok true) = done
  after_attempt match_id pair again (ok false) = log_dropped_pair match_id pair
  after_attempt match_id pair again (err e) = again e

  -- `if ctx.Err() != nil`, and the `select` of a round.
  unfoldable pub unless_cancelled : M (Unit {0}) → M (Unit {0}) → Bool → M (Unit {0})
  unless_cancelled stop go_on true = stop
  unless_cancelled stop go_on false = go_on

  unfoldable pub on_wake : M (Unit {0}) → M (Unit {0}) → Wake → M (Unit {0})
  on_wake stop go_on ctx_done = stop
  on_wake stop go_on elapsed = go_on

  -- One round of reenqueueWithRetry; `next` is what follows it in the loop.
  unfoldable pub attempt_round : ℕ → ℕ → M (Unit {0}) → Text → List QueueEntry → Text → M (Unit {0})
  unfolding best_effort_reenqueue after_attempt unless_cancelled on_wake
  attempt_round attempt backoff next match_id pair instance_id =
      let stop = best_effort_reenqueue match_id pair instance_id in
      do
        answer ← call (reenqueue request pair instance_id)
        after_attempt match_id pair
            (λ e. do
              emit (attempt_failed attempt e)
              cancelled ← call ctx_err
              unless_cancelled stop
                  (if attempt == reenqueue_max_attempts
                    then emit (lost_after_attempts match_id (collect_player_ids pair))
                    else (do wake ← call (wait backoff); on_wake stop next wake))
                  cancelled)
            answer

  -- The loop of reenqueueWithRetry: `left` rounds are left, from the round `attempt` on.
  unfoldable pub reenqueue_attempts : ℕ → ℕ → ℕ → Text → List QueueEntry → Text → M (Unit {0})
  unfolding attempt_round
  reenqueue_attempts zero attempt backoff match_id pair instance_id =
      emit (lost_after_attempts match_id (collect_player_ids pair))
  reenqueue_attempts (suc left) attempt backoff match_id pair instance_id =
      attempt_round attempt backoff
        (reenqueue_attempts left (attempt + 1) (backoff * reenqueue_backoff_factor) match_id pair
          instance_id)
        match_id pair instance_id

  -- reenqueueWithRetry
  unfoldable pub reenqueue_with_retry : Text → List QueueEntry → Text → M (Unit {0})
  reenqueue_with_retry match_id pair instance_id =
      reenqueue_attempts reenqueue_max_attempts 1 reenqueue_initial_backoff match_id pair
        instance_id

  -- What a failed build or publish does.
  unfoldable pub give_back : LogEntry Error → Text → List QueueEntry → Text → M (Unit {0})
  unfolding reenqueue_with_retry
  give_back entry match_id pair instance_id = do
    emit entry
    t ← call now
    update_circuit (λ c. record_publish_failure c t)
    reenqueue_with_retry match_id pair instance_id

  -- The answer of the publisher.
  unfoldable pub after_publish : Text → List QueueEntry → Text → Option Error → M (Unit {0})
  unfolding give_back
  after_publish match_id pair instance_id (some e) =
      give_back (publish_failed e) match_id pair instance_id
  after_publish match_id pair instance_id none = do
    update_circuit record_publish_success
    emit (match_made match_id (player_at pair 0) (player_at pair 1))

  -- The wire event, if it could be built.
  unfoldable pub after_build :
      Text → List QueueEntry → Text → Result Error (Text × Text) → M (Unit {0})
  unfolding give_back after_publish
  after_build match_id pair instance_id (err e) =
      give_back (build_failed e) match_id pair instance_id
  after_build match_id pair instance_id (ok wire) = do
    answer ← call (publish wire.0 wire.1)
    after_publish match_id pair instance_id answer

  -- The tick behind a pop of two entries.
  unfoldable pub make_match : List QueueEntry → Text → M (Unit {0})
  unfolding after_build to_match_made_wire matched
  make_match pair instance_id = do
    match_id ← call new_match_id
    after_build match_id pair instance_id (to_match_made_wire marshal (matched match_id pair))

  -- The tick behind a successful pop.
  unfoldable pub handle_popped : List QueueEntry → Text → M (Unit {0})
  unfolding make_match
  handle_popped pair instance_id =
      if length pair == 0
      then done
      else if not (length pair == match_player_count)
      then emit (unexpected_pair_size (length pair) (collect_player_ids pair))
      else make_match pair instance_id

  unfoldable pub after_pop : Result Error (List QueueEntry × Text) → M (Unit {0})
  unfolding handle_popped
  after_pop (err e) = do
    emit (pop_pair_failed e)
    failed_at ← call now
    update_circuit (λ c. record_pop_failure c failed_at)
  after_pop (ok popped) = do update_circuit record_pop_success; handle_popped popped.0 popped.1

  abbrev pub ask_circuit : ℕ → M TickPermit
  ask_circuit t s = (record s { circuit = (allow_tick s.circuit t).0 }, (allow_tick s.circuit t).1)

  unfoldable pub on_permit : TickPermit → M (Unit {0})
  unfolding after_pop
  on_permit permit =
      if not permit.is_allowed
      then (if permit.should_log_skip then emit skipping_tick else done)
      else (do answer ← call pop_pair; after_pop answer)

  -- tick
  unfoldable pub tick : M (Unit {0})
  unfolding on_permit
  tick = do t ← call now; permit ← ask_circuit t; on_permit permit
