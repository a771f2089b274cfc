-- ===== src/Matcher/Attempts.antt =====
-- What reenqueueWithRetry of internal/usecase/matcher/matcher.go may have done when it ends, by the calls
-- and the log lines of a run.
use overload_party_matchmaki.Prelude.{ℕ, suc, ◌+◌, Text, true, false, ◌≡◌, List, [], ◌∷◌, ok, err}
use overload_party_matchmaki.Domain.{QueueEntry, collect_player_ids}
use overload_party_matchmaki.Port.{Ports, Context, request, background, ctx_done, elapsed}
use overload_party_matchmaki.Port.Traced.{reenqueued, waited, asked_ctx, Trace, traced}
use overload_party_matchmaki.Matcher.{
  State, LogEntry, lost_after_attempts, lost_during_shutdown, dropped_stale_pair,
}

-- How many write-backs a trace holds, and the milliseconds that it waited.
abbrev pub write_backs : {Error : Type 0} → Trace Error → ℕ
write_backs [] = 0
write_backs (reenqueued ctx pair id answer ∷ cs) = suc (write_backs cs)
write_backs (c ∷ cs) = write_backs cs

abbrev pub waits : {Error : Type 0} → Trace Error → ℕ
waits [] = 0
waits (waited d wake ∷ cs) = d + waits cs
waits (c ∷ cs) = waits cs

module _ (ports : Ports) where
  open ports use {World, Error}

  abbrev pub TracedState : Type 0
  TracedState = State (traced ports)

  abbrev pub trace : TracedState → Trace Error
  trace s = s.world.1

  -- So many attempts in a row, behind the trace `start`: each failed, the context was alive, and the
  -- wait behind it ended.
  pub data Tried (pair : List QueueEntry) (instance_id : Text) (start : Trace Error)
      : ℕ → Trace Error → Type 0 where
    untried : Tried pair instance_id start 0 start
    tried_again :
        {n : ℕ} {before : Trace Error} (e : Error) (backoff : ℕ)
        → Tried pair instance_id start n before
        → Tried pair instance_id start (suc n) (
            waited backoff elapsed
            ∷ asked_ctx false
            ∷ reenqueued request pair instance_id (err e)
            ∷ before)

  -- The shutdown was seen, at the check of the context or in a wait.
  pub data IsShutDown : Trace Error → Type 0 where
    seen : (before : Trace Error) → IsShutDown (asked_ctx true ∷ before)
    woken : (d : ℕ) (before : Trace Error) → IsShutDown (waited d ctx_done ∷ before)

  -- The end of the pair `pair` of the match `match_id`, which was popped under `instance_id`: the
  -- states before and after the run, `s` and `t`, and its last calls and log line.
  pub data Settled (match_id : Text) (pair : List QueueEntry) (instance_id : Text)
      (s t : TracedState) : Type 0 where
    -- the last call wrote the pair back
    returned :
        (ctx : Context) (before : Trace Error)
        → trace t ≡ reenqueued ctx pair instance_id (ok true) ∷ before
        → Settled match_id pair instance_id s t
    -- the queue refused the pair, which is logged as dropped
    dropped :
        (ctx : Context) (before : Trace Error) (earlier : List (LogEntry Error))
        → trace t ≡ reenqueued ctx pair instance_id (ok false) ∷ before
        → t.log ≡ dropped_stale_pair match_id (collect_player_ids pair) ∷ earlier
        → Settled match_id pair instance_id s t
    -- all five attempts failed, with the context alive behind each, and the pair is logged as lost
    lost :
        (e : Error) (before : Trace Error) (earlier : List (LogEntry Error))
        → Tried pair instance_id (trace s) 4 before
        → trace t ≡ asked_ctx false ∷ reenqueued request pair instance_id (err e) ∷ before
        → t.log ≡ lost_after_attempts match_id (collect_player_ids pair) ∷ earlier
        → Settled match_id pair instance_id s t
    -- the shutdown was seen, the final attempt behind it failed, and the pair is logged as lost
    lost_in_shutdown :
        (e : Error) (before : Trace Error) (earlier : List (LogEntry Error))
        → IsShutDown before
        → trace t ≡ reenqueued background pair instance_id (err e) ∷ before
        → t.log ≡ lost_during_shutdown match_id (collect_player_ids pair) e ∷ earlier
        → Settled match_id pair instance_id s t
