-- ===== src/MatcherTest/Clock/Waits.antt =====
-- The waits of internal/usecase/matcher/matchertest/clock.go: waitFor, which WaitForTimers and
-- WaitForTickers call, and WaitForTicksConsumed. A wait looks at the clock under the mutex and then
-- stands in its `select`, while other goroutines go on: what happens is a list of turns, one critical
-- section or one wake-up each. A channel that waitFor took from `changed` is closed when the count of
-- changes has grown since.
use overload_party_matchmaki.Prelude.{
  ℕ, ltb, leb, length, Bool, true, not, ◌&&◌, List, [], ◌∷◌, Option, none, some, if◌then◌else◌,
}
use overload_party_matchmaki.MatcherTest.Clock.{
  Clock, after, new_ticker, stop, receive, advance, count_active_tickers, has_unread_tick,
}

-- What a wait waits for.
pub data Condition : Type 0 where
  timers_pending tickers_running : ℕ → Condition
  ticks_consumed : Condition

unfoldable pub is_satisfied : Condition → Clock → Bool
unfolding has_unread_tick
is_satisfied (timers_pending n) c = leb n (length c.timers)
is_satisfied (tickers_running n) c = leb n (count_active_tickers c)
is_satisfied ticks_consumed c = not (has_unread_tick c.channels c.tickers)

-- Whether the other case of the `select` is ready: the channel is closed, or the poll interval is over.
unfoldable pub is_woken : Condition → ℕ → Clock → Bool
is_woken (timers_pending n) seen c = ltb seen c.changes
is_woken (tickers_running n) seen c = ltb seen c.changes
is_woken ticks_consumed seen c = true

-- What the other goroutines do with the clock.
pub data Op : Type 0 where
  calls_after calls_new_ticker calls_stop calls_advance receives : ℕ → Op

unfoldable pub run_op : Op → Clock → Clock
unfolding after new_ticker stop advance receive
run_op (calls_after d) c = (after d c).0
run_op (calls_new_ticker d) c = (new_ticker d c).0
run_op (calls_stop ch) c = stop ch c
run_op (calls_advance d) c = advance d c
run_op (receives ch) c = record c { channels = (receive ch c.channels).0 }

module _ (Error : Type 0) where
  -- `waiting` has the changes that were seen when the channel was taken.
  pub data Waiter : Type 0 where
    looking satisfied : Waiter
    waiting : ℕ → Waiter
    interrupted : Error → Waiter

  pub data Turn : Type 0 where
    others : Op → Turn
    -- the context ends
    cancelled : Error → Turn
    -- the wait goes on; a `select` with both cases ready takes the context if it says so
    goes_on : Bool → Turn

  pub record Scene : Type 0 where
    pub clock : Clock
    pub ctx_err : Option Error
    pub waiter : Waiter

  -- The `select`.
  unfoldable pub select : Condition → Bool → ℕ → Scene → Waiter
  unfolding is_woken
  select cond takes_ctx seen s = elim s.ctx_err [
    | none ↦ if is_woken cond seen s.clock then looking else waiting seen
    | some e ↦ if is_woken cond seen s.clock && not takes_ctx then looking else interrupted e
  ]

  -- The loops of waitFor and of WaitForTicksConsumed, one section at a time.
  unfoldable pub wait_turn : Condition → Bool → Scene → Waiter
  unfolding select is_satisfied
  wait_turn cond takes_ctx s = elim s.waiter [
    | looking ↦ if is_satisfied cond s.clock then satisfied else waiting s.clock.changes
    | satisfied ↦ satisfied
    | waiting seen ↦ select cond takes_ctx seen s
    | interrupted e ↦ interrupted e
  ]

  abbrev pub or_else : Option Error → Error → Option Error
  or_else none e = some e
  or_else (some f) e = some f

  unfoldable pub turn : Condition → Turn → Scene → Scene
  unfolding run_op wait_turn
  turn cond (others op) s = record s { clock = run_op op s.clock }
  turn cond (cancelled e) s = record s { ctx_err = or_else s.ctx_err e }
  turn cond (goes_on takes_ctx) s = record s { waiter = wait_turn cond takes_ctx s }

  unfoldable pub turns : Condition → List Turn → Scene → Scene
  unfolding turn
  turns cond [] s = s
  turns cond (t ∷ ts) s = turns cond ts (turn cond t s)
