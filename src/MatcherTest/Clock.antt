-- ===== src/MatcherTest/Clock.antt =====
-- internal/usecase/matcher/matchertest/clock.go: a clock that stands until it is advanced. A method runs
-- under the mutex and is one function on the state. Times and durations are nanoseconds, and none is
-- negative. A channel is a cell for one time, found by its number; a pointer to a timer or to a ticker
-- is the number of its channel, which no other one has.
pub mod Dues
pub mod Progress
pub mod Order
pub mod Waits
pub mod Wakes
use overload_party_matchmaki.Prelude.{
  ℕ, zero, suc, ◌+◌, ◌-◌, ◌==◌, leb, ltb, length, keep, map, Bool, true, false, not, ◌&&◌, List, [],
  ◌∷◌, ◌++◌, Option, none, some, if◌then◌else◌,
}

pub record Timer : Type 0 where
  pub at : ℕ
  pub channel : ℕ

pub record Ticker : Type 0 where
  pub interval : ℕ
  pub next : ℕ
  pub channel : ℕ
  pub is_active : Bool

-- `changes` counts how often `changed` was closed.
pub record Clock : Type 0 where
  pub now : ℕ
  pub timers : List Timer
  pub tickers : List Ticker
  pub channels : List (Option ℕ)
  pub changes : ℕ

unfoldable pub new_clock : ℕ → Clock
new_clock start = record { now = start; timers = []; tickers = []; channels = []; changes = 0 }

unfoldable pub notify_changed : Clock → Clock
notify_changed c = record c { changes = suc c.changes }

-- After; the answer is the channel.
unfoldable pub after : ℕ → Clock → Clock × ℕ
unfolding notify_changed
after d c =
    let ch = length c.channels in
    (
      notify_changed (record c {
        timers = c.timers ++ record { at = c.now + d; channel = ch } ∷ [];
        channels = c.channels ++ none ∷ [];
      }),
      ch,
    )

-- NewTicker; the answer is the channel.
unfoldable pub new_ticker : ℕ → Clock → Clock × ℕ
unfolding notify_changed
new_ticker d c =
    let ch = length c.channels in
    (
      notify_changed (record c {
        tickers =
            c.tickers
            ++ record { interval = d; next = c.now + d; channel = ch; is_active = true } ∷ [];
        channels = c.channels ++ none ∷ [];
      }),
      ch,
    )

-- A method on the ticker of a channel.
unfoldable pub change_ticker : (Ticker → Ticker) → ℕ → List Ticker → List Ticker
change_ticker f ch [] = []
change_ticker f ch (t ∷ ts) =
    let rest = change_ticker f ch ts in if t.channel == ch then f t ∷ rest else t ∷ rest

-- Stop
unfoldable pub stop : ℕ → Clock → Clock
unfolding notify_changed change_ticker
stop ch c =
    notify_changed
      (record c { tickers = change_ticker (λ t. record t { is_active = false }) ch c.tickers })

-- sendWithoutWaiting: a cell that is full keeps what it has.
unfoldable pub send_without_waiting : ℕ → ℕ → List (Option ℕ) → List (Option ℕ)
send_without_waiting ch at [] = []
send_without_waiting zero at (none ∷ cells) = some at ∷ cells
send_without_waiting zero at (some t ∷ cells) = some t ∷ cells
send_without_waiting (suc n) at (cell ∷ cells) = cell ∷ send_without_waiting n at cells

-- A receive from a channel takes what its cell has.
unfoldable pub receive : ℕ → List (Option ℕ) → List (Option ℕ) × Option ℕ
receive ch [] = ([], none)
receive zero (cell ∷ cells) = (none ∷ cells, cell)
receive (suc n) (cell ∷ cells) = let r = receive n cells in (cell ∷ r.0, r.1)

-- fireTimer
unfoldable pub fire_timer : Timer → Clock → Clock
unfolding send_without_waiting
fire_timer t c = record c {
  channels = send_without_waiting t.channel c.now c.channels;
  timers = keep (λ other. not (other.channel == t.channel)) c.timers;
}

-- `fire` of a ticker
unfoldable pub fire_ticker : Ticker → Clock → Clock
unfolding send_without_waiting change_ticker
fire_ticker t c = record c {
  channels = send_without_waiting t.channel c.now c.channels;
  tickers = change_ticker (λ k. record k { next = k.next + k.interval }) t.channel c.tickers;
}

-- What is due, with the function that notifies of it.
pub data Due : Type 0 where
  due_timer : Timer → Due
  due_ticker : Ticker → Due

abbrev pub due_at : Due → ℕ
due_at (due_timer t) = t.at
due_at (due_ticker t) = t.next

unfoldable pub fire : Due → Clock → Clock
unfolding fire_timer fire_ticker
fire (due_timer t) = fire_timer t
fire (due_ticker t) = fire_ticker t

abbrev pub is_due_timer : ℕ → Timer → Bool
is_due_timer target t = leb t.at target

abbrev pub is_due_ticker : ℕ → Ticker → Bool
is_due_ticker target t = t.is_active && leb t.next target

abbrev pub dues : ℕ → Clock → List Due
dues target c =
    map due_timer (keep (is_due_timer target) c.timers)
    ++ map due_ticker (keep (is_due_ticker target) c.tickers)

-- The first one of the stable sort by time.
abbrev pub first_of : List Due → Option Due
first_of [] = none
first_of (d ∷ ds) =
    let rest = first_of ds in
    elim rest [ none ↦ some d | some e ↦ if ltb (due_at e) (due_at d) then some e else some d ]

unfoldable pub earliest_due : ℕ → Clock → Option Due
earliest_due target c = first_of (dues target c)

-- The loop of Advance, with the number of rounds that it may take.
unfoldable pub advance_loop : ℕ → ℕ → Clock → Clock
unfolding earliest_due fire
advance_loop zero target c = c
advance_loop (suc n) target c = elim (earliest_due target c) [
  | none ↦ c
  | some d ↦ advance_loop n target (fire d (record c { now = due_at d }))
]

-- How many rounds are enough: a round takes a due timer away or moves a ticker on.
abbrev pub ticker_rounds : ℕ → Ticker → ℕ
ticker_rounds target t = if is_due_ticker target t then suc (target - t.next) else 0

abbrev pub tickers_rounds : ℕ → List Ticker → ℕ
tickers_rounds target [] = 0
tickers_rounds target (t ∷ ts) = ticker_rounds target t + tickers_rounds target ts

abbrev pub rounds : ℕ → Clock → ℕ
rounds target c = length (keep (is_due_timer target) c.timers) + tickers_rounds target c.tickers

-- Advance
unfoldable pub advance : ℕ → Clock → Clock
unfolding advance_loop
advance d c =
    let target = c.now + d in record (advance_loop (rounds target c) target c) { now = target }

abbrev pub count_active_tickers : Clock → ℕ
count_active_tickers c = length (keep (λ t. t.is_active) c.tickers)

abbrev pub has_unread : ℕ → List (Option ℕ) → Bool
has_unread ch [] = false
has_unread zero (none ∷ cells) = false
has_unread zero (some t ∷ cells) = true
has_unread (suc n) (cell ∷ cells) = has_unread n cells

-- hasUnreadTick, over the tickers that are left to look at.
unfoldable pub has_unread_tick : List (Option ℕ) → List Ticker → Bool
has_unread_tick cells [] = false
has_unread_tick cells (t ∷ ts) =
    let rest = has_unread_tick cells ts in
    if t.is_active && has_unread t.channel cells then true else rest
