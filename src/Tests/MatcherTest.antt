-- ===== src/Tests/MatcherTest.antt =====
-- The results on the fakes of the matcher's tests.
use overload_party_matchmaki.Prelude.{
  ℕ, suc, ◌+◌, ◌≤◌, take, All, Text, List, [], ◌∷◌, none, true, false, ◌≡◌, refl, ◌⊎◌, arith,
}
use overload_party_matchmaki.MatcherTest.Clock.{Clock, due_at, rounds, advance_loop}
use overload_party_matchmaki.MatcherTest.Clock.Progress.{IsQuiet, advance_loop-IsQuiet}
use overload_party_matchmaki.MatcherTest.Clock.Order.{
  notified, after_rounds, IsAscending, notified-IsAscending,
}
use overload_party_matchmaki.MatcherTest.Clock.{after, notify_changed}
use overload_party_matchmaki.MatcherTest.Clock.Waits.{
  timers_pending, calls_after, receives, Turn, others, goes_on, is_satisfied, run_op, turn, turns,
}
use overload_party_matchmaki.MatcherTest.Clock.Wakes.{begun, IsOver, waits_IsOver}
use overload_party_matchmaki.MatcherTest.Run.{Machine, wait_limit, quiet_polls, wait_until_quiet}
use overload_party_matchmaki.MatcherTest.Run.Ends.{
  after_polls, polled, wait_until_quiet-after_polls,
}

-- Two timers, a ticker and a stopped ticker.
abbrev clock : Clock
clock = record {
  now = 0;
  timers = record { at = 7; channel = 0 } ∷ record { at = 3; channel = 1 } ∷ [];
  tickers =
      record { interval = 2; next = 2; channel = 2; is_active = true }
      ∷ record { interval = 5; next = 1; channel = 3; is_active = false }
      ∷ [];
  channels = none ∷ none ∷ none ∷ none ∷ [];
  changes = 4;
}

advance_loop-IsQuiet_example :
    IsQuiet 6 (advance_loop (rounds 6 clock) 6 clock)
    × (advance_loop 10 6 clock ≡ advance_loop (rounds 6 clock) 6 clock)
advance_loop-IsQuiet_example =
    advance_loop-IsQuiet 10 6 clock (omega arith) (omega arith, (omega arith, tt))

notified-IsAscending_example :
    (advance_loop 6 6 clock ≡ after_rounds (notified 6 6 clock) clock)
    × IsAscending (notified 6 6 clock)
    × All (λ d. due_at d ≤ 6) (notified 6 6 clock)
notified-IsAscending_example = notified-IsAscending 6 6 clock

-- A wait for a third timer looks, stands, and is woken by a call of After.
abbrev story : List (Turn Text)
story = goes_on false ∷ others (receives 0) ∷ others (calls_after 5) ∷ []

waits_IsOver_example : IsOver Text (
    turns Text
      (timers_pending 3)
      (goes_on true ∷ goes_on true ∷ [])
      (turns Text (timers_pending 3) story (begun Text clock)))
unfolding turns turn run_op after notify_changed is_satisfied
waits_IsOver_example = waits_IsOver Text (timers_pending 3) story clock true true refl

-- A machine whose world is its time; a sleep takes a millisecond more than it was told.
abbrev sleepy : Machine
sleepy = record {
  World = ℕ;
  now = λ w. w;
  sleep = λ d w. w + d + 1000000;
  advance = λ d w. w;
  slept = λ d w. omega arith;
  advanced = λ d w. omega arith;
}

-- An activity that never changes, read in no time.
abbrev resting : ℕ → ℕ × ℕ
resting w = (w, 7)

wait_until_quiet-after_polls_example :
    (polls : ℕ) × ((wait_until_quiet sleepy resting 0).0 ≡ after_polls sleepy resting polls 0)
    × ((((wait_until_quiet sleepy resting 0).1 ≡ false)
          × (quiet_polls ≤ polls)
          × ((last : ℕ) × All
                (λ x. x ≡ last)
                (take (suc quiet_polls) (polled sleepy resting polls 0))))
        ⊎ (((wait_until_quiet sleepy resting 0).1 ≡ true)
            × (0 + wait_limit ≤ (wait_until_quiet sleepy resting 0).0)))
wait_until_quiet-after_polls_example =
    wait_until_quiet-after_polls sleepy resting 0 (λ x. omega arith)
