-- ===== src/MatcherTest/Run.antt =====
-- internal/usecase/matcher/matchertest/run.go and match_id.go: a gate, the wait for quiet, the run of a
-- loop in a goroutine, and the fixed match id. The machine under the tests, with its wall clock, is a
-- parameter; a loop has a number of rounds that its time limit cannot exceed.
pub mod Ends
use overload_party_matchmaki.Prelude.{
  ℕ, zero, suc, ◌+◌, ◌*◌, ◌≤◌, ◌==◌, ltb, Text, Bool, true, false, not, ◌&&◌, ◌||◌, if◌then◌else◌,
}

-- Times are nanoseconds.
abbrev pub wait_limit : ℕ
wait_limit = 5000000000

abbrev pub poll_interval : ℕ
poll_interval = 2000000

abbrev pub quiet_polls : ℕ
quiet_polls = 8

abbrev pub shutdown_clock_advance : ℕ
shutdown_clock_advance = 3600000000000

-- How often a loop with the limit can sleep.
unfoldable pub most_polls : ℕ
most_polls = 2500

pub record Gate : Type 0 where
  pub is_open : Bool

unfoldable pub new_gate : Gate
new_gate = record { is_open = false }

-- Open; `once` closes the channel at the first call only.
unfoldable pub open_gate : Gate → Gate
open_gate g = if g.is_open then g else record { is_open = true }

-- Opened: whether a receive from the channel goes on.
unfoldable pub opened : Gate → Bool
opened g = g.is_open

pub record FixedMatchIdGenerator : Type 0 where
  pub id : Text

unfoldable pub new_fixed_match_id_generator : Text → FixedMatchIdGenerator
new_fixed_match_id_generator id = record { id = id }

unfoldable pub new_match_id : FixedMatchIdGenerator → Text
new_match_id g = g.id

-- The machine: `time.Now`, `time.Sleep`, which sleeps at least as long as it is told to, and a clock of
-- the tests that is advanced.
pub record Machine : Type 1 where
  pub World : Type 0
  pub now : World → ℕ
  pub sleep : ℕ → World → World
  pub advance : ℕ → World → World
  pub slept : (d : ℕ) (w : World) → now w + d ≤ now (sleep d w)
  pub advanced : (d : ℕ) (w : World) → now w ≤ now (advance d w)

-- A `for` loop that goes on while its condition holds, with the rounds that it may take.
unfoldable pub loop {ℓ} : {S : Type ℓ} → (S → Bool) → (S → S) → ℕ → S → S
loop goes_on round zero s = s
loop goes_on round (suc n) s = elim (goes_on s) [
  | true ↦ loop goes_on round n (round s)
  | false ↦ s
]

module _ (machine : Machine) where
  open machine use {World}

  -- The variables of WaitUntilQuiet.
  pub record Watch : Type 0 where
    pub world : World
    pub last : ℕ
    pub stable : ℕ

  abbrev pub is_not_quiet : ℕ → Watch → Bool
  is_not_quiet deadline s = ltb s.stable quiet_polls && ltb (machine.now s.world) deadline

  -- What `activity` answers, behind a sleep.
  abbrev pub poll : (World → World × ℕ) → World → World × ℕ
  poll activity w = activity (machine.sleep poll_interval w)

  unfoldable pub quiet_round : (World → World × ℕ) → Watch → Watch
  quiet_round activity s =
      let (w, current) = poll activity s.world in
      if not (current == s.last)
      then record { world = w; last = current; stable = 0 }
      else record { world = w; last = s.last; stable = suc s.stable }

  -- WaitUntilQuiet, with whether it reports an error.
  unfoldable pub wait_until_quiet : (World → World × ℕ) → World → World × Bool
  wait_until_quiet activity w =
      let deadline = machine.now w + wait_limit in
      let (begun, last) = activity w in
      let s =
        loop (is_not_quiet deadline) (quiet_round activity) most_polls
          (record { world = begun; last = last; stable = 0 }) in
      (s.world, ltb s.stable quiet_polls)

  -- A run, by what its context and its channel `done` show.
  pub record Running : Type 0 where
    pub cancel : World → World
    pub is_done : World → Bool

  -- Shutdown
  unfoldable pub shutdown : Running → World → World
  shutdown r = r.cancel

  abbrev pub is_unfinished : Running → (World → Bool) → World → Bool
  is_unfinished r is_idle w = not (r.is_done w) || not (is_idle w)

  abbrev pub is_going_on : Running → (World → Bool) → ℕ → World → Bool
  is_going_on r is_idle deadline w = ltb (machine.now w) deadline && is_unfinished r is_idle w

  abbrev pub shutdown_round : World → World
  shutdown_round w = machine.sleep poll_interval (machine.advance shutdown_clock_advance w)

  -- The cleanup of StartRun, with whether it reports an error.
  unfoldable pub clean_up : Running → (World → Bool) → World → World × Bool
  clean_up r is_idle w =
      let cancelled = r.cancel w in
      let deadline = machine.now cancelled + wait_limit in
      let ended = loop (is_going_on r is_idle deadline) shutdown_round most_polls cancelled in
      (ended, is_unfinished r is_idle ended)
