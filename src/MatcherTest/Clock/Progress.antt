-- ===== src/MatcherTest/Clock/Progress.antt =====
-- Advance of the clock of the tests ends: every round leaves less to do.
use overload_party_matchmaki.Prelude.{
  ℕ, zero, suc, ◌+◌, ◌≤◌, ◌<◌, ◌==◌, length, keep, map, All, All-append, All-map_imp, length-append,
  length-map, ap, Bool, true, false, not, Bool-cases, Option-cases, List, [], ◌∷◌, none, some, ◌≡◌,
  refl, sym, ◌⊎◌, inl, inr, arith,
}
use overload_party_matchmaki.MatcherTest.Clock.{
  Timer, Ticker, Clock, change_ticker, fire_timer, fire_ticker, Due, due_timer, due_ticker, due_at,
  fire, is_due_timer, is_due_ticker, dues, earliest_due, advance_loop, ticker_rounds,
  tickers_rounds, rounds,
}
use overload_party_matchmaki.MatcherTest.Clock.Dues.{
  In, All-map, All-keep, first_of-All, first_of-none, none_kept,
}

same_channel : (n : ℕ) → (n == n) ≡ true
same_channel n = ground arith

remove_le :
    (p : Timer → Bool) (ch : ℕ) (ts : List Timer)
    → length (keep p (keep (λ other. not (other.channel == ch)) ts)) ≤ length (keep p ts)
remove_le p ch [] = omega arith
remove_le p ch (x ∷ ts) = ground (arith, remove_le p ch ts)

remove_less :
    (p : Timer → Bool) (t : Timer) (ts : List Timer)
    → In t ts
    → p t ≡ true
    → length (keep p (keep (λ other. not (other.channel == t.channel)) ts)) < length (keep p ts)
remove_less p t [] m h = absurd m
remove_less p t (x ∷ ts) (inl same) h =
    rw (sym same) (rw (h, same_channel t.channel) (omega (arith, remove_le p t.channel ts)))
remove_less p t (x ∷ ts) (inr m) h = ground (arith, remove_less p t ts m h)

abbrev pub move : Ticker → Ticker
move k = record k { next = k.next + k.interval }

move_le : (target : ℕ) (k : Ticker) → ticker_rounds target (move k) ≤ ticker_rounds target k
move_le target k = ground arith

move_less :
    (target : ℕ) (k : Ticker)
    → 1 ≤ k.interval
    → is_due_ticker target k ≡ true
    → ticker_rounds target (move k) < ticker_rounds target k
move_less target k h due = ground arith

change_le :
    (target ch : ℕ) (ks : List Ticker)
    → tickers_rounds target (change_ticker move ch ks) ≤ tickers_rounds target ks
unfolding change_ticker
change_le target ch [] = omega arith
change_le target ch (k ∷ ks) = ground (arith, change_le target ch ks, move_le target k)

change_less :
    (target : ℕ) (k : Ticker) (ks : List Ticker)
    → In k ks
    → 1 ≤ k.interval
    → is_due_ticker target k ≡ true
    → tickers_rounds target (change_ticker move k.channel ks) < tickers_rounds target ks
unfolding change_ticker
change_less target k [] m h due = absurd m
change_less target k (x ∷ ks) (inl same) h due = rw (sym same) (
    rw (same_channel k.channel)
      (omega (arith, change_le target k.channel ks, move_less target k h due)))
change_less target k (x ∷ ks) (inr m) h due =
    ground (arith, change_less target k ks m h due, move_le target x)

-- Every ticker has an interval.
abbrev pub IsTicking : Clock → Type 0
IsTicking c = All (λ k. 1 ≤ k.interval) c.tickers

interval_In :
    (ks : List Ticker) (k : Ticker) → All (λ x. 1 ≤ x.interval) ks → In k ks → 1 ≤ k.interval
interval_In [] k h m = absurd m
interval_In (x ∷ ks) k h (inl same) = rw (same) h.0
interval_In (x ∷ ks) k h (inr m) = interval_In ks k h.1 m

change_ticker-All :
    (ch : ℕ) (ks : List Ticker)
    → All (λ x. 1 ≤ x.interval) ks
    → All (λ x. 1 ≤ x.interval) (change_ticker move ch ks)
unfolding change_ticker
change_ticker-All ch [] h = tt
change_ticker-All ch (k ∷ ks) h = elim (Bool-cases (k.channel == ch)) [
  | inl same ↦ rw (same) (h.0, change_ticker-All ch ks h.1)
  | inr other ↦ rw (other) (h.0, change_ticker-All ch ks h.1)
]

-- The state after a round that notifies of `d`.
abbrev pub after_round : Due → Clock → Clock
after_round d c = fire d (record c { now = due_at d })

after_round-IsTicking : (d : Due) (c : Clock) → IsTicking c → IsTicking (after_round d c)
unfolding fire fire_timer fire_ticker
after_round-IsTicking (due_timer t) c h = h
after_round-IsTicking (due_ticker k) c h = change_ticker-All k.channel c.tickers h

round_less :
    (target : ℕ) (c : Clock)
    → IsTicking c
    → All (λ d. rounds target (after_round d c) < rounds target c) (dues target c)
unfolding fire fire_timer fire_ticker
round_less target c h =
    All-append _ (map due_timer (keep (is_due_timer target) c.timers)) _
      (All-map _ due_timer (keep (is_due_timer target) c.timers) (
        All-keep _ (is_due_timer target) c.timers
          (λ t m due. omega (arith, remove_less (is_due_timer target) t c.timers m due))))
      (All-map _ due_ticker (keep (is_due_ticker target) c.tickers) (
        All-keep _ (is_due_ticker target) c.tickers (λ k m due.
          omega (arith, change_less target k c.tickers m (interval_In c.tickers k h m) due))))

earliest_less :
    (target : ℕ) (c : Clock) (d : Due)
    → IsTicking c
    → earliest_due target c ≡ some d
    → rounds target (after_round d c) < rounds target c
unfolding earliest_due
earliest_less target c d h e =
    first_of-All (λ x. rounds target (after_round x c) < rounds target c) (dues target c) d
      (round_less target c h) e

-- Enough rounds for a state leave nothing due, and more of them change nothing.
loop_done :
    (n : ℕ) (target : ℕ) (c : Clock)
    → rounds target c ≤ n
    → IsTicking c
    → earliest_due target (advance_loop n target c) ≡ none
unfolding advance_loop
loop_done zero target c le h = elim (Option-cases (earliest_due target c)) [
  | inl quiet ↦ quiet
  | inr (d, due) ↦ absurd (omega (arith, earliest_less target c d h due))
]
loop_done (suc n) target c le h = elim (Option-cases (earliest_due target c)) [
  | inl quiet ↦ rw (quiet, advance_loop) quiet
  | inr (d, due) ↦
      rw (due, advance_loop)
        (loop_done n target (after_round d c) (omega (arith, earliest_less target c d h due))
          (after_round-IsTicking d c h))
]

loop_same :
    (n m : ℕ) (target : ℕ) (c : Clock)
    → rounds target c ≤ n
    → rounds target c ≤ m
    → IsTicking c
    → advance_loop n target c ≡ advance_loop m target c
unfolding advance_loop
loop_same zero zero target c le le' h = refl
loop_same zero (suc m) target c le le' h = elim (Option-cases (earliest_due target c)) [
  | inl quiet ↦ rw (quiet, advance_loop) refl
  | inr (d, due) ↦ absurd (omega (arith, earliest_less target c d h due))
]
loop_same (suc n) zero target c le le' h = elim (Option-cases (earliest_due target c)) [
  | inl quiet ↦ rw (quiet, advance_loop) refl
  | inr (d, due) ↦ absurd (omega (arith, earliest_less target c d h due))
]
loop_same (suc n) (suc m) target c le le' h = elim (Option-cases (earliest_due target c)) [
  | inl quiet ↦ rw (quiet, advance_loop) refl
  | inr (d, due) ↦
      rw (due, advance_loop)
        (loop_same n m target (after_round d c) (omega (arith, earliest_less target c d h due))
          (omega (arith, earliest_less target c d h due)) (after_round-IsTicking d c h))
]

-- Nothing is due up to a time.
pub record IsQuiet (target : ℕ) (c : Clock) : Type 0 where
  pub timers_later : All (λ t. target < t.at) c.timers
  pub tickers_later : All (λ k. (k.is_active ≡ false) ⊎ (target < k.next)) c.tickers

quiet : (target : ℕ) (c : Clock) → earliest_due target c ≡ none → IsQuiet target c
unfolding earliest_due
quiet target c e =
    let kept_timers = keep (is_due_timer target) c.timers in
    let kept_tickers = keep (is_due_ticker target) c.tickers in
    let counted = ap length (first_of-none (dues target c) e) in
    let split = length-append (map due_timer kept_timers) (map due_ticker kept_tickers) in
    record {
      timers_later =
          All-map_imp c.timers (λ t late. ground (arith, late))
            (none_kept (is_due_timer target) c.timers
              (omega (arith, counted, split, length-map kept_timers due_timer)));
      tickers_later =
          All-map_imp c.tickers (λ k late. ground (arith, late))
            (none_kept (is_due_ticker target) c.tickers
              (omega (arith, counted, split, length-map kept_tickers due_ticker)));
    }

-- The loop of Advance ends, whatever timers and active or stopped tickers there are, if every ticker has
-- an interval above zero: after the given number of rounds nothing is due up to the time that is
-- advanced to, and any greater number of rounds ends in the same state.
pub advance_loop-IsQuiet :
    (n target : ℕ) (c : Clock)
    → rounds target c ≤ n
    → IsTicking c
    → IsQuiet target (advance_loop (rounds target c) target c)
      × (advance_loop n target c ≡ advance_loop (rounds target c) target c)
advance_loop-IsQuiet n target c le h = (
  quiet target (advance_loop (rounds target c) target c)
      (loop_done (rounds target c) target c (omega arith) h),
  loop_same n (rounds target c) target c le (omega arith) h,
)
