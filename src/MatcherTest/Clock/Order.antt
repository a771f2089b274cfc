-- ===== src/MatcherTest/Clock/Order.antt =====
-- The notifications of Advance of the clock of the tests, in the order in which it makes them.
use overload_party_matchmaki.Prelude.{
  ℕ, zero, suc, ◌≤◌, ◌==◌, keep, map, All, All-append, Bool, false, not, Bool-cases, Option-cases,
  List, [], ◌∷◌, ◌++◌, none, some, if◌then◌else◌, ◌≡◌, refl, subst, ◌⊎◌, inl, inr, arith,
}
use overload_party_matchmaki.MatcherTest.Clock.{
  Timer, Ticker, Clock, change_ticker, fire_timer, fire_ticker, Due, due_timer, due_ticker, due_at,
  fire, is_due_timer, is_due_ticker, dues, earliest_due, advance_loop,
}
use overload_party_matchmaki.MatcherTest.Clock.Dues.{
  All-map, All-keep, first_of-All, first_of_least,
}
use overload_party_matchmaki.MatcherTest.Clock.Progress.{move, after_round}

-- What the loop notifies of.
unfoldable pub notified : ℕ → ℕ → Clock → List Due
notified zero target c = []
notified (suc n) target c = elim (earliest_due target c) [
  | none ↦ []
  | some d ↦ d ∷ notified n target (after_round d c)
]

-- The state after notifications in the order of a list.
abbrev pub after_rounds : List Due → Clock → Clock
after_rounds [] c = c
after_rounds (d ∷ ds) c = after_rounds ds (after_round d c)

abbrev pub IsAscending : List Due → Type 0
IsAscending [] = Unit
IsAscending (d ∷ ds) = All (λ e. due_at d ≤ due_at e) ds × IsAscending ds

module _ {A : Type 0} (p : A → Bool) (Q : A → Type 0) where
  -- What holds of the elements that pass a test.
  each : (xs : List A) → All Q (keep p xs) → All (λ x. (p x ≡ false) ⊎ Q x) xs
  each [] h = tt
  each (x ∷ xs) h = elim (Bool-cases (p x)) [
    | inl passes ↦
        let both : All Q (x ∷ keep p xs) =
          subst (λ b. All Q (if b then x ∷ keep p xs else keep p xs)) passes h in
        (inr both.0, each xs both.1)
    | inr fails ↦
        let rest : All Q (keep p xs) =
          subst (λ b. All Q (if b then x ∷ keep p xs else keep p xs)) fails h in
        (inl fails, each xs rest)
  ]

  kept : (xs : List A) → All (λ x. (p x ≡ false) ⊎ Q x) xs → All Q (keep p xs)
  kept [] h = tt
  kept (x ∷ xs) (inl fails, h) = rw (fails) (kept xs h)
  kept (x ∷ xs) (inr q, h) = elim (Bool-cases (p x)) [
    | inl passes ↦ rw (passes) (q, kept xs h)
    | inr fails ↦ rw (fails) (kept xs h)
  ]

parts_of :
    {A B : Type 0} (P : B → Type 0) (f : A → B) (xs : List A) (ys : List B)
    → All P (map f xs ++ ys)
    → All (λ x. P (f x)) xs × All P ys
parts_of P f [] ys h = (tt, h)
parts_of P f (x ∷ xs) ys h = let r = parts_of P f xs ys h.1 in ((h.0, r.0), r.1)

unmapped :
    {A B : Type 0} (P : B → Type 0) (f : A → B) (xs : List A)
    → All P (map f xs)
    → All (λ x. P (f x)) xs
unmapped P f [] h = tt
unmapped P f (x ∷ xs) h = (h.0, unmapped P f xs h.1)

remaining_All :
    (Q : Timer → Type 0) (ch : ℕ) (ts : List Timer)
    → All Q ts
    → All Q (keep (λ other. not (other.channel == ch)) ts)
remaining_All Q ch [] h = tt
remaining_All Q ch (t ∷ ts) h = elim (Bool-cases (t.channel == ch)) [
  | inl same ↦ rw (same) (remaining_All Q ch ts h.1)
  | inr other ↦ rw (other) (h.0, remaining_All Q ch ts h.1)
]

moved_All :
    (Q : Ticker → Type 0) (ch : ℕ) (ks : List Ticker)
    → ((k : Ticker) → Q k → Q (move k))
    → All Q ks
    → All Q (change_ticker move ch ks)
unfolding change_ticker
moved_All Q ch [] f h = tt
moved_All Q ch (k ∷ ks) f h = elim (Bool-cases (k.channel == ch)) [
  | inl same ↦ rw (same) (f k h.0, moved_All Q ch ks f h.1)
  | inr other ↦ rw (other) (h.0, moved_All Q ch ks f h.1)
]

NoTimerBefore : ℕ → ℕ → Timer → Type 0
NoTimerBefore a target t = (is_due_timer target t ≡ false) ⊎ (a ≤ t.at)

NoTickBefore : ℕ → ℕ → Ticker → Type 0
NoTickBefore a target k = (is_due_ticker target k ≡ false) ⊎ (a ≤ k.next)

-- Nothing that is due up to `target` is due before `a`.
record NoneBefore (a target : ℕ) (c : Clock) : Type 0 where
  timers : All (NoTimerBefore a target) c.timers
  tickers : All (NoTickBefore a target) c.tickers

move-NoTickBefore :
    (a target : ℕ) (k : Ticker) → NoTickBefore a target k → NoTickBefore a target (move k)
unfolding NoTickBefore
move-NoTickBefore a target k h = ground (arith, h)

after_round-NoneBefore :
    (a target : ℕ) (d : Due) (c : Clock)
    → NoneBefore a target c
    → NoneBefore a target (after_round d c)
unfolding fire fire_timer fire_ticker
after_round-NoneBefore a target (due_timer t) c h = record {
  timers = remaining_All (NoTimerBefore a target) t.channel c.timers h.timers;
  tickers = h.tickers;
}
after_round-NoneBefore a target (due_ticker k) c h = record {
  timers = h.timers;
  tickers =
      moved_All (NoTickBefore a target) k.channel c.tickers (move-NoTickBefore a target) h.tickers;
}

earliest-NoneBefore :
    (target : ℕ) (c : Clock) (d : Due)
    → earliest_due target c ≡ some d
    → NoneBefore (due_at d) target c
unfolding earliest_due NoTimerBefore NoTickBefore
earliest-NoneBefore target c d e =
    let parts =
      parts_of _ due_timer (keep (is_due_timer target) c.timers) _
        (first_of_least (dues target c) d e) in
    record {
      timers = each (is_due_timer target) (λ t. due_at d ≤ t.at) c.timers parts.0;
      tickers =
          each (is_due_ticker target) (λ k. due_at d ≤ k.next) c.tickers
            (unmapped _ due_ticker _ parts.1);
    }

dues_All :
    (a target : ℕ) (c : Clock) → NoneBefore a target c → All (λ d. a ≤ due_at d) (dues target c)
unfolding NoTimerBefore NoTickBefore
dues_All a target c h =
    All-append _ (map due_timer (keep (is_due_timer target) c.timers)) _
      (All-map _ due_timer (keep (is_due_timer target) c.timers)
        (kept (is_due_timer target) _ c.timers h.timers))
      (All-map _ due_ticker (keep (is_due_ticker target) c.tickers)
        (kept (is_due_ticker target) _ c.tickers h.tickers))

notified_All :
    (n a target : ℕ) (c : Clock)
    → NoneBefore a target c
    → All (λ d. a ≤ due_at d) (notified n target c)
unfolding notified earliest_due
notified_All zero a target c h = tt
notified_All (suc n) a target c h = elim (Option-cases (earliest_due target c)) [
  | inl quiet ↦ rw (quiet, notified) tt
  | inr (d, due) ↦
      rw (due, notified)
        (
          first_of-All (λ e. a ≤ due_at e) (dues target c) d (dues_All a target c h) due,
          notified_All n a target (after_round d c) (after_round-NoneBefore a target d c h),
        )
]

dues_up_to : (target : ℕ) (c : Clock) → All (λ d. due_at d ≤ target) (dues target c)
dues_up_to target c =
    All-append _ (map due_timer (keep (is_due_timer target) c.timers)) _
      (All-map _ due_timer (keep (is_due_timer target) c.timers)
        (All-keep _ (is_due_timer target) c.timers (λ t m due. ground (arith, due))))
      (All-map _ due_ticker (keep (is_due_ticker target) c.tickers)
        (All-keep _ (is_due_ticker target) c.tickers (λ k m due. ground (arith, due))))

up_to_target : (n target : ℕ) (c : Clock) → All (λ d. due_at d ≤ target) (notified n target c)
unfolding notified earliest_due
up_to_target zero target c = tt
up_to_target (suc n) target c = elim (Option-cases (earliest_due target c)) [
  | inl quiet ↦ rw (quiet, notified) tt
  | inr (d, due) ↦
      rw (due, notified)
        (
          first_of-All (λ e. due_at e ≤ target) (dues target c) d (dues_up_to target c) due,
          up_to_target n target (after_round d c),
        )
]

ascending : (n target : ℕ) (c : Clock) → IsAscending (notified n target c)
unfolding notified
ascending zero target c = tt
ascending (suc n) target c = elim (Option-cases (earliest_due target c)) [
  | inl quiet ↦ rw (quiet, notified) tt
  | inr (d, due) ↦
      rw (due, notified)
        (
          notified_All n (due_at d) target (after_round d c)
              (after_round-NoneBefore (due_at d) target d c (earliest-NoneBefore target c d due)),
          ascending n target (after_round d c),
        )
]

loop_replays :
    (n target : ℕ) (c : Clock) → advance_loop n target c ≡ after_rounds (notified n target c) c
unfolding notified advance_loop
loop_replays zero target c = refl
loop_replays (suc n) target c = elim (Option-cases (earliest_due target c)) [
  | inl quiet ↦ rw (quiet, notified, advance_loop) refl
  | inr (d, due) ↦ rw (due, notified, advance_loop) (loop_replays n target (after_round d c))
]

-- Advance notifies in the order of time: its loop is a sequence of notifications, each made with the
-- clock at the time at which it is due, none of them is due earlier than one before it, and none is
-- due after the time that is advanced to.
pub notified-IsAscending :
    (n target : ℕ) (c : Clock)
    → (advance_loop n target c ≡ after_rounds (notified n target c) c)
      × IsAscending (notified n target c)
      × All (λ d. due_at d ≤ target) (notified n target c)
notified-IsAscending n target c =
    (loop_replays n target c, ascending n target c, up_to_target n target c)
