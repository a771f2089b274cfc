-- ===== src/MatcherTest/Clock/Wakes.antt =====
-- No notification is lost to a wait of internal/usecase/matcher/matchertest/clock.go.
use overload_party_matchmaki.Prelude.{
  ℕ, zero, suc, ◌+◌, ◌==◌, ◌≤◌, ◌<◌, length, keep, length-keep-le, Bool, true, false, not,
  Bool-cases, Option-cases, List, [], ◌∷◌, Option, none, some, ◌≡◌, refl, ◌∙◌, ◌⊎◌, inl, inr, arith,
}
use overload_party_matchmaki.MatcherTest.Clock.{
  Ticker, Clock, notify_changed, after, new_ticker, change_ticker, stop, fire_timer, fire_ticker,
  Due, due_timer, due_ticker, fire, earliest_due, advance_loop, rounds, advance,
  count_active_tickers,
}
use overload_party_matchmaki.MatcherTest.Clock.Progress.{move, after_round}
use overload_party_matchmaki.MatcherTest.Clock.Waits.{
  Condition, timers_pending, tickers_running, ticks_consumed, is_satisfied, is_woken, Op,
  calls_after, calls_new_ticker, calls_stop, calls_advance, receives, run_op, Waiter, looking,
  waiting, satisfied, interrupted, Turn, others, cancelled, goes_on, Scene, select, wait_turn, turn,
  turns,
}

-- From one clock to the next without a notification: no timer and no active ticker more.
record IsCalm (c d : Clock) : Type 0 where
  unnotified : c.changes ≡ d.changes
  timers_le : length d.timers ≤ length c.timers
  tickers_same : count_active_tickers d ≡ count_active_tickers c

move-active :
    (ch : ℕ) (ks : List Ticker)
    → length (keep (λ t. t.is_active) (change_ticker move ch ks))
      ≡ length (keep (λ t. t.is_active) ks)
unfolding change_ticker
move-active ch [] = refl
move-active ch (k ∷ ks) = ground (arith, move-active ch ks)

round-IsCalm : (d : Due) (c : Clock) → IsCalm c (after_round d c)
unfolding fire fire_timer fire_ticker
round-IsCalm (due_timer t) c = record {
  unnotified = refl;
  timers_le = length-keep-le (λ other. not (other.channel == t.channel)) c.timers;
  tickers_same = refl;
}
round-IsCalm (due_ticker k) c = record {
  unnotified = refl;
  timers_le = omega arith;
  tickers_same = move-active k.channel c.tickers;
}

IsCalm-trans : (b c d : Clock) → IsCalm b c → IsCalm c d → IsCalm b d
IsCalm-trans b c d h k = record {
  unnotified = h.unnotified ∙ k.unnotified;
  timers_le = omega (arith, h.timers_le, k.timers_le);
  tickers_same = k.tickers_same ∙ h.tickers_same;
}

same-IsCalm : (c : Clock) → IsCalm c c
same-IsCalm c = record { unnotified = refl; timers_le = omega arith; tickers_same = refl }

loop-IsCalm : (n target : ℕ) (c : Clock) → IsCalm c (advance_loop n target c)
unfolding advance_loop
loop-IsCalm zero target c = same-IsCalm c
loop-IsCalm (suc n) target c = elim (Option-cases (earliest_due target c)) [
  | inl quiet ↦ rw (quiet, advance_loop) (same-IsCalm c)
  | inr (d, due) ↦
      rw (due, advance_loop)
        (IsCalm-trans c (after_round d c) _ (round-IsCalm d c)
          (loop-IsCalm n target (after_round d c)))
]

-- An operation notifies or is calm.
op_notifies : (op : Op) (c : Clock) → (c.changes < (run_op op c).changes) ⊎ IsCalm c (run_op op c)
unfolding run_op after new_ticker stop notify_changed advance
op_notifies (calls_after d) c = inl (omega arith)
op_notifies (calls_new_ticker d) c = inl (omega arith)
op_notifies (calls_stop ch) c = inl (omega arith)
op_notifies (calls_advance d) c =
    let target = c.now + d in
    let calm = loop-IsCalm (rounds target c) target c in
    inr (record {
      unnotified = calm.unnotified;
      timers_le = calm.timers_le;
      tickers_same = calm.tickers_same;
    })
op_notifies (receives ch) c =
    inr (record { unnotified = refl; timers_le = omega arith; tickers_same = refl })

-- A wait that stands in its `select` is woken, or its condition does not hold.
abbrev IsHeard : Condition → ℕ → Clock → Type 0
IsHeard cond seen c =
    (is_woken cond seen c ≡ true) ⊎ ((seen ≡ c.changes) × (is_satisfied cond c ≡ false))

op-IsHeard :
    (cond : Condition) (op : Op) (seen : ℕ) (c : Clock)
    → IsHeard cond seen c
    → IsHeard cond seen (run_op op c)
unfolding is_woken is_satisfied
op-IsHeard ticks_consumed op seen c h = inl refl
op-IsHeard (timers_pending n) op seen c h = elim (op_notifies op c) [
  | inl notified ↦ inl (ground (arith, h))
  | inr calm ↦ ground (arith, h, calm.unnotified, calm.timers_le)
]
op-IsHeard (tickers_running n) op seen c h = elim (op_notifies op c) [
  | inl notified ↦ inl (ground (arith, h))
  | inr calm ↦ ground (arith, h, calm.unnotified, calm.tickers_same)
]

module _ (Error : Type 0) where
  abbrev HearsIt : Condition → Scene Error → Type 0
  HearsIt cond s = (seen : ℕ) → s.waiter ≡ waiting seen → IsHeard cond seen s.clock

  -- What the wait does in its next turn, for each state of it.
  looks :
      (cond : Condition) (b : Bool) (c : Clock) (o : Option Error) (w : Waiter Error) (seen : ℕ)
      → ((seen : ℕ) → w ≡ waiting seen → IsHeard cond seen c)
      → wait_turn Error cond b (record { clock = c; ctx_err = o; waiter = w }) ≡ waiting seen
      → IsHeard cond seen c
  unfolding wait_turn select
  looks cond b c o looking seen h e = elim (Bool-cases (is_satisfied cond c)) [
    | inl now ↦ absurd (ground (arith, now, e))
    | inr later ↦ inr (ground (arith, later, e), later)
  ]
  looks cond b c o satisfied seen h e = absurd (cc)
  looks cond b c none (waiting old) seen h e = elim (Bool-cases (is_woken cond old c)) [
    | inl now ↦ absurd (ground (arith, now, e))
    | inr later ↦ h seen (ground (arith, later, e))
  ]
  looks cond b c (some f) (waiting old) seen h e = absurd (ground (arith, e))
  looks cond b c o (interrupted f) seen h e = absurd (cc)

  turn-HearsIt :
      (cond : Condition) (t : Turn Error) (s : Scene Error)
      → HearsIt cond s
      → HearsIt cond (turn Error cond t s)
  unfolding turn
  turn-HearsIt cond (others op) s h seen e = op-IsHeard cond op seen s.clock (h seen e)
  turn-HearsIt cond (cancelled err) s h seen e = h seen e
  turn-HearsIt cond (goes_on b) s h seen e = looks cond b s.clock s.ctx_err s.waiter seen h e

  turns-HearsIt :
      (cond : Condition) (ts : List (Turn Error)) (s : Scene Error)
      → HearsIt cond s
      → HearsIt cond (turns Error cond ts s)
  unfolding turns
  turns-HearsIt cond [] s h = h
  turns-HearsIt cond (t ∷ ts) s h =
      turns-HearsIt cond ts (turn Error cond t s) (turn-HearsIt cond t s h)

  -- Only the context interrupts.
  abbrev IsBlamed : Scene Error → Type 0
  IsBlamed s = (e : Error) → s.waiter ≡ interrupted e → s.ctx_err ≡ some e

  blames :
      (cond : Condition) (b : Bool) (c : Clock) (o : Option Error) (w : Waiter Error) (e : Error)
      → (w ≡ interrupted e → o ≡ some e)
      → wait_turn Error cond b (record { clock = c; ctx_err = o; waiter = w }) ≡ interrupted e
      → o ≡ some e
  unfolding wait_turn select
  blames cond b c o looking e h k = absurd (ground (arith, k))
  blames cond b c o satisfied e h k = absurd (cc)
  blames cond b c none (waiting old) e h k = absurd (ground (arith, k))
  blames cond b c (some f) (waiting old) e h k = ground (arith, k)
  blames cond b c o (interrupted f) e h k = h k

  turn-IsBlamed :
      (cond : Condition) (t : Turn Error) (s : Scene Error)
      → IsBlamed s
      → IsBlamed (turn Error cond t s)
  unfolding turn
  turn-IsBlamed cond (others op) s h e k = h e k
  turn-IsBlamed cond (cancelled f) s h e k = rw (h e k) refl
  turn-IsBlamed cond (goes_on b) s h e k = blames cond b s.clock s.ctx_err s.waiter e (h e) k

  turns-IsBlamed :
      (cond : Condition) (ts : List (Turn Error)) (s : Scene Error)
      → IsBlamed s
      → IsBlamed (turns Error cond ts s)
  unfolding turns
  turns-IsBlamed cond [] s h = h
  turns-IsBlamed cond (t ∷ ts) s h =
      turns-IsBlamed cond ts (turn Error cond t s) (turn-IsBlamed cond t s h)

  -- A wait that has just begun.
  abbrev pub begun : Clock → Scene Error
  begun c = record { clock = c; ctx_err = none; waiter = looking }

  abbrev pub IsOver : Scene Error → Type 0
  IsOver s =
      (s.waiter ≡ satisfied) ⊎ ((e : Error) × (s.waiter ≡ interrupted e) × (s.ctx_err ≡ some e))

  two_turns :
      (cond : Condition) (a b : Bool) (c : Clock) (o : Option Error) (w : Waiter Error)
      → ((seen : ℕ) → w ≡ waiting seen → IsHeard cond seen c)
      → ((e : Error) → w ≡ interrupted e → o ≡ some e)
      → is_satisfied cond c ≡ true
      → IsOver (
          turns Error cond
            (goes_on a ∷ goes_on b ∷ [])
            (record { clock = c; ctx_err = o; waiter = w }))
  unfolding turns turn wait_turn select
  two_turns cond a b c o looking heard blamed now = rw (now) (inl refl)
  two_turns cond a b c o satisfied heard blamed now = inl refl
  two_turns cond a b c none (waiting seen) heard blamed now = elim (heard seen refl) [
    | inl woken ↦ rw (woken, now) (inl refl)
    | inr (_, later) ↦ absurd (ground (arith, later, now))
  ]
  two_turns cond true b c (some e) (waiting seen) heard blamed now =
      elim (Bool-cases (is_woken cond seen c)) [
        | inl woken ↦ rw (woken) (inr (e, refl, refl))
        | inr asleep ↦ rw (asleep) (inr (e, refl, refl))
      ]
  two_turns cond false b c (some e) (waiting seen) heard blamed now = elim (heard seen refl) [
    | inl woken ↦ rw (woken, now) (inl refl)
    | inr (_, later) ↦ absurd (ground (arith, later, now))
  ]
  two_turns cond a b c o (interrupted e) heard blamed now = inr (e, refl, blamed e refl)

  -- No notification is lost: whatever timers and tickers are made, stopped, notified and read beside a
  -- wait of the clock, in whatever order, and whenever its context ends, a wait whose condition holds in
  -- the end is over after two more turns of its own, with success or with the error of its context.
  pub waits_IsOver :
      (cond : Condition) (ts : List (Turn Error)) (c : Clock) (a b : Bool)
      → is_satisfied cond (turns Error cond ts (begun c)).clock ≡ true
      → IsOver (turns Error cond (goes_on a ∷ goes_on b ∷ []) (turns Error cond ts (begun c)))
  waits_IsOver cond ts c a b now =
      let s = turns Error cond ts (begun c) in
      two_turns cond a b s.clock s.ctx_err s.waiter
        (turns-HearsIt cond ts (begun c) (λ seen k. absurd (cc)))
        (turns-IsBlamed cond ts (begun c) (λ e k. absurd (cc))) now
