-- ===== src/MatcherTest/Run/Ends.antt =====
-- The loops of internal/usecase/matcher/matchertest/run.go end, and what they then know.
use overload_party_matchmaki.Prelude.{
  ℕ, zero, suc, ◌+◌, ◌*◌, ◌≤◌, ◌==◌, ltb, take, Bool, true, false, Bool-cases, List, [], ◌∷◌, All,
  ◌≡◌, refl, sym, ap, ◌⊎◌, inl, inr, arith,
}
use overload_party_matchmaki.MatcherTest.Run.{
  wait_limit, poll_interval, quiet_polls, shutdown_clock_advance, most_polls, Machine, loop, Watch,
  is_not_quiet, poll, quiet_round, wait_until_quiet, Running, is_unfinished, is_going_on,
  shutdown_round, clean_up,
}

-- A loop whose rounds take time ends at its deadline at the latest.
loop_ends {ℓ} :
    {S : Type ℓ} (goes_on : S → Bool) (round : S → S) (time : S → ℕ) (deadline n : ℕ) (s : S)
    → ((x : S) → goes_on x ≡ true → ltb (time x) deadline ≡ true)
    → ((x : S) → time x + poll_interval ≤ time (round x))
    → deadline ≤ time s + n * poll_interval
    → goes_on (loop goes_on round n s) ≡ false
unfolding loop
loop_ends goes_on round time deadline zero s in_time moves enough = elim (Bool-cases (goes_on s)) [
  | inl on ↦ absurd (ground (arith, in_time s on))
  | inr off ↦ off
]
loop_ends goes_on round time deadline (suc n) s in_time moves enough =
    elim (Bool-cases (goes_on s)) [
      | inl on ↦
          rw (on, loop)
            (loop_ends goes_on round time deadline n (round s) in_time moves
              (omega (arith, moves s)))
      | inr off ↦ rw (off, loop) off
    ]

-- What a loop keeps.
loop_keeps {ℓ κ} :
    {S : Type ℓ} (goes_on : S → Bool) (round : S → S) (P : S → Type κ) (n : ℕ) (s : S)
    → ((x : S) → P x → P (round x))
    → P s
    → P (loop goes_on round n s)
unfolding loop
loop_keeps goes_on round P zero s step h = h
loop_keeps goes_on round P (suc n) s step h = elim (Bool-cases (goes_on s)) [
  | inl on ↦ rw (on, loop) (loop_keeps goes_on round P n (round s) step (step s h))
  | inr off ↦ rw (off, loop) h
]

All_take {ℓ κ} :
    {A : Type ℓ} (P : A → Type κ) (m n : ℕ) (xs : List A)
    → m ≤ n
    → All P (take n xs)
    → All P (take m xs)
All_take P zero n xs le h = tt
All_take P (suc m) zero xs le h = absurd (omega (arith, le))
All_take P (suc m) (suc n) [] le h = tt
All_take P (suc m) (suc n) (x ∷ xs) le h = (h.0, All_take P m n xs (omega (arith, le)) h.1)

most_polls_enough : most_polls * poll_interval ≡ wait_limit
unfolding most_polls
most_polls_enough = refl

module _ (machine : Machine) where
  open machine use {World}

  -- The world after a number of polls, and what they gave, the latest one first.
  abbrev pub after_polls : (World → World × ℕ) → ℕ → World → World
  after_polls activity zero w = (activity w).0
  after_polls activity (suc n) w = (poll machine activity (after_polls activity n w)).0

  abbrev pub polled : (World → World × ℕ) → ℕ → World → List ℕ
  polled activity zero w = (activity w).1 ∷ []
  polled activity (suc n) w =
      (poll machine activity (after_polls activity n w)).1 ∷ polled activity n w

  -- The state of the loop after some polls: so many readings of the end are all the last one.
  record IsWatched (activity : World → World × ℕ) (w : World) (s : Watch machine) : Type 0 where
    polls : ℕ
    reached : s.world ≡ after_polls activity polls w
    enough : s.stable ≤ polls
    same : All (λ x. x ≡ s.last) (take (suc s.stable) (polled activity polls w))

  round-IsWatched :
      (activity : World → World × ℕ) (w : World) (s : Watch machine)
      → IsWatched activity w s
      → IsWatched activity w (quiet_round machine activity s)
  unfolding quiet_round
  round-IsWatched activity w s h =
      let reached = ap (λ x. (poll machine activity x).0) h.reached in
      let reading = ap (λ x. (poll machine activity x).1) h.reached in
      elim (Bool-cases ((poll machine activity s.world).1 == s.last)) [
        | inl still ↦ rw (still) (record {
          polls = suc h.polls;
          reached = reached;
          enough = omega (arith, h.enough);
          same = (ground (arith, reading, still), h.same);
        })
        | inr other ↦ rw (other) (record {
          polls = suc h.polls;
          reached = reached;
          enough = omega arith;
          same = (sym reading, tt);
        })
      ]

  quiet_round_moves :
      (activity : World → World × ℕ)
      → ((x : World) → machine.now x ≤ machine.now (activity x).0)
      → (s : Watch machine)
      → machine.now s.world + poll_interval ≤ machine.now (quiet_round machine activity s).world
  unfolding quiet_round
  quiet_round_moves activity onward s =
      let slept = machine.slept poll_interval s.world in
      let read = onward (machine.sleep poll_interval s.world) in
      elim (Bool-cases ((poll machine activity s.world).1 == s.last)) [
        | inl still ↦ rw (still) (omega (arith, slept, read))
        | inr other ↦ rw (other) (omega (arith, slept, read))
      ]

  shutdown_moves :
      (w : World) → machine.now w + poll_interval ≤ machine.now (shutdown_round machine w)
  shutdown_moves w = omega (
    arith,
    machine.advanced shutdown_clock_advance w,
    machine.slept poll_interval (machine.advance shutdown_clock_advance w),
  )

  -- WaitUntilQuiet ends, if `activity` does not set the wall clock back: after some polls it reports no
  -- error, and then the last nine readings of the activity are all the same, or it reports one, and
  -- then the time limit is over.
  pub wait_until_quiet-after_polls :
      (activity : World → World × ℕ) (w : World)
      → ((x : World) → machine.now x ≤ machine.now (activity x).0)
      → (polls : ℕ) × ((wait_until_quiet machine activity w).0 ≡ after_polls activity polls w)
        × ((((wait_until_quiet machine activity w).1 ≡ false)
              × (quiet_polls ≤ polls)
              × ((last : ℕ) × All
                    (λ x. x ≡ last)
                    (take (suc quiet_polls) (polled activity polls w))))
            ⊎ (((wait_until_quiet machine activity w).1 ≡ true)
                × (machine.now w + wait_limit
                    ≤ machine.now (wait_until_quiet machine activity w).0)))
  unfolding wait_until_quiet
  wait_until_quiet-after_polls activity w onward =
      let deadline = machine.now w + wait_limit in
      let start : Watch machine = record {
        world = (activity w).0;
        last = (activity w).1;
        stable = 0;
      } in
      let s =
        loop (is_not_quiet machine deadline) (quiet_round machine activity) most_polls start in
      let watched =
        loop_keeps (is_not_quiet machine deadline) (quiet_round machine activity)
          (IsWatched activity w) most_polls start (round-IsWatched activity w)
          (record { polls = 0; reached = refl; enough = omega arith; same = (refl, tt) }) in
      let over : is_not_quiet machine deadline s ≡ false =
        loop_ends (is_not_quiet machine deadline) (quiet_round machine activity)
          (λ x. machine.now x.world) deadline most_polls start (λ x on. ground (arith, on))
          (quiet_round_moves activity onward) (omega (arith, most_polls_enough, onward w)) in
      (
        watched.polls,
        watched.reached,
        elim (Bool-cases (ltb s.stable quiet_polls)) [
          | inl busy ↦ inr (busy, ground (arith, over, busy))
          | inr quiet ↦ inl (
            quiet,
            ground (arith, watched.enough, quiet),
            (
              s.last,
              All_take (λ x. x ≡ s.last) (suc quiet_polls) (suc s.stable)
                  (polled activity watched.polls w) (ground (arith, quiet)) watched.same,
            ),
          )
        ],
      )

  -- The cleanup of StartRun ends too: it reports no error exactly if the run has returned and what it
  -- left is idle, and it reports one only behind the time limit.
  pub clean_up-is_unfinished :
      (r : Running machine) (is_idle : World → Bool) (w : World)
      → ((clean_up machine r is_idle w).1
          ≡ is_unfinished machine r is_idle (clean_up machine r is_idle w).0)
        × (((clean_up machine r is_idle w).1 ≡ false)
            ⊎ (machine.now (r.cancel w) + wait_limit
                ≤ machine.now (clean_up machine r is_idle w).0))
  unfolding clean_up
  clean_up-is_unfinished r is_idle w =
      let deadline = machine.now (r.cancel w) + wait_limit in
      let s =
        loop (is_going_on machine r is_idle deadline) (shutdown_round machine) most_polls
          (r.cancel w) in
      let over : is_going_on machine r is_idle deadline s ≡ false =
        loop_ends (is_going_on machine r is_idle deadline) (shutdown_round machine) machine.now
          deadline most_polls (r.cancel w) (λ x on. ground (arith, on)) (λ x. shutdown_moves x)
          (omega (arith, most_polls_enough)) in
      (
        refl,
        elim (Bool-cases (is_unfinished machine r is_idle s)) [
          | inl busy ↦ inr (ground (arith, over, busy))
          | inr done ↦ inl done
        ],
      )
