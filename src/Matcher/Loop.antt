-- ===== src/Matcher/Loop.antt =====
-- internal/usecase/matcher/matcher.go, `Run`: the loop, the goroutine of a tick and the drain, as a
-- relation between the states of the loop. A step is one operation of one goroutine; the order of the
-- steps is open, as the scheduler and the random choice of a `select` leave it. What a tick does
-- stands in the module above; here it is working, then it sends on `tickDone`, then it leaves the wait group.
use overload_party_matchmaki.Prelude.{
  ℕ, zero, suc, ◌+◌, ◌≤◌, Bool, true, false, ◌≡◌, ◌≢◌, refl, ◌⊎◌, inl, inr, arith, if◌then◌else◌,
}

-- Where the function stands: in the `for`, waiting for the drain, or returned.
pub data Phase : Type 0 where
  looping draining drained forced : Phase

pub record Loop : Type 0 where
  pub phase : Phase
  pub tick_running : Bool
  -- the notifications in the ticker's channel and in `tickDone`, which both hold one at most
  pub notified : Bool
  pub tick_done : ℕ
  -- the goroutines that are in `m.tick`, and those behind it that are still in the wait group
  pub working : ℕ
  pub leaving : ℕ
  pub is_cancelled : Bool

abbrev pub started_loop : Loop
started_loop = record {
  phase = looping;
  tick_running = false;
  notified = false;
  tick_done = 0;
  working = 0;
  leaving = 0;
  is_cancelled = false;
}

pub data Step : Loop → Loop → Type 0 where
  -- the ticker and the shutdown, from outside
  notifies : (s : Loop) → Step s (record s { notified = true })
  cancels : (s : Loop) → Step s (record s { is_cancelled = true })
  -- `case <-tickerC`, whose channel is nil while a tick is running
  starts :
      (s : Loop)
      → s.phase ≡ looping
      → s.tick_running ≡ false
      → s.notified ≡ true
      → Step s (record s { tick_running = true; notified = false; working = s.working + 1 })
  -- the tick returns and its goroutine sends on `tickDone`, which must have room
  sends :
      (s : Loop) (n : ℕ)
      → s.working ≡ suc n
      → s.tick_done ≡ 0
      → Step s (record s { working = n; tick_done = 1; leaving = s.leaving + 1 })
  -- the deferred `wg.Done()`
  leaves : (s : Loop) (n : ℕ) → s.leaving ≡ suc n → Step s (record s { leaving = n })
  -- `case <-tickDone`
  observes :
      (s : Loop) (n : ℕ)
      → s.phase ≡ looping
      → s.tick_done ≡ suc n
      → Step s (record s { tick_done = n; tick_running = false })
  -- `case <-ctx.Done()`
  drains :
      (s : Loop)
      → s.phase ≡ looping
      → s.is_cancelled ≡ true
      → Step s (record s { phase = draining })
  -- `case <-done`, after `wg.Wait()`
  completes :
      (s : Loop)
      → s.phase ≡ draining
      → s.working + s.leaving ≡ 0
      → Step s (record s { phase = drained })
  -- `case <-m.clock.After(m.drainTimeout)`
  gives_up : (s : Loop) → s.phase ≡ draining → Step s (record s { phase = forced })

pub data Steps : Loop → Loop → Type 0 where
  stays : (s : Loop) → Steps s s
  then_step : {s t u : Loop} → Step s t → Steps t u → Steps s u

-- The variable `tickRunning` tells whether a tick is working or has not been observed yet, and a drain
-- that completed left no goroutine.
pub record IsSequential (s : Loop) : Type 0 where
  pub one_tick : s.working + s.tick_done ≡ (if s.tick_running then 1 else 0)
  pub drained_idle : s.phase ≡ drained → s.working + s.leaving ≡ 0

step-IsSequential : {s t : Loop} → Step s t → IsSequential s → IsSequential t
step-IsSequential (notifies s) h = record { one_tick = h.one_tick; drained_idle = h.drained_idle }
step-IsSequential (cancels s) h = record { one_tick = h.one_tick; drained_idle = h.drained_idle }
step-IsSequential (starts s p r k) h = record {
  one_tick = ground (arith, h.one_tick);
  drained_idle = λ d. absurd (cc);
}
step-IsSequential (sends s n w d) h = record {
  one_tick = ground (arith, h.one_tick);
  drained_idle = λ e. ground (arith, h.drained_idle e);
}
step-IsSequential (leaves s n w) h = record {
  one_tick = h.one_tick;
  drained_idle = λ e. ground (arith, h.drained_idle e);
}
step-IsSequential (observes s n p d) h = record {
  one_tick = ground (arith, h.one_tick);
  drained_idle = λ e. absurd (cc);
}
step-IsSequential (drains s p c) h = record {
  one_tick = h.one_tick;
  drained_idle = λ e. absurd (cc);
}
step-IsSequential (completes s p w) h = record { one_tick = h.one_tick; drained_idle = λ e. w }
step-IsSequential (gives_up s p) h = record {
  one_tick = h.one_tick;
  drained_idle = λ e. absurd (cc);
}

Steps-IsSequential : {s t : Loop} → Steps s t → IsSequential s → IsSequential t
Steps-IsSequential (stays s) h = h
Steps-IsSequential (then_step e es) h = Steps-IsSequential es (step-IsSequential e h)

started-IsSequential : IsSequential started_loop
started-IsSequential = record { one_tick = refl; drained_idle = λ e. refl }

-- Whatever the order of the steps, the ticks in progress and the sends on `tickDone` that wait to be
-- observed are together at most one: Run never has two ticks in progress, and a tick that is in
-- progress finds room in the channel, so that it never blocks there.
pub loop_runs_one_tick : (s : Loop) → Steps started_loop s → s.working + s.tick_done ≤ 1
loop_runs_one_tick s es = ground (arith, (Steps-IsSequential es started-IsSequential).one_tick)

-- When Run returns after a completed drain, no tick is in progress and no goroutine of a tick is left.
pub drained_leaves_none :
    (s : Loop) → Steps started_loop s → s.phase ≡ drained → (s.working ≡ 0) × (s.leaving ≡ 0)
drained_leaves_none s es d =
    ground (arith, (Steps-IsSequential es started-IsSequential).drained_idle d)

step_quiet :
    {s t : Loop} → Step s t → s.phase ≢ looping → (t.phase ≢ looping) × (t.working ≤ s.working)
step_quiet (notifies s) h = (h, ground arith)
step_quiet (cancels s) h = (h, ground arith)
step_quiet (starts s p r k) h = absurd (h p)
step_quiet (sends s n w d) h = (h, ground arith)
step_quiet (leaves s n w) h = (h, ground arith)
step_quiet (observes s n p d) h = absurd (h p)
step_quiet (drains s p c) h = absurd (h p)
step_quiet (completes s p w) h = (λ e. cc, ground arith)
step_quiet (gives_up s p) h = (λ e. cc, ground arith)

-- From the start of the drain on, whatever steps follow, Run does not come back to its loop, and there
-- are never more ticks in progress than before.
pub drain_starts_nothing :
    (s t : Loop) → Steps s t → s.phase ≢ looping → (t.phase ≢ looping) × (t.working ≤ s.working)
drain_starts_nothing s _ (stays _) h = (h, ground arith)
drain_starts_nothing s t (then_step e es) h =
    let (quiet, fewer) = step_quiet e h in
    let (later, fewest) = drain_starts_nothing _ t es quiet in (later, ground arith)

-- The goroutines behind their tick leave, and the drain completes.
leave_all :
    (n : ℕ) (s : Loop)
    → s.leaving ≡ n
    → s.working ≡ 0
    → s.phase ≡ draining
    → (t : Loop) × Steps s t × (t.phase ≡ drained)
leave_all zero s l w p =
    (record s { phase = drained }, then_step (completes s p (ground arith)) (stays _), refl)
leave_all (suc n) s l w p =
    let (t, es, done) = leave_all n (record s { leaving = n }) refl w p in
    (t, then_step (leaves s n l) es, done)

working-cases : (n : ℕ) → n ≤ 1 → (n ≡ 0) ⊎ (n ≡ 1)
working-cases n h = ground arith

-- A drain is never stuck: from each state that Run can reach while it waits for the drain, there are
-- steps that lead to a completed drain.
pub drain_completes :
    (s : Loop)
    → Steps started_loop s
    → s.phase ≡ draining
    → (t : Loop) × Steps s t × (t.phase ≡ drained)
drain_completes s es p =
    let one = loop_runs_one_tick s es in
    elim (working-cases s.working (ground arith)) [
      | inl idle ↦ leave_all s.leaving s refl idle p
      | inr busy ↦
          let (t, fs, done) =
            leave_all (s.leaving + 1)
              (record s { working = 0; tick_done = 1; leaving = s.leaving + 1 }) refl refl p in
          (t, then_step (sends s 0 busy (ground arith)) fs, done)
    ]
