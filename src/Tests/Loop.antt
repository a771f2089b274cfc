-- ===== src/Tests/Loop.antt =====
-- The results on the loop of the matcher, at its first tick and a shutdown.
use overload_party_matchmaki.Prelude.{◌+◌, ◌≤◌, true, false, ◌≡◌, ◌≢◌, refl}
use overload_party_matchmaki.Matcher.Loop.{
  looping, draining, drained, Loop, started_loop, Steps, notifies, cancels, starts, sends, leaves,
  drains, completes, stays, then_step, loop_runs_one_tick, drain_completes,
}

-- Run after its first tick has started and a shutdown has been seen.
abbrev ticking : Loop
ticking = record {
  phase = draining;
  tick_running = true;
  notified = false;
  tick_done = 0;
  working = 1;
  leaving = 0;
  is_cancelled = true;
}

to_ticking : Steps started_loop ticking
to_ticking = then_step (notifies _) (
    then_step (starts _ refl refl refl)
      (then_step (cancels _) (then_step (drains _ refl refl) (stays _))))

-- And after the drain.
abbrev at_rest : Loop
at_rest = record ticking { phase = drained; tick_done = 1; working = 0 }

to_rest : Steps ticking at_rest
to_rest =
    then_step (sends _ 0 refl refl)
      (then_step (leaves _ 0 refl) (then_step (completes _ refl refl) (stays _)))

from_start : Steps started_loop at_rest
from_start = then_step (notifies _) (
    then_step (starts _ refl refl refl)
      (then_step (cancels _) (then_step (drains _ refl refl) to_rest)))

loop_runs_one_tick_example : ticking.working + ticking.tick_done ≤ 1
loop_runs_one_tick_example = loop_runs_one_tick ticking to_ticking

not_looping : ticking.phase ≢ looping
not_looping = λ e. cc

drain_completes_example : (t : Loop) × Steps ticking t × (t.phase ≡ drained)
drain_completes_example = drain_completes ticking to_ticking refl
