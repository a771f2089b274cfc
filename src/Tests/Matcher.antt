-- ===== src/Tests/Matcher.antt =====
-- The results on the matcher and its breaker, at ports that fail at first.
use overload_party_matchmaki.Prelude.{
  pos, leb_ℤ, ◌||◌, Text, codes, Bool, List, [], ◌∷◌, All, Result, ◌≡◌, arith, length,
}
use overload_party_matchmaki.Circuit.{new_circuit_breaker, is_circuit_open, record_pop_failure}
use overload_party_matchmaki.Circuit.Trip.{allows, pop_fails, publish_fails, calls}
use overload_party_matchmaki.Circuit.Runs.{pop_run, publish_run, is_circuit_open-calls}
use overload_party_matchmaki.Circuit.Cooldown.{permits, IsRefused, logged, permits_after_failure}
use overload_party_matchmaki.Port.Traced.{traced}
use overload_party_matchmaki.Matcher.{reenqueue_with_retry, tick}
use overload_party_matchmaki.Matcher.Attempts.{TracedState, Settled}
use overload_party_matchmaki.Matcher.Retry.{reenqueue_with_retry-Settled}
use overload_party_matchmaki.Matcher.Bounds.{Spent, reenqueue_with_retry-Spent}
use overload_party_matchmaki.Matcher.Ends.{TickEnd}
use overload_party_matchmaki.Matcher.Ticks.{tick-TickEnd}
use overload_party_matchmaki.Abandon.{abandon, outcome, cancels, answers, abandon-answers}
use overload_party_matchmaki.Tests.World.{ann, bob, gateway, failing}

abbrev start : TracedState failing
start = record {
  world = (0, []);
  circuit = new_circuit_breaker (pos 3) (pos 30000000000);
  log = [];
}

tick-TickEnd_example : TickEnd failing start (tick (traced failing) start).0
tick-TickEnd_example = tick-TickEnd failing start

reenqueue_with_retry-Settled_example :
    Settled failing
      (codes "mch_1")
      (ann ∷ bob ∷ [])
      gateway
      start
      (reenqueue_with_retry (traced failing) (codes "mch_1") (ann ∷ bob ∷ []) gateway start).0
reenqueue_with_retry-Settled_example =
    reenqueue_with_retry-Settled failing (codes "mch_1") (ann ∷ bob ∷ []) gateway start

reenqueue_with_retry-Spent_example :
    Spent failing
      (codes "mch_1")
      (ann ∷ bob ∷ [])
      gateway
      6
      1500
      start
      (reenqueue_with_retry (traced failing) (codes "mch_1") (ann ∷ bob ∷ []) gateway start).0
reenqueue_with_retry-Spent_example =
    reenqueue_with_retry-Spent failing (codes "mch_1") (ann ∷ bob ∷ []) gateway start

is_circuit_open-calls_example :
    is_circuit_open (
      calls
        (new_circuit_breaker (pos 2) (pos 10))
        (publish_fails 1 ∷ pop_fails 2 ∷ allows 3 ∷ pop_fails 4 ∷ []))
    ≡ (leb_ℤ (pos 2) (pos (pop_run 0 (publish_fails 1 ∷ pop_fails 2 ∷ allows 3 ∷ pop_fails 4 ∷ [])))
        || leb_ℤ
            (pos 2)
            (pos (publish_run 0 (publish_fails 1 ∷ pop_fails 2 ∷ allows 3 ∷ pop_fails 4 ∷ []))))
is_circuit_open-calls_example =
    is_circuit_open-calls (pos 2) (pos 10)
      (publish_fails 1 ∷ pop_fails 2 ∷ allows 3 ∷ pop_fails 4 ∷ []) (omega arith)

permits_after_failure_example :
    let ps =
      permits (record_pop_failure (new_circuit_breaker (pos 1) (pos 10)) 100) (101 ∷ 105 ∷ []) in
    All IsRefused ps × (logged ps ≡ 1)
unfolding new_circuit_breaker
permits_after_failure_example =
    permits_after_failure (new_circuit_breaker (pos 1) (pos 10)) 100 101 (105 ∷ []) (omega arith)
      (omega arith, (omega arith, tt))

abandon-answers_example :
    (rs : List (Result Text Bool)) × (length rs ≡ 2)
    × ((abandon
          (traced failing)
          (codes "mch_1")
          (codes "ann" ∷ codes "bob" ∷ [])
          (codes "gone")
          (0, [])).0.1
        ≡ cancels (codes "ann" ∷ codes "bob" ∷ []) rs [])
    × ((abandon
          (traced failing)
          (codes "mch_1")
          (codes "ann" ∷ codes "bob" ∷ [])
          (codes "gone")
          (0, [])).1
        ≡ outcome
            (codes "mch_1")
            (codes "ann" ∷ codes "bob" ∷ [])
            (codes "gone")
            (answers (codes "mch_1") (codes "ann" ∷ codes "bob" ∷ []) rs))
abandon-answers_example =
    abandon-answers failing (codes "mch_1") (codes "ann" ∷ codes "bob" ∷ []) (codes "gone") (0, [])
