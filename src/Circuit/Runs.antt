-- ===== src/Circuit/Runs.antt =====
-- The breaker against its abstract description: the failures since the last success, of each kind.
use overload_party_matchmaki.Prelude.{
  ℕ, ◌+◌, ℤ, pos, leb_ℤ, ◌<ℤ◌, ◌||◌, ◌≡◌, refl, List, [], ◌∷◌, arith,
}
use overload_party_matchmaki.Circuit.{CircuitBreaker, new_circuit_breaker, is_circuit_open}
use overload_party_matchmaki.Circuit.Trip.{
  CircuitCall, allows, pop_succeeds, pop_fails, publish_succeeds, publish_fails, call, calls,
  IsConsistent, calls-IsConsistent, new-IsConsistent,
}

-- The length of the run of failed pops that a history ends with, where `n` came before it.
abbrev pub pop_run : ℕ → List CircuitCall → ℕ
pop_run n [] = n
pop_run n (pop_succeeds ∷ xs) = pop_run 0 xs
pop_run n (pop_fails now ∷ xs) = pop_run (n + 1) xs
pop_run n (allows now ∷ xs) = pop_run n xs
pop_run n (publish_succeeds ∷ xs) = pop_run n xs
pop_run n (publish_fails now ∷ xs) = pop_run n xs

-- The same of failed publishes.
abbrev pub publish_run : ℕ → List CircuitCall → ℕ
publish_run n [] = n
publish_run n (publish_succeeds ∷ xs) = publish_run 0 xs
publish_run n (publish_fails now ∷ xs) = publish_run (n + 1) xs
publish_run n (allows now ∷ xs) = publish_run n xs
publish_run n (pop_succeeds ∷ xs) = publish_run n xs
publish_run n (pop_fails now ∷ xs) = publish_run n xs

record Counted (c d : CircuitBreaker) (pops publishes : ℕ) : Type 0 where
  pops_counted : d.pop_failure_count ≡ pops
  publishes_counted : d.publish_failure_count ≡ publishes
  same_threshold : d.threshold ≡ c.threshold

calls-Counted :
    (c : CircuitBreaker) (xs : List CircuitCall)
    → Counted c
        (calls c xs)
        (pop_run c.pop_failure_count xs)
        (publish_run c.publish_failure_count xs)
unfolding calls call
calls-Counted c [] = record { pops_counted = refl; publishes_counted = refl; same_threshold = refl }
calls-Counted c (allows now ∷ xs) = ground (arith, calls-Counted (call c (allows now)) xs)
calls-Counted c (pop_succeeds ∷ xs) = ground (arith, calls-Counted (call c pop_succeeds) xs)
calls-Counted c (pop_fails now ∷ xs) = ground (arith, calls-Counted (call c (pop_fails now)) xs)
calls-Counted c (publish_succeeds ∷ xs) = ground (arith, calls-Counted (call c publish_succeeds) xs)
calls-Counted c (publish_fails now ∷ xs) =
    ground (arith, calls-Counted (call c (publish_fails now)) xs)

open_of_counts :
    (c d : CircuitBreaker) (pops publishes : ℕ)
    → Counted c d pops publishes
    → IsConsistent d
    → is_circuit_open d ≡ (leb_ℤ c.threshold (pos pops) || leb_ℤ c.threshold (pos publishes))
unfolding is_circuit_open
open_of_counts c d pops publishes k v = ground arith

-- After any history of calls on a new breaker with a positive threshold, the breaker is open exactly
-- when the history ends in at least `threshold` failed pops with no successful pop since, or in at
-- least `threshold` failed publishes with no successful publish since.
pub is_circuit_open-calls :
    (threshold cooldown : ℤ) (xs : List CircuitCall)
    → pos 0 <ℤ threshold
    → is_circuit_open (calls (new_circuit_breaker threshold cooldown) xs)
      ≡ (leb_ℤ threshold (pos (pop_run 0 xs)) || leb_ℤ threshold (pos (publish_run 0 xs)))
unfolding new_circuit_breaker
is_circuit_open-calls threshold cooldown xs h =
    let c = new_circuit_breaker threshold cooldown in
    open_of_counts c (calls c xs) _ _ (calls-Counted c xs)
      (calls-IsConsistent c xs (new-IsConsistent threshold cooldown h))
