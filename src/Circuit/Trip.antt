-- ===== src/Circuit/Trip.antt =====
-- What runs of the breaker's methods do: when it is open, and how long it stops the ticks.
use overload_party_matchmaki.Prelude.{
  ℕ, ℤ, pos, ◌≤ℤ◌, ◌<ℤ◌, true, false, ◌≡◌, ◌⊎◌, List, [], ◌∷◌, arith,
}
use overload_party_matchmaki.Circuit.{
  CircuitBreaker, new_circuit_breaker, allow_tick, record_pop_success, record_pop_failure,
  record_publish_success, record_publish_failure,
}

-- One call of the breaker, with the time that the caller read.
pub data CircuitCall : Type 0 where
  allows : ℕ → CircuitCall
  pop_succeeds : CircuitCall
  pop_fails : ℕ → CircuitCall
  publish_succeeds : CircuitCall
  publish_fails : ℕ → CircuitCall

unfoldable pub call : CircuitBreaker → CircuitCall → CircuitBreaker
unfolding allow_tick record_pop_success record_pop_failure record_publish_success
    record_publish_failure
call c (allows now) = (allow_tick c now).0
call c pop_succeeds = record_pop_success c
call c (pop_fails now) = record_pop_failure c now
call c publish_succeeds = record_publish_success c
call c (publish_fails now) = record_publish_failure c now

unfoldable pub calls : CircuitBreaker → List CircuitCall → CircuitBreaker
calls c [] = c
calls c (x ∷ xs) = calls (call c x) xs

-- The breaker is open exactly while one of the two counts is at the threshold; a closed breaker
-- owes no log of a skip.
pub record IsConsistent (c : CircuitBreaker) : Type 0 where
  pub positive : pos 0 <ℤ c.threshold
  pub open_reached :
      c.is_open ≡ true
      → (c.threshold ≤ℤ pos c.pop_failure_count) ⊎ (c.threshold ≤ℤ pos c.publish_failure_count)
  pub closed_below :
      c.is_open ≡ false
      → (pos c.pop_failure_count <ℤ c.threshold) × (pos c.publish_failure_count <ℤ c.threshold)
  pub closed_silent : c.is_open ≡ false → c.has_logged_skip ≡ false
  pub silent_counts : c.has_logged_skip ≡ true → c.is_open ≡ true

pub new-IsConsistent :
    (threshold cooldown : ℤ)
    → pos 0 <ℤ threshold
    → IsConsistent (new_circuit_breaker threshold cooldown)
unfolding new_circuit_breaker
new-IsConsistent threshold cooldown h = ground arith

call-IsConsistent :
    (c : CircuitBreaker) (x : CircuitCall) → IsConsistent c → IsConsistent (call c x)
unfolding call
call-IsConsistent c (allows now) v = ground arith
call-IsConsistent c pop_succeeds v = ground arith
call-IsConsistent c (pop_fails now) v = ground arith
call-IsConsistent c publish_succeeds v = ground arith
call-IsConsistent c (publish_fails now) v = ground arith

pub calls-IsConsistent :
    (c : CircuitBreaker) (xs : List CircuitCall) → IsConsistent c → IsConsistent (calls c xs)
unfolding calls
calls-IsConsistent c [] v = v
calls-IsConsistent c (x ∷ xs) v = calls-IsConsistent (call c x) xs (call-IsConsistent c x v)
