-- ===== src/Circuit.antt =====
-- internal/usecase/matcher/circuit.go: the circuit breaker. Times are nanoseconds of the clock, and
-- `time.Duration` and `int` are integers. The mutex makes each method atomic, so a method is a
-- function from a breaker to the next one. What the methods log is left to the matcher's log.
pub mod Trip
pub mod Runs
pub mod Cooldown
use overload_party_matchmaki.Prelude.{
  ℕ, ◌+◌, ℤ, pos, sub_ℕ, leb_ℤ, Bool, true, false, ◌||◌, not, if◌then◌else◌,
}

pub record CircuitBreaker : Type 0 where
  pub threshold : ℤ
  pub cooldown : ℤ
  pub pop_failure_count : ℕ
  pub publish_failure_count : ℕ
  pub is_open : Bool
  pub opened_at : ℕ
  pub has_logged_skip : Bool

unfoldable pub new_circuit_breaker : ℤ → ℤ → CircuitBreaker
new_circuit_breaker threshold cooldown = record {
  threshold = threshold;
  cooldown = cooldown;
  pop_failure_count = 0;
  publish_failure_count = 0;
  is_open = false;
  opened_at = 0;
  has_logged_skip = false;
}

unfoldable pub is_circuit_open : CircuitBreaker → Bool
is_circuit_open c = c.is_open

pub record TickPermit : Type 0 where
  pub is_allowed : Bool
  pub should_log_skip : Bool

-- The result is the next breaker and the two results of the method.
unfoldable pub allow_tick : CircuitBreaker → ℕ → CircuitBreaker × TickPermit
allow_tick c now =
    if not c.is_open
    then (c, record { is_allowed = true; should_log_skip = false })
    else if leb_ℤ c.cooldown (sub_ℕ now c.opened_at)
    then (c, record { is_allowed = true; should_log_skip = false })
    else if not c.has_logged_skip
    then (
      record c { has_logged_skip = true },
      record { is_allowed = false; should_log_skip = true },
    )
    else (c, record { is_allowed = false; should_log_skip = false })

-- Also an open breaker is opened anew: its cooldown starts again.
unfoldable pub open_at : CircuitBreaker → ℕ → CircuitBreaker
open_at c now = record c { is_open = true; opened_at = now; has_logged_skip = false }

unfoldable pub close_if_recovered : CircuitBreaker → CircuitBreaker
close_if_recovered c =
    if not c.is_open
    then c
    else if leb_ℤ c.threshold (pos c.pop_failure_count)
        || leb_ℤ c.threshold (pos c.publish_failure_count)
    then c
    else record c { is_open = false; has_logged_skip = false }

unfoldable pub record_pop_success : CircuitBreaker → CircuitBreaker
unfolding close_if_recovered
record_pop_success c = close_if_recovered (record c { pop_failure_count = 0 })

unfoldable pub record_pop_failure : CircuitBreaker → ℕ → CircuitBreaker
unfolding open_at
record_pop_failure c now =
    let failed = record c { pop_failure_count = c.pop_failure_count + 1 } in
    if leb_ℤ failed.threshold (pos failed.pop_failure_count) then open_at failed now else failed

unfoldable pub record_publish_success : CircuitBreaker → CircuitBreaker
unfolding close_if_recovered
record_publish_success c = close_if_recovered (record c { publish_failure_count = 0 })

unfoldable pub record_publish_failure : CircuitBreaker → ℕ → CircuitBreaker
unfolding open_at
record_publish_failure c now =
    let failed = record c { publish_failure_count = c.publish_failure_count + 1 } in
    if leb_ℤ failed.threshold (pos failed.publish_failure_count) then open_at failed now else failed
