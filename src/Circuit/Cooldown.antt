-- ===== src/Circuit/Cooldown.antt =====
-- The ticks that an open breaker refuses, and the skips that it asks to log.
use overload_party_matchmaki.Prelude.{
  ℕ, ◌+◌, ℤ, sub_ℕ, ◌≤ℤ◌, ◌<ℤ◌, true, false, ◌≡◌, refl, List, [], ◌∷◌, arith, All, ◌↔◌, pos,
  if◌then◌else◌,
}
use overload_party_matchmaki.Circuit.{CircuitBreaker, TickPermit, allow_tick, record_pop_failure}

-- A breaker refuses a tick exactly when it is open and less than the cooldown has passed since it
-- was last opened.
pub allow_tick-refuses :
    (c : CircuitBreaker) (now : ℕ)
    → ((allow_tick c now).1.is_allowed ≡ false)
      ↔ ((c.is_open ≡ true) × (sub_ℕ now c.opened_at <ℤ c.cooldown))
unfolding allow_tick
allow_tick-refuses c now = (λ h. ground arith, λ h. ground arith)

-- The permits of ticks at a list of times.
abbrev pub permits : CircuitBreaker → List ℕ → List TickPermit
permits c [] = []
permits c (now ∷ times) = (allow_tick c now).1 ∷ permits (allow_tick c now).0 times

-- Nothing is allowed.
abbrev pub IsRefused : TickPermit → Type 0
IsRefused p = p.is_allowed ≡ false

-- How many skips a list of permits asks the caller to log.
abbrev pub logged : List TickPermit → ℕ
logged [] = 0
logged (p ∷ ps) = (if p.should_log_skip then 1 else 0) + logged ps

module _ (opened : ℕ) (cooldown : ℤ) where
  -- The time lies within the cooldown.
  abbrev pub IsCooling : ℕ → Type 0
  IsCooling now = sub_ℕ now opened <ℤ cooldown

permits_silent :
    (c : CircuitBreaker) (times : List ℕ)
    → c.is_open ≡ true
    → c.has_logged_skip ≡ true
    → All (IsCooling c.opened_at c.cooldown) times
    → All IsRefused (permits c times) × (logged (permits c times) ≡ 0)
unfolding allow_tick
permits_silent c [] o s h = (tt, refl)
permits_silent c (now ∷ times) o s h = ground (arith, permits_silent (allow_tick c now).0 times)

-- After a failed pop that reaches the threshold, the ticks that come within the cooldown counted from
-- that failure, of which there is at least one, are all refused, and exactly one of them is to be
-- logged as a skip.
pub permits_after_failure :
    (c : CircuitBreaker) (failed_at now : ℕ) (times : List ℕ)
    → c.threshold ≤ℤ pos (c.pop_failure_count + 1)
    → All (IsCooling failed_at c.cooldown) (now ∷ times)
    → let ps = permits (record_pop_failure c failed_at) (now ∷ times) in
      All IsRefused ps × (logged ps ≡ 1)
unfolding record_pop_failure allow_tick
permits_after_failure c failed_at now times h k =
    ground (arith, permits_silent (allow_tick (record_pop_failure c failed_at) now).0 times)
