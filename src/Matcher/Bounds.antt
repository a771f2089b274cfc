-- ===== src/Matcher/Bounds.antt =====
-- How often reenqueueWithRetry calls the queue, how long it waits, and what it leaves alone.
use overload_party_matchmaki.Prelude.{
  ℕ, zero, suc, ◌+◌, ◌*◌, ◌≤◌, Text, ◌≡◌, List, Result-cases, inl, inr, arith,
}
use overload_party_matchmaki.Domain.{QueueEntry}
use overload_party_matchmaki.Port.{Ports, request}
use overload_party_matchmaki.Port.Traced.{traced}
use overload_party_matchmaki.Matcher.{
  attempt_failed, emit, M, attempt_round, call, best_effort_reenqueue, reenqueue_attempts,
  reenqueue_with_retry,
}
use overload_party_matchmaki.Matcher.Attempts.{write_backs, waits, TracedState, trace}

-- The sum of the waits of a loop with so many waits, the first of them `backoff`.
backoffs : ℕ → ℕ → ℕ
backoffs zero backoff = 0
backoffs (suc left) backoff = backoff + backoffs left (backoff * 2)

module _ (ports : Ports) (match_id : Text) (pair : List QueueEntry) (instance_id : Text) where
  -- The calls between two states: at least one and at most `most` write-backs, and waits of at most
  -- `millis` in all. The breaker is the same.
  pub record Spent (most millis : ℕ) (s t : TracedState ports) : Type 0 where
    pub some_try : suc (write_backs (trace ports s)) ≤ write_backs (trace ports t)
    pub few_tries : write_backs (trace ports t) ≤ write_backs (trace ports s) + most
    pub short_waits : waits (trace ports t) ≤ waits (trace ports s) + millis
    pub same_circuit : t.circuit ≡ s.circuit

  best_effort-Spent :
      (s : TracedState ports)
      → Spent 1 0 s (best_effort_reenqueue (traced ports) match_id pair instance_id s).0
  unfolding best_effort_reenqueue
  best_effort-Spent s = ground arith

  -- A round that may go on with `next`, of which the same is known.
  round-Spent :
      (attempt backoff most millis : ℕ) (next : M (traced ports) (Unit {0})) (s : TracedState ports)
      → ((w : TracedState ports) → Spent (suc most) millis w (next w).0)
      → Spent
          (suc (suc most))
          (backoff + millis)
          s
          (attempt_round (traced ports) attempt backoff next match_id pair instance_id s).0
  unfolding attempt_round
  round-Spent attempt backoff most millis next s h =
      elim (Result-cases (ports.reenqueue request pair instance_id s.world.0).1) [
        | inr (b, answered) ↦ ground arith
        | inl (e, refused) ↦
            let r = call (traced ports) ((traced ports).reenqueue request pair instance_id) s in
            let l = (emit (traced ports) (attempt_failed attempt e) r.0).0 in
            let c = call (traced ports) (traced ports).ctx_err l in
            let w = call (traced ports) ((traced ports).wait backoff) c.0 in ground (arith, h w.0)
      ]

  attempts-Spent :
      (left attempt backoff : ℕ) (s : TracedState ports)
      → attempt + left ≡ 5
      → Spent
          (left + 2)
          (backoffs left backoff)
          s
          (reenqueue_attempts
            (traced ports)
            (suc left)
            attempt
            backoff
            match_id
            pair
            instance_id
            s).0
  unfolding reenqueue_attempts backoffs
  attempts-Spent zero attempt backoff s h = ground arith
  attempts-Spent (suc left) attempt backoff s h =
      let more : suc left + 2 ≡ suc (suc (suc left)) = omega arith in
      let less : left + 2 ≡ suc (suc left) = omega arith in
      rw more (
        round-Spent attempt backoff (suc left) (backoffs left (backoff * 2)) _ s
          (λ w. rw (← less) (attempts-Spent left (attempt + 1) (backoff * 2) w (omega arith))))

  -- reenqueueWithRetry calls the queue at least once and at most six times (five attempts, and the
  -- final one of a shutdown), waits at most 1500 ms in all between them, and leaves the breaker alone.
  pub reenqueue_with_retry-Spent :
      (s : TracedState ports)
      → Spent 6 1500 s (reenqueue_with_retry (traced ports) match_id pair instance_id s).0
  unfolding reenqueue_with_retry backoffs
  reenqueue_with_retry-Spent s = attempts-Spent 4 1 100 s (omega arith)
