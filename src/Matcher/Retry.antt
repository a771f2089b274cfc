-- ===== src/Matcher/Retry.antt =====
-- How reenqueueWithRetry ends, for any behaviour of the ports.
use overload_party_matchmaki.Prelude.{
  ℕ, zero, suc, ◌+◌, ◌*◌, Text, Bool, true, false, ◌==◌, ◌≡◌, refl, subst, List, ◌∷◌, Result, ok,
  err, arith, if◌then◌else◌,
}
use overload_party_matchmaki.Domain.{QueueEntry, collect_player_ids}
use overload_party_matchmaki.Port.{Ports, request, background, Wake, ctx_done, elapsed}
use overload_party_matchmaki.Port.Traced.{reenqueued, waited, asked_ctx, Trace, traced}
use overload_party_matchmaki.Matcher.{
  lost_after_attempts, attempt_failed, after_best_effort, after_attempt, unless_cancelled, on_wake,
  M, emit, call, final_attempt, best_effort_reenqueue, reenqueue_attempts, reenqueue_with_retry,
  reenqueue_max_attempts,
}
use overload_party_matchmaki.Matcher.Attempts.{
  TracedState, trace, Tried, untried, tried_again, IsShutDown, seen, woken, Settled, returned,
  dropped, lost, lost_in_shutdown,
}

module _ (ports : Ports) where
  open ports use {World, Error}

  module _ (match_id : Text) (pair : List QueueEntry) (instance_id : Text)
      (start : TracedState ports) where
    after_best_effort-Settled :
        (answer : Result Error Bool) (before : Trace Error) (s : TracedState ports)
        → IsShutDown ports before
        → trace ports s ≡ reenqueued background pair instance_id answer ∷ before
        → Settled ports match_id pair instance_id start
            (after_best_effort (traced ports) match_id pair answer s).0
    unfolding after_best_effort
    after_best_effort-Settled (err e) before s down h = lost_in_shutdown e before s.log down h refl
    after_best_effort-Settled (ok false) before s down h = dropped background before s.log h refl
    after_best_effort-Settled (ok true) before s down h = returned background before h

    best_effort-Settled :
        (s : TracedState ports)
        → IsShutDown ports (trace ports s)
        → Settled ports match_id pair instance_id start
            (best_effort_reenqueue (traced ports) match_id pair instance_id s).0
    unfolding best_effort_reenqueue
    best_effort-Settled s down =
        let s' = (emit (traced ports) (final_attempt match_id (collect_player_ids pair)) s).0 in
        let r = call (traced ports) ((traced ports).reenqueue background pair instance_id) s' in
        after_best_effort-Settled r.1 (trace ports s') r.0 down refl

    after_attempt-Settled :
        (again : Error → M (traced ports) (Unit {0})) (answer : Result Error Bool)
        (before : Trace Error) (s : TracedState ports)
        → trace ports s ≡ reenqueued request pair instance_id answer ∷ before
        → ((e : Error)
            → answer ≡ err e
            → Settled ports match_id pair instance_id start (again e s).0)
        → Settled ports match_id pair instance_id start
            (after_attempt (traced ports) match_id pair again answer s).0
    unfolding after_attempt
    after_attempt-Settled again (ok true) before s h k = returned request before h
    after_attempt-Settled again (ok false) before s h k = dropped request before s.log h refl
    after_attempt-Settled again (err e) before s h k = k e refl

    unless_cancelled-Settled :
        (go_on : M (traced ports) (Unit {0})) (cancelled : Bool) (s : TracedState ports)
        → (cancelled ≡ true → IsShutDown ports (trace ports s))
        → (cancelled ≡ false → Settled ports match_id pair instance_id start (go_on s).0)
        → Settled ports match_id pair instance_id start
            (unless_cancelled
              (traced ports)
              (best_effort_reenqueue (traced ports) match_id pair instance_id)
              go_on
              cancelled
              s).0
    unfolding unless_cancelled
    unless_cancelled-Settled go_on true s down k = best_effort-Settled s (down refl)
    unless_cancelled-Settled go_on false s down k = k refl

    on_wake-Settled :
        (next : M (traced ports) (Unit {0})) (wake : Wake) (s : TracedState ports)
        → (wake ≡ ctx_done → IsShutDown ports (trace ports s))
        → (wake ≡ elapsed → Settled ports match_id pair instance_id start (next s).0)
        → Settled ports match_id pair instance_id start
            (on_wake
              (traced ports)
              (best_effort_reenqueue (traced ports) match_id pair instance_id)
              next
              wake
              s).0
    unfolding on_wake
    on_wake-Settled next ctx_done s down k = best_effort-Settled s (down refl)
    on_wake-Settled next elapsed s down k = k refl

    last_round-Settled :
        (attempt : ℕ) (other : M (traced ports) (Unit {0})) (e : Error) (before : Trace Error)
        (s : TracedState ports)
        → attempt ≡ reenqueue_max_attempts
        → Tried ports pair instance_id (trace ports start) 4 before
        → trace ports s ≡ asked_ctx false ∷ reenqueued request pair instance_id (err e) ∷ before
        → Settled ports match_id pair instance_id start
            ((if attempt == reenqueue_max_attempts
                then emit (traced ports) (lost_after_attempts match_id (collect_player_ids pair))
                else other)
              s).0
    last_round-Settled attempt other e before s at_last tried h =
        rw at_last (lost e before s.log tried h refl)

    not_last :
        (attempt left : ℕ)
        → attempt + suc left ≡ reenqueue_max_attempts
        → (attempt == reenqueue_max_attempts) ≡ false
    not_last attempt left h = ground arith

    seen_by : (b : Bool) (before : Trace Error) → b ≡ true → IsShutDown ports (asked_ctx b ∷ before)
    seen_by b before h = rw (h) (seen before)

    woken_by :
        (d : ℕ) (wake : Wake) (before : Trace Error)
        → wake ≡ ctx_done
        → IsShutDown ports (waited d wake ∷ before)
    woken_by d wake before h = rw (h) (woken d before)

    -- What a round that failed adds.
    one_more :
        (n backoff : ℕ) (before : Trace Error) (e : Error) (answer : Result Error Bool)
        (is_cancelled : Bool) (wake : Wake)
        → Tried ports pair instance_id (trace ports start) n before
        → answer ≡ err e
        → is_cancelled ≡ false
        → wake ≡ elapsed
        → Tried ports pair instance_id (trace ports start) (suc n) (
            waited backoff wake
            ∷ asked_ctx is_cancelled
            ∷ reenqueued request pair instance_id answer
            ∷ before)
    one_more n backoff before e answer is_cancelled wake tried failed alive ended =
        rw (failed, alive, ended) (tried_again e backoff tried)

    -- Each round ends the loop or goes on with one round less, and the last one cannot go on.
    attempts-Settled :
        (left n attempt backoff : ℕ) (s : TracedState ports)
        → attempt + left ≡ reenqueue_max_attempts
        → n + 1 ≡ attempt
        → Tried ports pair instance_id (trace ports start) n (trace ports s)
        → Settled ports match_id pair instance_id start
            (reenqueue_attempts
              (traced ports)
              (suc left)
              attempt
              backoff
              match_id
              pair
              instance_id
              s).0
    unfolding reenqueue_attempts
    attempts-Settled zero n attempt backoff s h k tried =
        let r = call (traced ports) ((traced ports).reenqueue request pair instance_id) s in
        after_attempt-Settled _ r.1 (trace ports s) r.0 refl λ e failed.
          let s1 = (emit (traced ports) (attempt_failed attempt e) r.0).0 in
          let c = call (traced ports) (traced ports).ctx_err s1 in
          unless_cancelled-Settled _ c.1 c.0 (seen_by c.1 (trace ports s1)) λ alive.
            let four : n ≡ 4 = omega arith in
            last_round-Settled attempt _ e (trace ports s) c.0 (omega arith)
              (subst (λ m. Tried ports pair instance_id (trace ports start) m (trace ports s)) four
                tried)
              (rw (alive, failed) refl)
    attempts-Settled (suc left) n attempt backoff s h k tried =
        let r = call (traced ports) ((traced ports).reenqueue request pair instance_id) s in
        after_attempt-Settled _ r.1 (trace ports s) r.0 refl λ e failed.
          let s1 = (emit (traced ports) (attempt_failed attempt e) r.0).0 in
          let c = call (traced ports) (traced ports).ctx_err s1 in
          unless_cancelled-Settled _ c.1 c.0 (seen_by c.1 (trace ports s1)) λ alive.
            let w = call (traced ports) ((traced ports).wait backoff) c.0 in
            rw (not_last attempt left h) (
              on_wake-Settled _ w.1 w.0 (woken_by backoff w.1 (trace ports c.0)) λ ended.
                attempts-Settled left (suc n) (attempt + 1) (backoff * 2) w.0 (omega arith)
                  (omega arith)
                  (one_more n backoff (trace ports s) e r.1 c.1 w.1 tried failed alive ended))

    -- Whatever the queue, the clock and a shutdown do, reenqueueWithRetry ends in one of four ways: the
    -- last call wrote the pair back; the queue refused it and the log says that it is dropped; five
    -- attempts in a row failed, with the context alive behind each and a wait between two of them,
    -- and the log says that it is lost; or a shutdown was seen, the final attempt right behind it
    -- failed, and the log says that it is lost. The log line names the match and the players.
    pub reenqueue_with_retry-Settled :
        Settled ports match_id pair instance_id start
          (reenqueue_with_retry (traced ports) match_id pair instance_id start).0
    unfolding reenqueue_with_retry
    reenqueue_with_retry-Settled =
        attempts-Settled 4 0 1 100 start (omega arith) (omega arith) untried
