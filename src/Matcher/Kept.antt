-- ===== src/Matcher/Kept.antt =====
-- A tick of internal/usecase/matcher/matcher.go keeps what the ports keep.
use overload_party_matchmaki.Prelude.{
  ℕ, zero, suc, ◌+◌, ◌*◌, ◌==◌, Text, true, false, Bool, Bool-cases, List, All, length, Option,
  none, some, Result, ok, err, ◌≡◌, refl, if◌then◌else◌, inl, inr,
}
use overload_party_matchmaki.Domain.{QueueEntry, match_player_count, collect_player_ids}
use overload_party_matchmaki.Port.{Ports, Wake, ctx_done, elapsed, request, background}
use overload_party_matchmaki.Port.Kept.{Kept}
use overload_party_matchmaki.Circuit.{TickPermit}
use overload_party_matchmaki.Matcher.{
  State, M, LogEntry, attempt_failed, lost_after_attempts, emit, call, log_dropped_pair,
  after_best_effort, best_effort_reenqueue, after_attempt, unless_cancelled, on_wake, attempt_round,
  reenqueue_attempts, reenqueue_with_retry, give_back, after_publish, after_build, make_match,
  handle_popped, after_pop, on_permit, tick, reenqueue_max_attempts,
}

module _ (ports : Ports) (P : ports.World → Type 0) (Good : QueueEntry → Type 0)
    (kept : Kept ports P Good) where
  open ports use {Error}

  abbrev Keeps : M ports (Unit {0}) → Type 0
  Keeps m = (s : State ports) → P s.world → P (m s).0.world

  module _ (match_id : Text) (pair : List QueueEntry) (id : Text) (good : All Good pair) where
    answered-Keeps : (r : Result Error Bool) → Keeps (after_best_effort ports match_id pair r)
    unfolding after_best_effort log_dropped_pair
    answered-Keeps (err e) s h = h
    answered-Keeps (ok true) s h = h
    answered-Keeps (ok false) s h = h

    best_effort-Keeps : Keeps (best_effort_reenqueue ports match_id pair id)
    unfolding best_effort_reenqueue
    best_effort-Keeps s h = answered-Keeps _ _ (kept.on_reenqueue background pair id s.world good h)

    after_attempt-Keeps :
        (again : Error → M ports (Unit {0})) (r : Result Error Bool)
        → ((e : Error) → Keeps (again e))
        → Keeps (after_attempt ports match_id pair again r)
    unfolding after_attempt log_dropped_pair
    after_attempt-Keeps again (ok true) k s h = h
    after_attempt-Keeps again (ok false) k s h = h
    after_attempt-Keeps again (err e) k s h = k e s h

    unless_cancelled-Keeps :
        (stop go_on : M ports (Unit {0})) (cancelled : Bool)
        → Keeps stop
        → Keeps go_on
        → Keeps (unless_cancelled ports stop go_on cancelled)
    unfolding unless_cancelled
    unless_cancelled-Keeps stop go_on true k l = k
    unless_cancelled-Keeps stop go_on false k l = l

    on_wake-Keeps :
        (stop go_on : M ports (Unit {0})) (wake : Wake)
        → Keeps stop
        → Keeps go_on
        → Keeps (on_wake ports stop go_on wake)
    unfolding on_wake
    on_wake-Keeps stop go_on ctx_done k l = k
    on_wake-Keeps stop go_on elapsed k l = l

    abbrev stop : M ports (Unit {0})
    stop = best_effort_reenqueue ports match_id pair id

    -- What an attempt does behind its error: the last one logs, another one waits.
    abbrev last_or_wait : ℕ → ℕ → M ports (Unit {0}) → M ports (Unit {0})
    last_or_wait attempt backoff next =
        if attempt == reenqueue_max_attempts
        then emit ports (lost_after_attempts match_id (collect_player_ids pair))
        else λ s. (let c = call ports (ports.wait backoff) s in on_wake ports stop next c.1 c.0)

    last_or_wait-Keeps :
        (attempt backoff : ℕ) (next : M ports (Unit {0}))
        → Keeps next
        → Keeps (last_or_wait attempt backoff next)
    last_or_wait-Keeps attempt backoff next k s h =
        elim (Bool-cases (attempt == reenqueue_max_attempts)) [
          | inl is_last ↦ rw (is_last) h
          | inr more ↦
              let c = call ports (ports.wait backoff) s in
              rw (more) (
                on_wake-Keeps stop next c.1 best_effort-Keeps k c.0
                  (kept.on_wait backoff s.world h))
        ]

    abbrev after_error : ℕ → ℕ → M ports (Unit {0}) → Error → M ports (Unit {0})
    after_error attempt backoff next e t =
        let c = call ports ports.ctx_err (emit ports (attempt_failed attempt e) t).0 in
        unless_cancelled ports stop (last_or_wait attempt backoff next) c.1 c.0

    attempt_round-Keeps :
        (attempt backoff : ℕ) (next : M ports (Unit {0}))
        → Keeps next
        → Keeps (attempt_round ports attempt backoff next match_id pair id)
    unfolding attempt_round
    attempt_round-Keeps attempt backoff next k s h =
        let r = call ports (ports.reenqueue request pair id) s in
        after_attempt-Keeps (after_error attempt backoff next) r.1
          (λ e t l.
            let c = call ports ports.ctx_err (emit ports (attempt_failed attempt e) t).0 in
            unless_cancelled-Keeps stop (last_or_wait attempt backoff next) c.1 best_effort-Keeps
              (last_or_wait-Keeps attempt backoff next k) c.0 (kept.on_ctx_err t.world l))
          r.0 (kept.on_reenqueue request pair id s.world good h)

    attempts-Keeps :
        (left attempt backoff : ℕ)
        → Keeps (reenqueue_attempts ports left attempt backoff match_id pair id)
    unfolding reenqueue_attempts
    attempts-Keeps zero attempt backoff s h = h
    attempts-Keeps (suc left) attempt backoff s h =
        attempt_round-Keeps attempt backoff _ (attempts-Keeps left (attempt + 1) (backoff * 2)) s h

    give_back-Keeps : (entry : LogEntry Error) → Keeps (give_back ports entry match_id pair id)
    unfolding give_back reenqueue_with_retry
    give_back-Keeps entry s h =
        attempts-Keeps reenqueue_max_attempts 1 100 _ (kept.on_now s.world h)

    after_publish-Keeps : (o : Option Error) → Keeps (after_publish ports match_id pair id o)
    unfolding after_publish
    after_publish-Keeps (some e) s h = give_back-Keeps _ s h
    after_publish-Keeps none s h = h

    after_build-Keeps :
        (wire : Result Error (Text × Text)) → Keeps (after_build ports match_id pair id wire)
    unfolding after_build
    after_build-Keeps (err e) s h = give_back-Keeps _ s h
    after_build-Keeps (ok wire) s h =
        after_publish-Keeps _ _ (kept.on_publish wire.0 wire.1 s.world h)

  handle_popped-Keeps :
      (pair : List QueueEntry) (id : Text) → All Good pair → Keeps (handle_popped ports pair id)
  unfolding handle_popped make_match
  handle_popped-Keeps pair id good s h = elim (Bool-cases (length pair == 0)) [
    | inl nobody ↦ rw (nobody) h
    | inr some_players ↦ elim (Bool-cases (length pair == match_player_count)) [
      | inl two ↦
          rw (some_players)
            (rw (two) (after_build-Keeps _ pair id good _ _ (kept.on_new_match_id s.world h)))
      | inr odd ↦ rw (some_players) (rw (odd) h)
    ]
  ]

  after_pop-Keeps :
      (r : Result Error (List QueueEntry × Text))
      → ((pair : List QueueEntry) (id : Text) → r ≡ ok (pair, id) → All Good pair)
      → Keeps (after_pop ports r)
  unfolding after_pop
  after_pop-Keeps (err e) good s h = kept.on_now s.world h
  after_pop-Keeps (ok (pair, id)) good s h = handle_popped-Keeps pair id (good pair id refl) _ h

  on_permit-Keeps : (permit : TickPermit) → Keeps (on_permit ports permit)
  unfolding on_permit
  on_permit-Keeps permit s h = elim (Bool-cases permit.is_allowed) [
    | inl allowed ↦ rw (allowed) (
        after_pop-Keeps _ (λ pair id e. kept.good_pair s.world pair id h e) _
          (kept.on_pop_pair s.world h))
    | inr refused ↦ elim (Bool-cases permit.should_log_skip) [
      | inl logs ↦ rw (refused) (rw (logs) h)
      | inr silent ↦ rw (refused) (rw (silent) h)
    ]
  ]

  -- Whatever the breaker and the ports answer, a tick keeps what every port keeps.
  pub tick-Kept : (s : State ports) → P s.world → P (tick ports s).0.world
  unfolding tick
  tick-Kept s h = on_permit-Keeps _ _ (kept.on_now s.world h)
