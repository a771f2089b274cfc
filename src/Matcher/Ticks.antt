-- ===== src/Matcher/Ticks.antt =====
-- Every tick of internal/usecase/matcher/matcher.go ends in one of the ways of Ends.
use overload_party_matchmaki.Prelude.{
  ℕ, Text, false, ◌==◌, ◌≡◌, refl, ap, List, [], ◌∷◌, length, Option, none, some, Result, ok, err,
  Bool-cases, inl, inr, arith,
}
use overload_party_matchmaki.Domain.{QueueEntry, collect_player_ids, match_player_count}
use overload_party_matchmaki.Circuit.{
  CircuitBreaker, TickPermit, allow_tick, record_pop_failure, record_pop_success,
  record_publish_failure, record_publish_success,
}
use overload_party_matchmaki.Port.{Ports}
use overload_party_matchmaki.Port.Traced.{
  popped, published, read_clock, drew_match_id, Trace, traced,
}
use overload_party_matchmaki.Presenter.{to_match_made_wire}
use overload_party_matchmaki.Matcher.{
  LogEntry, skipping_tick, pop_pair_failed, unexpected_pair_size, build_failed, publish_failed,
  match_made, emit, call, update_circuit, matched, player_at, reenqueue_with_retry, after_publish,
  after_build, handle_popped, after_pop, ask_circuit, on_permit, tick,
}
use overload_party_matchmaki.Matcher.Attempts.{TracedState, trace}
use overload_party_matchmaki.Matcher.Retry.{reenqueue_with_retry-Settled}
use overload_party_matchmaki.Matcher.Bounds.{reenqueue_with_retry-Spent}
use overload_party_matchmaki.Matcher.Ends.{
  GivenBack, TickEnd, refused, pop_failed, nobody, wrong_size, delivered, not_built, not_published,
}

module _ (ports : Ports) where
  open ports use {Error}

  given_back :
      (match_id : Text) (pair : List QueueEntry) (instance_id : Text) (w : TracedState ports)
      → GivenBack ports match_id pair instance_id w
          (reenqueue_with_retry (traced ports) match_id pair instance_id w).0
  given_back match_id pair instance_id w = record {
    settled = reenqueue_with_retry-Settled ports match_id pair instance_id w;
    spent = reenqueue_with_retry-Spent ports match_id pair instance_id w;
  }

  -- The state in which a failed build or publish calls reenqueueWithRetry.
  abbrev giving_back : LogEntry Error → TracedState ports → TracedState ports
  giving_back entry u =
      let c = call (traced ports) (traced ports).now (emit (traced ports) entry u).0 in
      (update_circuit (traced ports) (λ b. record_publish_failure b c.1) c.0).0

  abbrev failed_at : LogEntry Error → TracedState ports → ℕ
  failed_at entry u = (call (traced ports) (traced ports).now (emit (traced ports) entry u).0).1

  -- The tick from the answer of a pop on, for the state `s` before the tick.
  module _ (s : TracedState ports) (now : ℕ) where
    abbrev allowed : CircuitBreaker
    allowed = (allow_tick s.circuit now).0

    module _ (a b : QueueEntry) (instance_id match_id : Text) where
      abbrev drawn : Trace Error
      drawn =
          drew_match_id match_id
          ∷ popped (ok (a ∷ b ∷ [], instance_id))
          ∷ read_clock now
          ∷ trace ports s

      after_publish-TickEnd :
          (event_type payload : Text) (answer : Option Error) (u : TracedState ports)
          → to_match_made_wire ports.marshal (matched match_id (a ∷ b ∷ []))
            ≡ ok (event_type, payload)
          → trace ports u ≡ published event_type payload answer ∷ drawn
          → u.log ≡ s.log
          → u.circuit ≡ record_pop_success allowed
          → TickEnd ports s
              (after_publish (traced ports) match_id (a ∷ b ∷ []) instance_id answer u).0
      unfolding after_publish player_at
      after_publish-TickEnd event_type payload none u built h l c =
          delivered a b instance_id match_id event_type payload now built h
            (ap (◌∷◌ (match_made match_id a.player_id b.player_id)) l) (ap record_publish_success c)
      after_publish-TickEnd event_type payload (some e) u built h l c =
          let w = giving_back (publish_failed e) u in
          let later = failed_at (publish_failed e) u in
          not_published e a b instance_id match_id event_type payload now later w built
            (ap (◌∷◌ (read_clock later)) h) (ap (◌∷◌ (publish_failed e)) l)
            (ap (λ x. record_publish_failure x later) c)
            (given_back match_id (a ∷ b ∷ []) instance_id w)

      after_build-TickEnd :
          (built : Result Error (Text × Text)) (u : TracedState ports)
          → to_match_made_wire ports.marshal (matched match_id (a ∷ b ∷ [])) ≡ built
          → trace ports u ≡ drawn
          → u.log ≡ s.log
          → u.circuit ≡ record_pop_success allowed
          → TickEnd ports s (after_build (traced ports) match_id (a ∷ b ∷ []) instance_id built u).0
      unfolding after_build
      after_build-TickEnd (err e) u built h l c =
          let w = giving_back (build_failed e) u in
          let later = failed_at (build_failed e) u in
          not_built e a b instance_id match_id now later w (ap (◌∷◌ (read_clock later)) h)
            (ap (◌∷◌ (build_failed e)) l) (ap (λ x. record_publish_failure x later) c)
            (given_back match_id (a ∷ b ∷ []) instance_id w)
      after_build-TickEnd (ok (event_type, payload)) u built h l c =
          let r = call (traced ports) ((traced ports).publish event_type payload) u in
          after_publish-TickEnd event_type payload r.1 r.0 built
            (ap (◌∷◌ (published event_type payload r.1)) h) l c

    abbrev size_line : List QueueEntry → LogEntry Error
    size_line pair = unexpected_pair_size (length pair) (collect_player_ids pair)

    handle_popped-TickEnd :
        (pair : List QueueEntry) (instance_id : Text) (u : TracedState ports)
        → trace ports u ≡ popped (ok (pair, instance_id)) ∷ read_clock now ∷ trace ports s
        → u.log ≡ s.log
        → u.circuit ≡ record_pop_success allowed
        → TickEnd ports s (handle_popped (traced ports) pair instance_id u).0
    unfolding handle_popped
    handle_popped-TickEnd [] instance_id u h l c = nobody instance_id now h l c
    handle_popped-TickEnd (a ∷ []) instance_id u h l c =
        wrong_size (a ∷ []) instance_id now (omega arith) (omega arith) h
          (ap (◌∷◌ (size_line (a ∷ []))) l) c
    handle_popped-TickEnd (a ∷ b ∷ []) instance_id u h l c =
        let r = call (traced ports) (traced ports).new_match_id u in
        after_build-TickEnd a b instance_id r.1 _ r.0 refl (ap (◌∷◌ (drew_match_id r.1)) h) l c
    handle_popped-TickEnd (a ∷ b ∷ d ∷ es) instance_id u h l c =
        let larger : (length (a ∷ b ∷ d ∷ es) == match_player_count) ≡ false = ground arith in
        let some_left : (length (a ∷ b ∷ d ∷ es) == 0) ≡ false = ground arith in
        rw (some_left, larger)
          (wrong_size (a ∷ b ∷ d ∷ es) instance_id now (omega arith) (omega arith) h
            (ap (◌∷◌ (size_line (a ∷ b ∷ d ∷ es))) l) c)

    after_pop-TickEnd :
        (answer : Result Error (List QueueEntry × Text)) (u : TracedState ports)
        → trace ports u ≡ popped answer ∷ read_clock now ∷ trace ports s
        → u.log ≡ s.log
        → u.circuit ≡ allowed
        → TickEnd ports s (after_pop (traced ports) answer u).0
    unfolding after_pop
    after_pop-TickEnd (err e) u h l c =
        let later = failed_at (pop_pair_failed e) u in
        pop_failed e now later (ap (◌∷◌ (read_clock later)) h) (ap (◌∷◌ (pop_pair_failed e)) l)
          (ap (λ x. record_pop_failure x later) c)
    after_pop-TickEnd (ok (pair, instance_id)) u h l c =
        handle_popped-TickEnd pair instance_id
          (update_circuit (traced ports) record_pop_success u).0 h l (ap record_pop_success c)

    on_permit-TickEnd :
        (permit : TickPermit) (u : TracedState ports)
        → (allow_tick s.circuit now).1 ≡ permit
        → trace ports u ≡ read_clock now ∷ trace ports s
        → u.log ≡ s.log
        → u.circuit ≡ allowed
        → TickEnd ports s (on_permit (traced ports) permit u).0
    unfolding on_permit
    on_permit-TickEnd permit u e h l c = elim (Bool-cases permit.is_allowed) [
      | inl yes' ↦ rw yes' (
          let r = call (traced ports) (traced ports).pop_pair u in
          after_pop-TickEnd r.1 r.0 (ap (◌∷◌ (popped r.1)) h) l c)
      | inr no' ↦ elim (Bool-cases permit.should_log_skip) [
        | inl log ↦
            rw (no', log) (refused now (rw e no') h (rw (e, log) (ap (◌∷◌ skipping_tick) l)) c)
        | inr quiet ↦ rw (no', quiet) (refused now (rw e no') h (rw (e, quiet) l) c)
      ]
    ]

  -- Every tick, whatever the ports answer, ends in one of seven ways. The breaker refuses it, and
  -- nothing but the clock is called. Or exactly one pair is asked for, and: the pop fails; nobody
  -- waits; the answer has the wrong size; the match is published once and nothing is written back;
  -- or the event cannot be built or its publish fails, and then the pair is given back: written
  -- back, or dropped or lost with a log line that names it, within six calls and 1500 ms of waits.
  pub tick-TickEnd : (s : TracedState ports) → TickEnd ports s (tick (traced ports) s).0
  unfolding tick
  tick-TickEnd s =
      let c = call (traced ports) (traced ports).now s in
      let p = ask_circuit (traced ports) c.1 c.0 in
      on_permit-TickEnd s c.1 p.1 p.0 refl refl refl refl
