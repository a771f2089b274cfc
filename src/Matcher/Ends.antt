-- ===== src/Matcher/Ends.antt =====
-- The ways in which a tick of internal/usecase/matcher/matcher.go may end.
use overload_party_matchmaki.Prelude.{
  ℕ, Text, false, ◌≡◌, ◌≢◌, List, [], ◌∷◌, length, none, some, ok, err, if◌then◌else◌,
}
use overload_party_matchmaki.Domain.{QueueEntry, collect_player_ids}
use overload_party_matchmaki.Circuit.{
  allow_tick, record_pop_failure, record_pop_success, record_publish_failure,
  record_publish_success,
}
use overload_party_matchmaki.Port.{Ports}
use overload_party_matchmaki.Port.Traced.{popped, published, read_clock, drew_match_id}
use overload_party_matchmaki.Presenter.{to_match_made_wire}
use overload_party_matchmaki.Matcher.{
  skipping_tick, pop_pair_failed, unexpected_pair_size, build_failed, publish_failed, match_made,
  matched,
}
use overload_party_matchmaki.Matcher.Attempts.{TracedState, trace, Settled}
use overload_party_matchmaki.Matcher.Bounds.{Spent}

module _ (ports : Ports) where
  open ports use {Error}

  -- The state when reenqueueWithRetry starts, against the state before the tick `s`, and its end.
  pub record GivenBack (match_id : Text) (pair : List QueueEntry) (instance_id : Text)
      (w t : TracedState ports) : Type 0 where
    pub settled : Settled ports match_id pair instance_id w t
    pub spent : Spent ports match_id pair instance_id 6 1500 w t

  -- How a tick went from the state `s` to the state `t`.
  pub data TickEnd (s t : TracedState ports) : Type 0 where
    -- The breaker refused: only the clock was read.
    refused :
        (now : ℕ)
        → (allow_tick s.circuit now).1.is_allowed ≡ false
        → trace ports t ≡ read_clock now ∷ trace ports s
        → t.log
          ≡ (if (allow_tick s.circuit now).1.should_log_skip then skipping_tick ∷ s.log else s.log)
        → t.circuit ≡ (allow_tick s.circuit now).0
        → TickEnd s t
    -- The pop failed, which the log and the breaker record.
    pop_failed :
        (e : Error) (now later : ℕ)
        → trace ports t ≡ read_clock later ∷ popped (err e) ∷ read_clock now ∷ trace ports s
        → t.log ≡ pop_pair_failed e ∷ s.log
        → t.circuit ≡ record_pop_failure (allow_tick s.circuit now).0 later
        → TickEnd s t
    -- No pair was waiting.
    nobody :
        (instance_id : Text) (now : ℕ)
        → trace ports t ≡ popped (ok ([], instance_id)) ∷ read_clock now ∷ trace ports s
        → t.log ≡ s.log
        → t.circuit ≡ record_pop_success (allow_tick s.circuit now).0
        → TickEnd s t
    -- The queue answered one entry, or more than two, which the log records.
    wrong_size :
        (pair : List QueueEntry) (instance_id : Text) (now : ℕ)
        → length pair ≢ 0
        → length pair ≢ 2
        → trace ports t ≡ popped (ok (pair, instance_id)) ∷ read_clock now ∷ trace ports s
        → t.log ≡ unexpected_pair_size (length pair) (collect_player_ids pair) ∷ s.log
        → t.circuit ≡ record_pop_success (allow_tick s.circuit now).0
        → TickEnd s t
    -- The event of the match was published, once, and nothing was written back.
    delivered :
        (a b : QueueEntry) (instance_id match_id event_type payload : Text) (now : ℕ)
        → to_match_made_wire ports.marshal (matched match_id (a ∷ b ∷ []))
          ≡ ok (event_type, payload)
        → trace ports t
          ≡ published event_type payload none
            ∷ drew_match_id match_id
            ∷ popped (ok (a ∷ b ∷ [], instance_id))
            ∷ read_clock now
            ∷ trace ports s
        → t.log ≡ match_made match_id a.player_id b.player_id ∷ s.log
        → t.circuit ≡ record_publish_success (record_pop_success (allow_tick s.circuit now).0)
        → TickEnd s t
    -- The event could not be built: nothing was published, and the pair was given back.
    not_built :
        (e : Error) (a b : QueueEntry) (instance_id match_id : Text) (now later : ℕ)
        (w : TracedState ports)
        → trace ports w
          ≡ read_clock later
            ∷ drew_match_id match_id
            ∷ popped (ok (a ∷ b ∷ [], instance_id))
            ∷ read_clock now
            ∷ trace ports s
        → w.log ≡ build_failed e ∷ s.log
        → w.circuit ≡ record_publish_failure (record_pop_success (allow_tick s.circuit now).0) later
        → GivenBack match_id (a ∷ b ∷ []) instance_id w t
        → TickEnd s t
    -- The publish failed, and the pair was given back.
    not_published :
        (e : Error) (a b : QueueEntry) (instance_id match_id event_type payload : Text)
        (now later : ℕ) (w : TracedState ports)
        → to_match_made_wire ports.marshal (matched match_id (a ∷ b ∷ []))
          ≡ ok (event_type, payload)
        → trace ports w
          ≡ read_clock later
            ∷ published event_type payload (some e)
            ∷ drew_match_id match_id
            ∷ popped (ok (a ∷ b ∷ [], instance_id))
            ∷ read_clock now
            ∷ trace ports s
        → w.log ≡ publish_failed e ∷ s.log
        → w.circuit ≡ record_publish_failure (record_pop_success (allow_tick s.circuit now).0) later
        → GivenBack match_id (a ∷ b ∷ []) instance_id w t
        → TickEnd s t
