-- ===== src/System/Match.antt =====
-- The whole service: two requests to enqueue of internal/adapter/httphandler, the Redis queue between,
-- and the tick of internal/usecase/matcher that publishes the pair.
use overload_party_matchmaki.Prelude.{
  ℕ, Text, codes, text_eq, true, false, ◌≡◌, refl, sym, subst, ◌∙◌, ap, [], ◌∷◌, Option, none, some,
  ok, arith,
}
use overload_party_matchmaki.Domain.{QueueEntry}
use overload_party_matchmaki.Port.{WireEvent}
use overload_party_matchmaki.Presenter.{to_wire, to_match_made_wire, event_type_match_made}
use overload_party_matchmaki.Circuit.{allow_tick}
use overload_party_matchmaki.Redis.{Redis}
use overload_party_matchmaki.Http.Messages.{EnqueueRequest}
use overload_party_matchmaki.Http.Handler.{handle_enqueue, after_enqueue}
use overload_party_matchmaki.RedisQueue.Queue.{answered, enqueue, pop_pair}
use overload_party_matchmaki.RedisQueue.Effects.{waiting}
use overload_party_matchmaki.RedisQueue.Restore.{pop_pair_front}
use overload_party_matchmaki.RedisQueue.Room.{Room, comes_before, enqueues, admit}
use overload_party_matchmaki.RedisQueue.Refinement.Calls.{ask_redis, Represents, enqueue-Agrees}
use overload_party_matchmaki.Matcher.{
  State, matched, after_publish, after_build, make_match, handle_popped, after_pop, on_permit, tick,
}
use overload_party_matchmaki.System.{Outside, service}
use overload_party_matchmaki.System.Admit.{
  entry_of, IsGood, alone, second, admitted, answered_number, removed_ok, has_gateway,
}

module _ (redis : Redis) (out : Outside) where
  open redis use {Db}
  open out use {Rest}

  abbrev pub arrival : EnqueueRequest → Text → Rest → QueueEntry
  arrival req player_id u = entry_of req player_id (out.unix_milli u)

  enqueued :
      (req : EnqueueRequest) (player_id : Text) (db : Db) (u : Rest) (r : Room)
      → IsGood req player_id (out.unix_milli u)
      → Represents redis db r
      → Represents redis
          (enqueue redis
            (answered 0)
            (out.unix_milli u)
            player_id
            req.deck_id
            req.name
            req.level
            req.gateway_instance_id
            db).0
          (admit (arrival req player_id u) req.gateway_instance_id r).0
        × ((n : ℕ) × ((enqueue redis
                (answered 0)
                (out.unix_milli u)
                player_id
                req.deck_id
                req.name
                req.level
                req.gateway_instance_id
                db).1
              ≡ ok n))
  unfolding ask_redis
  enqueued req player_id db u r g h =
      let q = arrival req player_id u in
      let agrees = enqueue-Agrees redis q req.gateway_instance_id db r g.plain h in
      let taken = admitted q req.gateway_instance_id r (has_gateway req g.checked) g.named in
      let (n, number) = answered_number q req.gateway_instance_id r in
      (
        subst
            (λ x. Represents redis (ask_redis redis (enqueues q req.gateway_instance_id) db).0 x.0)
            taken agrees.0,
        (n, removed_ok redis _ n (agrees.1 ∙ ap (λ x. x.1) taken ∙ number)),
      )

  accepted_status :
      (id : Text) (n : ℕ) → (after_enqueue (service redis out) id (ok n)).response.status ≡ 202
  unfolding after_enqueue
  accepted_status id n = ground arith

  -- A request that is accepted, with what it leaves.
  handled :
      (req : EnqueueRequest) (player_id : Text) (db : Db) (u : Rest) (r : Room)
      → IsGood req player_id (out.unix_milli u)
      → Represents redis db r
      → Represents redis
          (handle_enqueue (service redis out) (some req) player_id (db, u)).0.0
          (admit (arrival req player_id u) req.gateway_instance_id r).0
        × ((handle_enqueue (service redis out) (some req) player_id (db, u)).1.response.status
            ≡ 202)
  unfolding handle_enqueue after_enqueue
  handled req player_id db u r g h =
      let (left, (n, answer)) = enqueued req player_id db u r g h in
      (
        rw (g.checked, handle_enqueue) left,
        rw (g.checked, answer, handle_enqueue) (accepted_status req.gateway_instance_id n),
      )

  -- What a tick on a queue with these two entries first publishes.
  tick_publishes :
      (s : State (service redis out)) (a b : QueueEntry) (id payload : Text)
      → (allow_tick s.circuit (out.now s.world.1).1).1.is_allowed ≡ true
      → (pop_pair redis (answered 0) s.world.0).1 ≡ ok (a ∷ b ∷ [], id)
      → out.marshal (to_wire (matched (out.new_match_id (out.now s.world.1).0).1 (a ∷ b ∷ [])))
        ≡ ok payload
      → (out.publish event_type_match_made payload (out.new_match_id (out.now s.world.1).0).0).1
        ≡ none
      → (tick (service redis out) s).0.world ≡ (
        (pop_pair redis (answered 0) s.world.0).0,
        (out.publish event_type_match_made payload (out.new_match_id (out.now s.world.1).0).0).0,
      )
  unfolding tick on_permit after_pop handle_popped make_match after_build after_publish
      to_match_made_wire
  tick_publishes s a b id payload allowed answer built sent =
      rw (allowed, answer, tick, on_permit, after_pop, handle_popped)
        (rw (built, make_match, to_match_made_wire) (rw (sent, after_build, after_publish) refl))

  -- The match id that the tick draws.
  abbrev pub drawn_id : State (service redis out) → Text
  drawn_id s = (out.new_match_id (out.now s.world.1).0).1

  -- The world outside when the tick publishes.
  abbrev pub before_publish : State (service redis out) → Rest
  before_publish s = (out.new_match_id (out.now s.world.1).0).0

  -- What the presenter should write of the match of two requests, field by field.
  abbrev pub wired : Text → EnqueueRequest → Text → EnqueueRequest → Text → WireEvent
  wired match_id a p b q = record {
    event_type = codes "match_made";
    match_id = match_id;
    players =
        record { player_id = p; deck_id = a.deck_id; name = a.name; level = a.level }
        ∷ record { player_id = q; deck_id = b.deck_id; name = b.name; level = b.level }
        ∷ [];
  }

  wired-to_wire :
      (match_id : Text) (a : EnqueueRequest) (p : Text) (b : EnqueueRequest) (q : Text) (u v : Rest)
      → wired match_id a p b q ≡ to_wire (matched match_id (arrival a p u ∷ arrival b q v ∷ []))
  unfolding to_wire matched
  wired-to_wire match_id a p b q u v = refl

  -- Two players who ask for a match get one. Two requests that the service accepts, of different players
  -- and of one gateway, the second player coming no earlier in the queue, reach an empty queue on
  -- Redis; then a tick that the breaker allows runs, with the queue as the requests left it and
  -- anything else outside changed in between. If the event can be built and its publish succeeds, both
  -- requests are answered 202, the tick publishes exactly once, under the type match_made, what the
  -- library writes of the id that the tick draws and of the two players in the order of the queue,
  -- each with the deck, the name and the level of its request; and the queue is empty again.
  pub two_enqueued-matched :
      (a b : EnqueueRequest) (p q : Text) (db : Db) (i : Option Text) (u v : Rest)
      (s : State (service redis out)) (payload : Text)
      → Represents redis db (record { instance_id = i; entries = [] })
      → IsGood a p (out.unix_milli u)
      → IsGood b q (out.unix_milli v)
      → b.gateway_instance_id ≡ a.gateway_instance_id
      → text_eq p q ≡ false
      → comes_before (arrival b q v) (arrival a p u) ≡ false
      → s.world.0
        ≡ (handle_enqueue
            (service redis out)
            (some b)
            q
            ((handle_enqueue (service redis out) (some a) p (db, u)).0.0, v)).0.0
      → (allow_tick s.circuit (out.now s.world.1).1).1.is_allowed ≡ true
      → out.marshal (wired (drawn_id s) a p b q) ≡ ok payload
      → (out.publish (codes "match_made") payload (before_publish s)).1 ≡ none
      → ((handle_enqueue (service redis out) (some a) p (db, u)).1.response.status ≡ 202)
        × ((handle_enqueue
              (service redis out)
              (some b)
              q
              ((handle_enqueue (service redis out) (some a) p (db, u)).0.0, v)).1.response.status
            ≡ 202)
        × ((tick (service redis out) s).0.world.1
            ≡ (out.publish (codes "match_made") payload (before_publish s)).0)
        × (waiting redis (tick (service redis out) s).0.world.0 ≡ [])
  two_enqueued-matched a b p q db i u v s payload h ga gb same_gateway differ later left allowed
        built sent =
      let first = handled a p db u _ ga h in
      let one =
        subst (Represents redis (handle_enqueue (service redis out) (some a) p (db, u)).0.0)
          (alone (arrival a p u) a.gateway_instance_id i) first.0 in
      let next =
        handled b q (handle_enqueue (service redis out) (some a) p (db, u)).0.0 v _ gb one in
      let two =
        subst
          (Represents redis
            (handle_enqueue (service redis out) (some b) q
              ((handle_enqueue (service redis out) (some a) p (db, u)).0.0, v)).0.0)
          (ap
              (λ id.
                (admit (arrival b q v) id (record {
                  instance_id = some a.gateway_instance_id;
                  entries = arrival a p u ∷ [];
                })).0)
              same_gateway
            ∙ second (arrival a p u) (arrival b q v) a.gateway_instance_id differ later)
          next.0 in
      let room : Room = record {
        instance_id = some a.gateway_instance_id;
        entries = arrival a p u ∷ arrival b q v ∷ [];
      } in
      let here = subst (λ d. Represents redis d room) (sym left) two in
      let (answer, rest, _) =
        pop_pair_front redis s.world.0 (arrival a p u) (arrival b q v) [] here.storable.0
          here.storable.1.0 here.stored in
      let published =
        tick_publishes s (arrival a p u) (arrival b q v) _ payload allowed answer
          (ap out.marshal (sym (wired-to_wire (drawn_id s) a p b q u v)) ∙ built) sent in
      (first.1, next.1, ap (λ w. w.1) published, ap (λ w. waiting redis w.0) published ∙ rest)
