-- ===== src/Http/Access.antt =====
-- What a request can reach through the routes of internal/adapter/httphandler/router.go.
use overload_party_matchmaki.Prelude.{
  ℕ, Text, ◌≡◌, ◌≢◌, refl, sym, subst, ◌⊎◌, inl, inr, List, ◌∷◌, Option, some, none, Option-cases,
  Result, ok, err, Result-cases, arith,
}
use overload_party_matchmaki.Port.{Ports}
use overload_party_matchmaki.Port.Traced.{
  Call, enqueued, cancelled, sized, popped, reenqueued, published, read_clock, waited, asked_ctx,
  drew_match_id, Trace, traced,
}
use overload_party_matchmaki.Circuit.{CircuitBreaker}
use overload_party_matchmaki.Abandon.{CancelError, AbandonLog}
use overload_party_matchmaki.Http.Messages.{EnqueueRequest, MatchAbandonedRequest, Response}
use overload_party_matchmaki.Http.Handler.{
  Outcome, Handling, handle_enqueue, handle_cancel, handle_report, handle_queue_size, handle_health,
  check_enqueue, after_enqueue, after_cancel, after_abandon, after_size,
}
use overload_party_matchmaki.Http.Router.{
  Route, queue_size, health, match_abandoned, enqueue, cancel, route, Request, with_player,
  dispatch, serve, stop_with,
}

module _ (ports : Ports) where
  open ports use {World, Error}

  after_enqueue_accepts :
      (id : Text) (r : Result Error ℕ) → (after_enqueue ports id r).response.status ≢ 400
  unfolding after_enqueue
  after_enqueue_accepts id (err e) = omega arith
  after_enqueue_accepts id (ok n) = ground arith

  after_abandon_accepts :
      (r : Result (List (CancelError Error)) AbandonLog)
      → (after_abandon ports r).response.status ≢ 400
  unfolding after_abandon
  after_abandon_accepts (err e) = omega arith
  after_abandon_accepts (ok n) = omega arith

  enqueue_untouched :
      (body : Option EnqueueRequest) (player_id : Text) (w : World)
      → (handle_enqueue ports body player_id w).1.response.status ≡ 400
      → (handle_enqueue ports body player_id w).0 ≡ w
  unfolding handle_enqueue after_enqueue
  enqueue_untouched body player_id w h = ground arith

  report_untouched :
      (reported : Option MatchAbandonedRequest) (w : World)
      → (handle_report ports reported w).1.response.status ≡ 400
      → (handle_report ports reported w).0 ≡ w
  unfolding handle_report after_abandon
  report_untouched reported w h = ground arith

  cancel_untouched :
      (player_id : Text) (w : World)
      → (handle_cancel ports player_id w).1.response.status ≡ 400
      → (handle_cancel ports player_id w).0 ≡ w
  unfolding handle_cancel after_cancel
  cancel_untouched player_id w h = absurd (ground arith)

  size_untouched :
      (w : World)
      → (handle_queue_size ports w).1.response.status ≡ 400
      → (handle_queue_size ports w).0 ≡ w
  unfolding handle_queue_size after_size
  size_untouched w h = absurd (ground arith)

  module _ (verify : Text → Result Response Text) (not_found : Response) where
    with_player_refused :
        (handle : Text → Handling ports) (token : Text) (w : World) (response : Response)
        → verify token ≡ err response
        → with_player ports verify not_found handle token w
          ≡ (w, stop_with ports verify not_found response)
    unfolding with_player
    with_player_refused handle token w response e = rw (e, with_player) refl

    with_player_known :
        (handle : Text → Handling ports) (token : Text) (w : World) (player : Text)
        → verify token ≡ ok player
        → with_player ports verify not_found handle token w ≡ handle player w
    unfolding with_player
    with_player_known handle token w player e = rw (e, with_player) refl

    -- Both ends of the middleware.
    pub with_player-cases :
        (P : World × Outcome Error → Type 0) (handle : Text → Handling ports) (token : Text)
        (w : World)
        → ((response : Response)
            → verify token ≡ err response
            → P (w, stop_with ports verify not_found response))
        → ((player : Text) → verify token ≡ ok player → P (handle player w))
        → P (with_player ports verify not_found handle token w)
    with_player-cases P handle token w f g = elim (Result-cases (verify token)) [
      | inl (response, e) ↦
          subst P (sym (with_player_refused handle token w response e)) (f response e)
      | inr (player, e) ↦ subst P (sym (with_player_known handle token w player e)) (g player e)
    ]

    dispatch_untouched :
        (r : Option Route) (circuit : CircuitBreaker) (req : Request) (w : World)
        → (dispatch ports verify not_found r circuit req w).1.response.status ≡ 400
        → (dispatch ports verify not_found r circuit req w).0 ≡ w
    unfolding dispatch handle_health
    dispatch_untouched none circuit req w h = refl
    dispatch_untouched (some queue_size) circuit req w h = size_untouched w h
    dispatch_untouched (some health) circuit req w h = refl
    dispatch_untouched (some match_abandoned) circuit req w h = report_untouched req.report_body w h
    dispatch_untouched (some enqueue) circuit req w h =
        with_player-cases (λ o. o.1.response.status ≡ 400 → o.0 ≡ w)
          (handle_enqueue ports req.enqueue_body) req.token w (λ _ _ _. refl)
          (λ player _. enqueue_untouched req.enqueue_body player w) h
    dispatch_untouched (some cancel) circuit req w h =
        with_player-cases (λ o. o.1.response.status ≡ 400 → o.0 ≡ w) (handle_cancel ports) req.token
          w (λ _ _ _. refl) (λ player _. cancel_untouched player w) h

    -- If the service answers a request with 400, whatever its method, path, token and body are, it has
    -- called no port: the world is the one before.
    pub bad_request_untouched :
        (circuit : CircuitBreaker) (req : Request) (w : World)
        → (serve ports verify not_found circuit req w).1.response.status ≡ 400
        → (serve ports verify not_found circuit req w).0 ≡ w
    unfolding serve
    bad_request_untouched circuit req w h =
        dispatch_untouched (route req.method req.path) circuit req w h

-- The call acts for the player that the token was given for, or for no player.
abbrev pub ActsFor : {Error : Type 0} → Result Response Text → Call Error → Type 0
ActsFor known (enqueued player deck name level id answer) = known ≡ ok player
ActsFor known (cancelled player answer) = known ≡ ok player
ActsFor known (sized answer) = Unit {0}
ActsFor known (popped answer) = ⊥
ActsFor known (reenqueued ctx pair id answer) = ⊥
ActsFor known (published event_type payload answer) = ⊥
ActsFor known (read_clock now) = ⊥
ActsFor known (waited d wake) = ⊥
ActsFor known (asked_ctx is_set) = ⊥
ActsFor known (drew_match_id id) = ⊥

module _ (ports : Ports) (verify : Text → Result Response Text) (not_found : Response) where
  open ports use {World, Error}

  -- The calls of a request: none, or one that acts for the player of its token.
  abbrev pub Reaches : Result Response Text → Trace Error → Trace Error → Type 0
  Reaches known before after =
      (after ≡ before) ⊎ ((c : Call Error) × (after ≡ c ∷ before) × ActsFor known c)

  enqueue-Reaches :
      (body : Option EnqueueRequest) (player : Text) (w : World × Trace Error)
      → Reaches (ok player) w.1 (handle_enqueue (traced ports) body player w).0.1
  unfolding handle_enqueue
  enqueue-Reaches none player w = inl refl
  enqueue-Reaches (some req) player w = elim (Option-cases (check_enqueue req)) [
    | inl accepted ↦ rw (accepted, handle_enqueue) (inr (_, refl, refl))
    | inr (message, refused) ↦ rw (refused, handle_enqueue) (inl refl)
  ]

  dispatch-Reaches :
      (r : Option Route) (circuit : CircuitBreaker) (req : Request) (w : World × Trace Error)
      → r ≢ some match_abandoned
      → Reaches
          (verify req.token)
          w.1
          (dispatch (traced ports) verify not_found r circuit req w).0.1
  unfolding dispatch handle_health handle_cancel handle_queue_size
  dispatch-Reaches none circuit req w h = inl refl
  dispatch-Reaches (some queue_size) circuit req w h = inr (_, refl, tt)
  dispatch-Reaches (some health) circuit req w h = inl refl
  dispatch-Reaches (some match_abandoned) circuit req w h = absurd (h refl)
  dispatch-Reaches (some enqueue) circuit req w h =
      with_player-cases (traced ports) verify not_found (λ o. Reaches (verify req.token) w.1 o.0.1)
        (handle_enqueue (traced ports) req.enqueue_body) req.token w (λ _ _. inl refl)
        (λ player known. rw (known) (enqueue-Reaches req.enqueue_body player w))
  dispatch-Reaches (some cancel) circuit req w h =
      with_player-cases (traced ports) verify not_found (λ o. Reaches (verify req.token) w.1 o.0.1)
        (handle_cancel (traced ports)) req.token w (λ _ _. inl refl)
        (λ player known. inr (_, refl, known))

  -- A request that is not routed to the report of an abandoned match, which needs no token, makes at
  -- most one call of a port, and that call is a read of the queue's size, or an Enqueue or a Cancel for
  -- the player that the request's token was verified for; no pop, no write-back and no publish.
  pub serve-Reaches :
      (circuit : CircuitBreaker) (req : Request) (w : World × Trace Error)
      → route req.method req.path ≢ some match_abandoned
      → Reaches (verify req.token) w.1 (serve (traced ports) verify not_found circuit req w).0.1
  unfolding serve
  serve-Reaches circuit req w h = dispatch-Reaches (route req.method req.path) circuit req w h
