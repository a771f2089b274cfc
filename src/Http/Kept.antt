-- ===== src/Http/Kept.antt =====
-- A request to internal/adapter/httphandler keeps what the ports keep.
use overload_party_matchmaki.Prelude.{
  IsInt64, IsBytes, Text, List, [], ◌∷◌, Option, Option-cases, none, some, Result, inl, inr,
}
use overload_party_matchmaki.Domain.{QueueEntry}
use overload_party_matchmaki.Port.{Ports}
use overload_party_matchmaki.Port.Kept.{Kept}
use overload_party_matchmaki.Circuit.{CircuitBreaker}
use overload_party_matchmaki.Abandon.{abandon, cancel_all}
use overload_party_matchmaki.Http.Messages.{EnqueueRequest, MatchAbandonedRequest, Response}
use overload_party_matchmaki.Http.Handler.{
  check_enqueue, check_report, handle_enqueue, handle_cancel, handle_report, handle_queue_size,
  handle_health,
}
use overload_party_matchmaki.Http.Router.{
  Route, queue_size, health, match_abandoned, enqueue, cancel, route, Request, dispatch, serve,
}
use overload_party_matchmaki.Http.Access.{with_player-cases}

-- The fields of a body as Go reads them: int64 numbers and a string of bytes.
abbrev pub IsPlainBody : Option EnqueueRequest → Type 0
IsPlainBody none = Unit {0}
IsPlainBody (some req) = IsInt64 req.deck_id × IsInt64 req.level × IsBytes req.name

module _ (ports : Ports) (P : ports.World → Type 0) (Good : QueueEntry → Type 0)
    (kept : Kept ports P Good) where
  open ports use {World, Error}

  enqueue-keeps :
      (body : Option EnqueueRequest) (player : Text) (w : World)
      → IsPlainBody body
      → P w
      → P (handle_enqueue ports body player w).0
  unfolding handle_enqueue
  enqueue-keeps none player w plain h = h
  enqueue-keeps (some req) player w plain h = elim (Option-cases (check_enqueue req)) [
    | inl accepted ↦
        rw (accepted, handle_enqueue)
          (kept.on_enqueue player req.deck_id req.name req.level req.gateway_instance_id w plain.0
            plain.1 plain.2 h)
    | inr (message, refused) ↦ rw (refused, handle_enqueue) h
  ]

  cancel_all-keeps :
      (match_id : Text) (players : List Text) (w : World)
      → P w
      → P (cancel_all ports match_id players w).0
  unfolding cancel_all
  cancel_all-keeps match_id [] w h = h
  cancel_all-keeps match_id (player ∷ players) w h =
      cancel_all-keeps match_id players _ (kept.on_cancel player w h)

  report-keeps :
      (body : Option MatchAbandonedRequest) (w : World) → P w → P (handle_report ports body w).0
  unfolding handle_report abandon
  report-keeps none w h = h
  report-keeps (some req) w h = elim (Option-cases (check_report req)) [
    | inl accepted ↦ rw (accepted, handle_report) (cancel_all-keeps req.match_id req.player_ids w h)
    | inr (message, refused) ↦ rw (refused, handle_report) h
  ]

  module _ (verify : Text → Result Response Text) (not_found : Response) where
    dispatch-keeps :
        (r : Option Route) (circuit : CircuitBreaker) (req : Request) (w : World)
        → IsPlainBody req.enqueue_body
        → P w
        → P (dispatch ports verify not_found r circuit req w).0
    unfolding dispatch handle_health handle_cancel handle_queue_size
    dispatch-keeps none circuit req w plain h = h
    dispatch-keeps (some queue_size) circuit req w plain h = kept.on_size w h
    dispatch-keeps (some health) circuit req w plain h = h
    dispatch-keeps (some match_abandoned) circuit req w plain h = report-keeps req.report_body w h
    dispatch-keeps (some enqueue) circuit req w plain h =
        with_player-cases ports verify not_found (λ o. P o.0)
          (handle_enqueue ports req.enqueue_body) req.token w (λ _ _. h)
          (λ player _. enqueue-keeps req.enqueue_body player w plain h)
    dispatch-keeps (some cancel) circuit req w plain h =
        with_player-cases ports verify not_found (λ o. P o.0) (handle_cancel ports) req.token w
          (λ _ _. h) (λ player _. kept.on_cancel player w h)

    -- Whatever its route, its token and its breaker, a request keeps what every port keeps.
    pub serve-Kept :
        (circuit : CircuitBreaker) (req : Request) (w : World)
        → IsPlainBody req.enqueue_body
        → P w
        → P (serve ports verify not_found circuit req w).0
    unfolding serve
    serve-Kept circuit req w plain h =
        dispatch-keeps (route req.method req.path) circuit req w plain h
