-- ===== src/Http/Router.antt =====
-- internal/adapter/httphandler/router.go: the routes. The verification of the internal token is not
-- part of the repository: `verify` gives the player of a request's token, or the response with which
-- it stops the request. A path or method with no route is answered by `not_found`, gin's own.
use overload_party_matchmaki.Prelude.{
  Text, codes, text_eq, ◌++◌, if◌then◌else◌, Option, none, some, Result, ok, err, [],
}
use overload_party_matchmaki.Port.{Ports}
use overload_party_matchmaki.Circuit.{CircuitBreaker}
use overload_party_matchmaki.Http.Messages.{EnqueueRequest, MatchAbandonedRequest, Response}
use overload_party_matchmaki.Http.Handler.{
  Outcome, Handling, handle_enqueue, handle_cancel, handle_report, handle_queue_size, handle_health,
}

pub data Method : Type 0 where
  get post other_method : Method

pub data Route : Type 0 where
  queue_size health match_abandoned enqueue cancel : Route

abbrev pub base_path : Text
base_path = codes "/internal/v1"

unfoldable pub get_route : Text → Option Route
get_route path =
    if text_eq path (base_path ++ codes "/queue-size")
    then some queue_size
    else if text_eq path (base_path ++ codes "/health")
    then some health
    else none

unfoldable pub post_route : Text → Option Route
post_route path =
    if text_eq path (base_path ++ codes "/match-abandoned")
    then some match_abandoned
    else if text_eq path (base_path ++ codes "/enqueue")
    then some enqueue
    else if text_eq path (base_path ++ codes "/cancel")
    then some cancel
    else none

unfoldable pub route : Method → Text → Option Route
unfolding get_route post_route
route get path = get_route path
route post path = post_route path
route other_method path = none

-- A request, with what its body reads as.
pub record Request : Type 0 where
  pub method : Method
  pub path : Text
  pub token : Text
  pub enqueue_body : Option EnqueueRequest
  pub report_body : Option MatchAbandonedRequest

module _ (ports : Ports) (verify : Text → Result Response Text) (not_found : Response) where
  open ports use {World, Error}

  abbrev pub stop_with : Response → Outcome Error
  stop_with response = record { response = response; log = [] }

  -- The middleware of the routes for a player.
  unfoldable pub with_player : (Text → Handling ports) → Text → Handling ports
  with_player handle token w = elim (verify token) [
    | err response ↦ (w, stop_with response)
    | ok player_id ↦ handle player_id w
  ]

  unfoldable pub dispatch : Option Route → CircuitBreaker → Request → Handling ports
  unfolding with_player
  dispatch none circuit req w = (w, stop_with not_found)
  dispatch (some queue_size) circuit req w = handle_queue_size ports w
  dispatch (some health) circuit req w = handle_health ports circuit w
  dispatch (some match_abandoned) circuit req w = handle_report ports req.report_body w
  dispatch (some enqueue) circuit req w =
      with_player (handle_enqueue ports req.enqueue_body) req.token w
  dispatch (some cancel) circuit req w = with_player (handle_cancel ports) req.token w

  unfoldable pub serve : CircuitBreaker → Request → Handling ports
  unfolding dispatch route
  serve circuit req = dispatch (route req.method req.path) circuit req
