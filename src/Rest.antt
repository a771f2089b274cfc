-- ===== src/Rest.antt =====
-- packages/api-matchmaking/openapi_gen.go: the generated REST client. net/http, net/url and
-- encoding/json are the parameter `net`; `World` is whatever a sent request and an editor act on.
pub mod Calls
pub mod Build
pub mod Service
use overload_party_matchmaki.Prelude.{
  ℕ, ℤ, Text, codes, text_eq, Bool, true, false, ◌&&◌, not, ◌==◌, if◌then◌else◌, List, [], ◌∷◌,
  ◌++◌, Option, none, some, Result, ok, err, ◌>>=◌,
}
use overload_party_matchmaki.Http.Messages.{EnqueueRequest, MatchAbandonedRequest}
use overload_party_matchmaki.Http.Router.{Method, get, post}

pub record HealthResponse : Type 0 where
  pub circuit : Text
  pub status : Text

pub record Net : Type 1 where
  pub Error : Type 0
  pub Url : Type 0
  pub Wire : Type 0
  -- url.Parse, URL.Parse and URL.String
  pub parse_url : Text → Result Error Url
  pub resolve : Url → Text → Result Error Url
  pub url_text : Url → Text
  -- http.NewRequest and Header.Add
  pub new_request : Method → Text → Option Text → Result Error Wire
  pub add_header : Wire → Text → Text → Wire
  pub marshal_enqueue : EnqueueRequest → Result Error Text
  pub marshal_report : MatchAbandonedRequest → Result Error Text
  pub unmarshal_health : Text → Result Error HealthResponse
  pub unmarshal_size : Text → Result Error ℤ

-- `strings.HasSuffix(s, "/")`
unfoldable pub ends_with_slash : Text → Bool
ends_with_slash [] = false
ends_with_slash (c ∷ []) = c == b'/'
ends_with_slash (c ∷ d ∷ s) = ends_with_slash (d ∷ s)

-- The path of an operation relative to the server.
unfoldable pub operation_path : Text → Text
operation_path [] = []
operation_path (c ∷ s) = if c == b'/' then b'.' ∷ c ∷ s else c ∷ s

-- `strings.Contains(s, "json")`
unfoldable pub starts_with : Text → Text → Bool
starts_with [] s = true
starts_with (c ∷ p) [] = false
starts_with (c ∷ p) (d ∷ s) = (c == d) && starts_with p s

unfoldable pub contains : Text → Text → Bool
unfolding starts_with
contains p [] = starts_with p []
contains p (c ∷ s) = let rest = contains p s in if starts_with p (c ∷ s) then true else rest

module _ (net : Net) where
  open net use {Error, Url, Wire, parse_url, resolve, url_text, new_request, add_header}

  -- A response, with what reading its body gives.
  pub record HttpResponse : Type 0 where
    pub status : Text
    pub status_code : ℕ
    pub content_type : Text
    pub body : Result Error Text

  -- The response types of CancelPlayer, EnqueuePlayer and ReportMatchAbandoned.
  pub record PlainResponse : Type 0 where
    pub body : Text
    pub http_response : Option HttpResponse

  pub record GetHealthResponse : Type 0 where
    pub body : Text
    pub http_response : Option HttpResponse
    pub json200 : Option HealthResponse
    pub json503 : Option HealthResponse

  pub record GetQueueSizeResponse : Type 0 where
    pub body : Text
    pub http_response : Option HttpResponse
    pub json200 : Option ℤ

  -- Status, StatusCode and ContentType of each response type; http.StatusText(0) is empty.
  abbrev pub response_status : Option HttpResponse → Text
  response_status none = []
  response_status (some r) = r.status

  abbrev pub response_status_code : Option HttpResponse → ℕ
  response_status_code none = 0
  response_status_code (some r) = r.status_code

  abbrev pub response_content_type : Option HttpResponse → Text
  response_content_type none = []
  response_content_type (some r) = r.content_type

  -- The five request builders share all but the method, the path and the body.
  unfoldable pub operation_request : Method → Text → Text → Option Text → Result Error Wire
  unfolding operation_path
  operation_request method path server body = do
    server_url ← parse_url server
    query_url ← resolve server_url (operation_path path)
    new_request method (url_text query_url) body

  unfoldable pub new_cancel_player_request : Text → Result Error Wire
  unfolding operation_request
  new_cancel_player_request server =
      operation_request post (codes "/internal/v1/cancel") server none

  unfoldable pub new_enqueue_player_request_with_body : Text → Text → Text → Result Error Wire
  unfolding operation_request
  new_enqueue_player_request_with_body server content_type body = do
    req ← operation_request post (codes "/internal/v1/enqueue") server (some body)
    ok (add_header req (codes "Content-Type") content_type)

  unfoldable pub new_enqueue_player_request : Text → EnqueueRequest → Result Error Wire
  unfolding new_enqueue_player_request_with_body
  new_enqueue_player_request server body = do
    buf ← net.marshal_enqueue body
    new_enqueue_player_request_with_body server (codes "application/json") buf

  unfoldable pub new_get_health_request : Text → Result Error Wire
  unfolding operation_request
  new_get_health_request server = operation_request get (codes "/internal/v1/health") server none

  unfoldable pub new_report_match_abandoned_request_with_body :
      Text → Text → Text → Result Error Wire
  unfolding operation_request
  new_report_match_abandoned_request_with_body server content_type body = do
    req ← operation_request post (codes "/internal/v1/match-abandoned") server (some body)
    ok (add_header req (codes "Content-Type") content_type)

  unfoldable pub new_report_match_abandoned_request :
      Text → MatchAbandonedRequest → Result Error Wire
  unfolding new_report_match_abandoned_request_with_body
  new_report_match_abandoned_request server body = do
    buf ← net.marshal_report body
    new_report_match_abandoned_request_with_body server (codes "application/json") buf

  unfoldable pub new_get_queue_size_request : Text → Result Error Wire
  unfolding operation_request
  new_get_queue_size_request server =
      operation_request get (codes "/internal/v1/queue-size") server none

  -- ParseCancelPlayerResponse, ParseEnqueuePlayerResponse and ParseReportMatchAbandonedResponse
  unfoldable pub parse_plain_response : HttpResponse → Result Error PlainResponse
  parse_plain_response rsp = do
    body ← rsp.body
    ok (record { body = body; http_response = some rsp })

  unfoldable pub is_json : HttpResponse → ℕ → Bool
  unfolding contains
  is_json rsp status = contains (codes "json") rsp.content_type && (rsp.status_code == status)

  unfoldable pub parse_get_health_response : HttpResponse → Result Error GetHealthResponse
  unfolding is_json
  parse_get_health_response rsp = do
    body ← rsp.body
    if is_json rsp 200
        then (do
          dest ← net.unmarshal_health body
          ok (record {
            body = body;
            http_response = some rsp;
            json200 = some dest;
            json503 = none;
          }))
        else if is_json rsp 503
        then (do
          dest ← net.unmarshal_health body
          ok (record {
            body = body;
            http_response = some rsp;
            json200 = none;
            json503 = some dest;
          }))
        else ok (record { body = body; http_response = some rsp; json200 = none; json503 = none })

  unfoldable pub parse_get_queue_size_response : HttpResponse → Result Error GetQueueSizeResponse
  unfolding is_json
  parse_get_queue_size_response rsp = do
    body ← rsp.body
    if is_json rsp 200
        then (do
          dest ← net.unmarshal_size body
          ok (record { body = body; http_response = some rsp; json200 = some dest }))
        else ok (record { body = body; http_response = some rsp; json200 = none })
