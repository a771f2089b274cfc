-- ===== src/Rest/Service.antt =====
-- packages/api-matchmaking/apimatchmakingclient/client.go and the generated client under it, over a
-- network that ends at the router of internal/adapter/httphandler: a call from the caller's argument
-- to the queue and back.
use overload_party_matchmaki.Prelude.{Text, codes, ◌≡◌, [], ◌∷◌, Option, none, some, Result, ok}
use overload_party_matchmaki.Port.{Ports}
use overload_party_matchmaki.Circuit.{CircuitBreaker}
use overload_party_matchmaki.Http.Messages.{EnqueueRequest, MatchAbandonedRequest, Response}
use overload_party_matchmaki.Http.Router.{Method, Request, serve}
use overload_party_matchmaki.Http.Client as Status
use overload_party_matchmaki.Rest.{Net, HttpResponse}
use overload_party_matchmaki.Rest.Calls.{Doer, Editor, Client}

abbrev read_body {ℓ} : {A : Type ℓ} → (Text → Option A) → Option Text → Option A
read_body read none = none
read_body read (some text) = read text

-- What net/http, net/url and encoding/json do between a client with the base URL `server` and the
-- router: a request arrives with its method and path, with what its body says, and with the token that
-- `attach` puts into it.
pub record Transport (net : Net) (server token : Text) : Type 0 where
  pub base : net.Url
  pub site : Text → net.Url
  pub server_parsed : net.parse_url server ≡ ok base
  pub path_resolved : (p : Text) → net.resolve base (b'.' ∷ b'/' ∷ p) ≡ ok (site (b'/' ∷ p))
  pub wire : Method → Text → Option Text → net.Wire
  pub request_made :
      (m : Method) (p : Text) (body : Option Text)
      → net.new_request m (net.url_text (site p)) body ≡ ok (wire m p body)
  pub attach : net.Wire → net.Wire
  pub arrive : net.Wire → Request
  pub read_enqueue : Text → Option EnqueueRequest
  pub read_report : Text → Option MatchAbandonedRequest
  pub arrived :
      (m : Method) (p : Text) (body : Option Text)
      → arrive (wire m p body) ≡ record {
        method = m;
        path = p;
        token = [];
        enqueue_body = read_body read_enqueue body;
        report_body = read_body read_report body;
      }
  pub typed :
      (r : net.Wire) (t : Text) → arrive (net.add_header r (codes "Content-Type") t) ≡ arrive r
  pub attached : (r : net.Wire) → arrive (attach r) ≡ record (arrive r) { token = token }
  pub enqueue_text : EnqueueRequest → Text
  pub enqueue_marshalled : (req : EnqueueRequest) → net.marshal_enqueue req ≡ ok (enqueue_text req)
  pub enqueue_read : (req : EnqueueRequest) → read_enqueue (enqueue_text req) ≡ some req
  pub report_text : MatchAbandonedRequest → Text
  pub report_marshalled :
      (req : MatchAbandonedRequest) → net.marshal_report req ≡ ok (report_text req)
  pub report_read : (req : MatchAbandonedRequest) → read_report (report_text req) ≡ some req

-- The service at the other end, and a client of it.
module _ (net : Net) (ports : Ports) (verify : Text → Result Response Text) (no_route : Response)
    (circuit : CircuitBreaker) (server token : Text) (t : Transport net server token) where
  open ports use {World, Error}

  abbrev pub answer : Response → HttpResponse net
  answer response = record {
    status = [];
    status_code = response.status;
    content_type = codes "application/json";
    body = ok [];
  }

  abbrev pub service : Doer net World
  service r w =
      let served = serve ports verify no_route circuit (t.arrive r) w in
      (served.0, ok (answer served.1.response))

  abbrev pub sign : Editor net World
  sign r w = (w, ok (t.attach r))

  abbrev pub caller : Client net World
  caller = record { server = server; doer = service; editors = sign ∷ [] }

  -- What arrives of a request with a body, and of one without.
  abbrev request_of : Method → Text → Option Text → Request
  request_of m p body = record {
    method = m;
    path = p;
    token = token;
    enqueue_body = read_body t.read_enqueue body;
    report_body = read_body t.read_report body;
  }
