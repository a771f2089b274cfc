-- ===== src/HttpTest/Requests/Reach.antt =====
-- What the requests of internal/adapter/httphandler/httphandlertest/request.go reach behind the router.
use overload_party_matchmaki.Prelude.{
  ℕ, pos, Text, codes, text_eq, Bool, true, List, [], ◌∷◌, Option, none, some, Result, ok, err,
  ◌==◌, if◌then◌else◌, ◌≡◌, refl, ap, ◌∙◌,
}
use overload_party_matchmaki.Std.Decimal.{format_int}
use overload_party_matchmaki.Port.{Ports}
use overload_party_matchmaki.Circuit.{CircuitBreaker}
use overload_party_matchmaki.Http.Messages.{
  error_body, queue_size_body, unavailable, EnqueueRequest, MatchAbandonedRequest, Response,
}
use overload_party_matchmaki.Http.Handler.{
  Outcome, after_size, handle_enqueue, handle_cancel, handle_report, handle_queue_size,
  handle_health,
}
use overload_party_matchmaki.Http.Router.{
  Request, route, get_route, post_route, dispatch, with_player, serve,
}
use overload_party_matchmaki.HttpTest.Requests.{
  RawRequest, Recorder, verification_by_token, read_queue_size, with_token, no_auth, send,
  send_enqueue, send_cancel, send_queue_size, send_health, send_match_abandoned, set, lookup,
  Marshal, gateway_instance_id, build_body, enqueue_body, default_name, send_enqueue_from_gateway,
}

-- How gin and encoding/json read a request and write a response. A body that was made of fields reads as
-- the values whose JSON they are, if its strings are UTF-8.
pub record Codec (json : Marshal) : Type 0 where
  pub read_enqueue : Text → Option EnqueueRequest
  pub read_report : Text → Option MatchAbandonedRequest
  pub render : Response → Recorder
  pub code_rendered : (r : Response) → (render r).code ≡ r.status
  pub read_size : Text → Option ℕ
  pub size_read :
      (n : ℕ) → read_size (render (record { status = 200; body = queue_size_body n })).body ≡ some n
  pub is_utf8 : Text → Bool
  pub enqueue_read :
      (fields : List (Text × Text)) (text : Text) (req : EnqueueRequest)
      → json.of_fields fields ≡ some text
      → lookup (codes "deck_id") fields ≡ some (format_int req.deck_id)
      → lookup (codes "level") fields ≡ some (format_int req.level)
      → lookup (codes "name") fields ≡ some (json.of_text req.name)
      → lookup (codes "gateway_instance_id") fields ≡ some (json.of_text req.gateway_instance_id)
      → is_utf8 req.name ≡ true
      → is_utf8 req.gateway_instance_id ≡ true
      → read_enqueue text ≡ some req

module _ (ports : Ports) (verify : Text → Result Response Text) (not_found : Response)
    (circuit : CircuitBreaker) (json : Marshal) (codec : Codec json) where
  open ports use {World, Error}

  -- What a router makes of a raw request.
  abbrev pub arrived : RawRequest → Request
  arrived r = record {
    method = r.method;
    path = r.path;
    token = r.token;
    enqueue_body = codec.read_enqueue r.body;
    report_body = codec.read_report r.body;
  }

  abbrev pub recorded : World × Outcome Error → World × Recorder
  recorded (w, o) = (w, codec.render o.response)

  -- The router of the service.
  abbrev pub router : RawRequest → World → World × Recorder
  router r w = recorded (serve ports verify not_found circuit (arrived r) w)

  -- The request that EnqueueBody stands for.
  abbrev pub default_request : Text → EnqueueRequest
  default_request gateway_id = record {
    deck_id = pos 11;
    gateway_instance_id = gateway_id;
    level = pos 7;
    name = default_name;
  }

  enqueue_reaches :
      (token player body : Text) (w : World)
      → verify token ≡ ok player
      → send_enqueue router (with_token token) body w
        ≡ recorded (handle_enqueue ports (codec.read_enqueue body) player w)
  unfolding send_enqueue send with_token serve route post_route dispatch with_player text_eq
  enqueue_reaches token player body w known = rw (known, with_player) refl

  cancel_reaches :
      (token player : Text) (w : World)
      → verify token ≡ ok player
      → send_cancel router (with_token token) w ≡ recorded (handle_cancel ports player w)
  unfolding send_cancel send with_token serve route post_route dispatch with_player text_eq
  cancel_reaches token player w known = rw (known, with_player) refl

  size_reaches : (w : World) → send_queue_size router w ≡ recorded (handle_queue_size ports w)
  unfolding send_queue_size send no_auth serve route get_route dispatch text_eq
  size_reaches w = refl

  health_reaches : (w : World) → send_health router w ≡ recorded (handle_health ports circuit w)
  unfolding send_health send no_auth serve route get_route dispatch text_eq
  health_reaches w = refl

  report_reaches :
      (body : Text) (w : World)
      → send_match_abandoned router body w
        ≡ recorded (handle_report ports (codec.read_report body) w)
  unfolding send_match_abandoned send no_auth serve route post_route dispatch text_eq
  report_reaches body w = refl

  default_read :
      (gateway_id body : Text)
      → enqueue_body json (gateway_instance_id json gateway_id ∷ []) ≡ some body
      → codec.is_utf8 default_name ≡ true
      → codec.is_utf8 gateway_id ≡ true
      → codec.read_enqueue body ≡ some (default_request gateway_id)
  unfolding enqueue_body build_body gateway_instance_id set text_eq format_int
  default_read gateway_id body made name_valid id_valid =
      codec.enqueue_read _ body (default_request gateway_id) made refl refl refl refl name_valid
        id_valid

  -- Each request of the tests reaches the handler that it is named for: with a token that
  -- NewVerifier takes for a player, and a middleware that follows it, the
  -- enqueue and the cancel run for that player, without one the report, the size and the health run,
  -- on the service as it is. SendEnqueueFromGateway enqueues with the test's deck, level and name, for the
  -- gateway that it is given, if its strings are UTF-8.
  pub sends-reach :
      (token player body gateway_id default_body : Text) (w : World)
      → ((t p : Text) → verification_by_token t ≡ some (ok p) → verify t ≡ ok p)
      → verification_by_token token ≡ some (ok player)
      → enqueue_body json (gateway_instance_id json gateway_id ∷ []) ≡ some default_body
      → codec.is_utf8 default_name ≡ true
      → codec.is_utf8 gateway_id ≡ true
      → (send_enqueue router (with_token token) body w
          ≡ recorded (handle_enqueue ports (codec.read_enqueue body) player w))
        × (send_cancel router (with_token token) w ≡ recorded (handle_cancel ports player w))
        × (send_match_abandoned router body w
            ≡ recorded (handle_report ports (codec.read_report body) w))
        × (send_queue_size router w ≡ recorded (handle_queue_size ports w))
        × (send_health router w ≡ recorded (handle_health ports circuit w))
        × (send_enqueue_from_gateway json router (with_token token) gateway_id w
            ≡ some (recorded (handle_enqueue ports (some (default_request gateway_id)) player w)))
  unfolding send_enqueue_from_gateway
  sends-reach token player body gateway_id default_body w accepts given made name_valid id_valid =
      let known = accepts token player given in
      (
        enqueue_reaches token player body w known,
        cancel_reaches token player w known,
        report_reaches body w,
        size_reaches w,
        health_reaches w,
        rw (made, send_enqueue_from_gateway)
            (ap some (
              enqueue_reaches token player default_body w known
              ∙ ap (λ b. recorded (handle_enqueue ports b player w))
                  (default_read gateway_id default_body made name_valid id_valid))),
      )

  -- The size of the queue, if it answers.
  abbrev pub answered_size : Result Error ℕ → Option ℕ
  answered_size (ok n) = some n
  answered_size (err e) = none

  size_answer :
      (r : Result Error ℕ)
      → (if (codec.render (after_size ports r).response).code == 200
          then codec.read_size (codec.render (after_size ports r).response).body
          else none)
        ≡ answered_size r
  unfolding after_size
  size_answer (ok n) =
      rw (codec.code_rendered (record { status = 200; body = queue_size_body n }))
        (codec.size_read n)
  size_answer (err e) =
      rw (codec.code_rendered (record { status = 503; body = error_body unavailable })) refl

  -- ReadQueueSize reads the size that the queue answers, and fails exactly if the queue does.
  pub read_queue_size-answered_size :
      (w : World)
      → read_queue_size codec.read_size router w
        ≡ ((ports.size w).0, answered_size (ports.size w).1)
  unfolding read_queue_size send_queue_size send no_auth serve route get_route dispatch text_eq
      handle_queue_size
  read_queue_size-answered_size w = ap (λ x. ((ports.size w).0, x)) (size_answer (ports.size w).1)
