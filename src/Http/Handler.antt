-- ===== src/Http/Handler.antt =====
-- internal/adapter/httphandler/handler.go: the five handlers. The queue is behind the ports, the
-- abandoner is the one of internal/usecase/abandon over the same queue, and the circuit is the
-- breaker of the matcher, as cmd/server/main.go puts them together.
use overload_party_matchmaki.Prelude.{
  ℕ, ℤ, pos, ltb_ℤ, ltb, Text, codes, text_eq, Bool, false, not, ◌||◌, ◌==◌, if◌then◌else◌, List,
  [], ◌∷◌, length, Option, none, some, Result, ok, err,
}
use overload_party_matchmaki.Std.Strings.{is_blank}
use overload_party_matchmaki.Domain.{match_player_count}
use overload_party_matchmaki.Port.{Ports}
use overload_party_matchmaki.Circuit.{CircuitBreaker, is_circuit_open}
use overload_party_matchmaki.Abandon.{CancelError, AbandonLog, abandon}
use overload_party_matchmaki.Http.Messages.{
  EnqueueRequest, MatchAbandonedRequest, is_valid_reason, ErrorMessage, invalid_request_body,
  deck_id_not_positive, name_required, gateway_instance_id_required, match_id_required,
  player_id_empty, player_id_duplicate, unavailable, player_ids_count, unknown_reason, no_body,
  error_body, queue_size_body, health_body, Response,
}

abbrev pub min_deck_id : ℤ
min_deck_id = pos 1

-- The log lines of the handlers.
pub data HandlerLog (Error : Type 0) : Type 0 where
  queue_reset : Text → ℕ → HandlerLog Error
  dependency_unavailable : Error → HandlerLog Error
  abandon_unavailable : List (CancelError Error) → HandlerLog Error
  match_abandoned : AbandonLog → HandlerLog Error

-- What a handler gives: the response and what it logs.
pub record Outcome (Error : Type 0) : Type 0 where
  pub response : Response
  pub log : List (HandlerLog Error)

abbrev pub respond : {Error : Type 0} → ℕ → Outcome Error
respond status = record { response = record { status = status; body = no_body }; log = [] }

abbrev pub bad_request : {Error : Type 0} → ErrorMessage → Outcome Error
bad_request message = record {
  response = record { status = 400; body = error_body message };
  log = [];
}

-- respondUnavailable
abbrev pub respond_unavailable : {Error : Type 0} → HandlerLog Error → Outcome Error
respond_unavailable line = record {
  response = record { status = 503; body = error_body unavailable };
  log = line ∷ [];
}

-- The loop over `req.PlayerIDs` with the ids seen so far.
unfoldable pub is_seen : Text → List Text → Bool
is_seen id [] = false
is_seen id (s ∷ seen) = text_eq s id || is_seen id seen

unfoldable pub check_player_ids : List Text → List Text → Option ErrorMessage
unfolding is_seen
check_player_ids seen [] = none
check_player_ids seen ([] ∷ ids) = some player_id_empty
check_player_ids seen ((c ∷ s) ∷ ids) =
    let rest = check_player_ids ((c ∷ s) ∷ seen) ids in
    if is_seen (c ∷ s) seen then some player_id_duplicate else rest

-- The checks of ReportMatchAbandoned, in their order.
unfoldable pub check_report : MatchAbandonedRequest → Option ErrorMessage
unfolding check_player_ids is_valid_reason
check_report req =
    if text_eq req.match_id []
    then some match_id_required
    else if not (length req.player_ids == match_player_count)
    then some (player_ids_count match_player_count)
    else elim (check_player_ids [] req.player_ids) [
      | some message ↦ some message
      | none ↦ if not (is_valid_reason req.reason) then some (unknown_reason req.reason) else none
    ]

-- The checks of Enqueue, in their order.
unfoldable pub check_enqueue : EnqueueRequest → Option ErrorMessage
check_enqueue req =
    if ltb_ℤ req.deck_id min_deck_id
    then some deck_id_not_positive
    else if is_blank req.name
    then some name_required
    else if is_blank req.gateway_instance_id
    then some gateway_instance_id_required
    else none

abbrev pub health_status_ok : Text
health_status_ok = codes "ok"

abbrev pub health_status_degraded : Text
health_status_degraded = codes "degraded"

abbrev pub health_circuit_closed : Text
health_circuit_closed = codes "closed"

abbrev pub health_circuit_open : Text
health_circuit_open = codes "open"

module _ (ports : Ports) where
  open ports use {World, Error}

  abbrev pub Handling : Type 0
  Handling = World → World × Outcome Error

  unfoldable pub after_enqueue : Text → Result Error ℕ → Outcome Error
  after_enqueue instance_id (err e) = respond_unavailable (dependency_unavailable e)
  after_enqueue instance_id (ok removed) =
      if ltb 0 removed
      then record {
        response = record { status = 202; body = no_body };
        log = queue_reset instance_id removed ∷ [];
      }
      else respond 202

  -- Enqueue, for the player of the request's token.
  unfoldable pub handle_enqueue : Option EnqueueRequest → Text → Handling
  unfolding check_enqueue after_enqueue
  handle_enqueue none player_id w = (w, bad_request invalid_request_body)
  handle_enqueue (some req) player_id w = elim (check_enqueue req) [
    | some message ↦ (w, bad_request message)
    | none ↦
        let r = ports.enqueue player_id req.deck_id req.name req.level req.gateway_instance_id w in
        (r.0, after_enqueue req.gateway_instance_id r.1)
  ]

  unfoldable pub after_cancel : Result Error Bool → Outcome Error
  after_cancel (err e) = respond_unavailable (dependency_unavailable e)
  after_cancel (ok removed) = if not removed then respond 404 else respond 200

  -- Cancel
  unfoldable pub handle_cancel : Text → Handling
  unfolding after_cancel
  handle_cancel player_id w = let r = ports.cancel player_id w in (r.0, after_cancel r.1)

  unfoldable pub after_abandon : Result (List (CancelError Error)) AbandonLog → Outcome Error
  after_abandon (err es) = respond_unavailable (abandon_unavailable es)
  after_abandon (ok line) = record {
    response = record { status = 204; body = no_body };
    log = match_abandoned line ∷ [];
  }

  -- ReportMatchAbandoned
  unfoldable pub handle_report : Option MatchAbandonedRequest → Handling
  unfolding check_report after_abandon
  handle_report none w = (w, bad_request invalid_request_body)
  handle_report (some req) w = elim (check_report req) [
    | some message ↦ (w, bad_request message)
    | none ↦
        let r = abandon ports req.match_id req.player_ids req.reason w in (r.0, after_abandon r.1)
  ]

  unfoldable pub after_size : Result Error ℕ → Outcome Error
  after_size (err e) = respond_unavailable (dependency_unavailable e)
  after_size (ok n) = record {
    response = record { status = 200; body = queue_size_body n };
    log = [];
  }

  -- RespondQueueSize
  unfoldable pub handle_queue_size : Handling
  unfolding after_size
  handle_queue_size w = let r = ports.size w in (r.0, after_size r.1)

  -- RespondHealth
  unfoldable pub handle_health : CircuitBreaker → Handling
  unfolding is_circuit_open
  handle_health circuit w = (
    w,
    if is_circuit_open circuit
        then record {
          response = record {
            status = 503;
            body = health_body health_status_degraded health_circuit_open;
          };
          log = [];
        }
        else record {
          response = record {
            status = 200;
            body = health_body health_status_ok health_circuit_closed;
          };
          log = [];
        },
  )
