-- ===== src/Http/Agreement.antt =====
-- The client of the API against the handlers: what each answer of the queue becomes for the caller.
use overload_party_matchmaki.Prelude.{
  Text, Bool, true, false, ◌≡◌, refl, Option, none, some, Result, ok, err, arith,
}
use overload_party_matchmaki.Port.{Ports}
use overload_party_matchmaki.Abandon.{abandon}
use overload_party_matchmaki.Http.Messages.{EnqueueRequest, MatchAbandonedRequest, ErrorMessage}
use overload_party_matchmaki.Http.Handler.{
  check_enqueue, check_report, handle_enqueue, handle_cancel, handle_report, after_enqueue,
  after_cancel, after_abandon,
}
use overload_party_matchmaki.Http.Client.{
  ClientError, bad_request, not_found, service_unavailable, enqueue_player, cancel_player,
  report_match_abandoned,
}

-- What a caller gets for a body: an error for one that is refused, or what the queue's answer means.
abbrev pub expected {ℓ κ} :
    {Cause : Type 0} {Req : Type ℓ} {A : Type κ}
    → Option Req
    → (Req → Option ErrorMessage)
    → (Req → A)
    → (A → Option (ClientError Cause))
    → Option (ClientError Cause)
expected none check ask read = some bad_request
expected (some req) check ask read = elim (check req) [
  | some _ ↦ some bad_request
  | none ↦ read (ask req)
]

-- No error, or the service is not available.
abbrev pub available {ℓ κ} :
    {Cause : Type 0} {E : Type ℓ} {A : Type κ} → Result E A → Option (ClientError Cause)
available (ok _) = none
available (err _) = some service_unavailable

-- A cancel of a player who does not wait is not found.
abbrev pub was_waiting {ℓ} :
    {Cause : Type 0} {E : Type ℓ} → Result E Bool → Option (ClientError Cause)
was_waiting (ok true) = none
was_waiting (ok false) = some not_found
was_waiting (err _) = some service_unavailable

module _ (ports : Ports) (Cause : Type 0) where
  open ports use {World, Error}

  enqueue_agrees :
      (body : Option EnqueueRequest) (player_id : Text) (w : World)
      → enqueue_player {Cause = Cause}
          (ok (handle_enqueue ports body player_id w).1.response.status)
        ≡ expected body check_enqueue
            (λ req.
              (ports.enqueue player_id req.deck_id req.name req.level req.gateway_instance_id w).1)
            available
  unfolding handle_enqueue enqueue_player after_enqueue
  enqueue_agrees none player_id w = refl
  enqueue_agrees (some req) player_id w = ground arith

  cancel_agrees :
      (player_id : Text) (w : World)
      → cancel_player {Cause = Cause} (ok (handle_cancel ports player_id w).1.response.status)
        ≡ was_waiting (ports.cancel player_id w).1
  unfolding handle_cancel cancel_player after_cancel
  cancel_agrees player_id w = ground arith

  report_agrees :
      (body : Option MatchAbandonedRequest) (w : World)
      → report_match_abandoned {Cause = Cause} (ok (handle_report ports body w).1.response.status)
        ≡ expected body check_report
            (λ req. (abandon ports req.match_id req.player_ids req.reason w).1)
            available
  unfolding handle_report report_match_abandoned after_abandon
  report_agrees none w = refl
  report_agrees (some req) w = ground arith

  -- The client tells its caller what the service did, on every path: no error exactly if the body was
  -- accepted and the queue answered (for a cancel: and the player was waiting), a bad request for a
  -- body that is refused, not found for a player who does not wait, and an unavailable service for
  -- an error of the queue.
  pub client-server :
      (body : Option EnqueueRequest) (reported : Option MatchAbandonedRequest) (player_id : Text)
      (w : World)
      → (enqueue_player {Cause = Cause}
            (ok (handle_enqueue ports body player_id w).1.response.status)
          ≡ expected body check_enqueue
              (λ req.
                (ports.enqueue player_id req.deck_id req.name req.level req.gateway_instance_id
                  w).1)
              available)
        × (cancel_player {Cause = Cause} (ok (handle_cancel ports player_id w).1.response.status)
            ≡ was_waiting (ports.cancel player_id w).1)
        × (report_match_abandoned {Cause = Cause}
              (ok (handle_report ports reported w).1.response.status)
            ≡ expected reported check_report
                (λ req. (abandon ports req.match_id req.player_ids req.reason w).1)
                available)
  client-server body reported player_id w =
      (enqueue_agrees body player_id w, cancel_agrees player_id w, report_agrees reported w)
