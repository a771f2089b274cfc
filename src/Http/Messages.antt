-- ===== src/Http/Messages.antt =====
-- packages/api-matchmaking/openapi_gen.go and internal/adapter/httphandler/errors.go: the requests and
-- the responses. A body that could not be read as JSON is a missing request.
use overload_party_matchmaki.Prelude.{ℕ, ℤ, Text, codes, text_eq, Bool, List}

pub record EnqueueRequest : Type 0 where
  pub deck_id : ℤ
  pub gateway_instance_id : Text
  pub level : ℤ
  pub name : Text

pub record MatchAbandonedRequest : Type 0 where
  pub match_id : Text
  pub player_ids : List Text
  pub reason : Text

abbrev pub reason_player_not_connected : Text
reason_player_not_connected = codes "player_not_connected"

-- MatchAbandonedRequestReason.Valid
unfoldable pub is_valid_reason : Text → Bool
is_valid_reason reason = text_eq reason reason_player_not_connected

-- The texts of the `error` field, by what they say.
pub data ErrorMessage : Type 0 where
  invalid_request_body deck_id_not_positive name_required gateway_instance_id_required :
      ErrorMessage
  match_id_required player_id_empty player_id_duplicate unavailable : ErrorMessage
  player_ids_count : ℕ → ErrorMessage
  unknown_reason : Text → ErrorMessage

pub data Body : Type 0 where
  no_body : Body
  error_body : ErrorMessage → Body
  queue_size_body : ℕ → Body
  -- the status, and the circuit
  health_body : Text → Text → Body

pub record Response : Type 0 where
  pub status : ℕ
  pub body : Body
