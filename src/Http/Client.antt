-- ===== src/Http/Client.antt =====
-- packages/api-matchmaking/apimatchmakingclient/client.go: how the client reads a status.
use overload_party_matchmaki.Prelude.{
  ℕ, ◌==◌, leb, if◌then◌else◌, Result, ok, err, Option, none, some,
}

-- The sentinel errors, and the two other errors of a call.
pub data ClientError (Cause : Type 0) : Type 0 where
  not_found unauthorized forbidden bad_request service_unavailable internal_server :
      ClientError Cause
  unexpected_status : ℕ → ClientError Cause
  call_failed : Cause → ClientError Cause

-- newStatusError
unfoldable pub new_status_error : {Cause : Type 0} → ℕ → ClientError Cause
new_status_error code =
    if code == 401
    then unauthorized
    else if code == 403
    then forbidden
    else if code == 404
    then not_found
    else if code == 400
    then bad_request
    else if code == 503
    then service_unavailable
    else if leb 500 code
    then internal_server
    else unexpected_status code

-- A call of the generated client answers a status, or fails.
unfoldable pub read_status : {Cause : Type 0} → ℕ → Result Cause ℕ → Option (ClientError Cause)
unfolding new_status_error
read_status expected (err e) = some (call_failed e)
read_status expected (ok code) = if code == expected then none else some (new_status_error code)

-- EnqueuePlayer, CancelPlayer and ReportMatchAbandoned behind the call; `none` is success.
unfoldable pub enqueue_player : {Cause : Type 0} → Result Cause ℕ → Option (ClientError Cause)
unfolding read_status
enqueue_player = read_status 202

unfoldable pub cancel_player : {Cause : Type 0} → Result Cause ℕ → Option (ClientError Cause)
unfolding read_status
cancel_player = read_status 200

unfoldable pub report_match_abandoned :
    {Cause : Type 0} → Result Cause ℕ → Option (ClientError Cause)
unfolding read_status
report_match_abandoned = read_status 204
