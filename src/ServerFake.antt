-- ===== src/ServerFake.antt =====
-- packages/api-matchmaking/apimatchmakingserverfake/server.go: a server for the tests of the API's
-- callers, which answers what it is told to. `body` is any value that encoding/json can write, and
-- `no_route` what http.ServeMux answers for a method and path that it does not know.
use overload_party_matchmaki.Prelude.{
  ℕ, pos, Text, codes, text_eq, if◌then◌else◌, [], Option, none, some, ok, true, ◌≡◌, refl, sym,
  arith,
}
use overload_party_matchmaki.Port.{Ports}
use overload_party_matchmaki.Http.Messages.{EnqueueRequest, MatchAbandonedRequest}
use overload_party_matchmaki.Http.Router.{post, Request}
use overload_party_matchmaki.Abandon.{AbandonLog, abandon}
use overload_party_matchmaki.Http.Handler.{
  check_enqueue, check_report, after_enqueue, after_cancel, after_abandon, handle_enqueue,
  handle_cancel, handle_report,
}

module _ (Value : Type 0) where
  pub record Answer : Type 0 where
    pub status : ℕ
    pub content_type : Option Text
    pub body : Option Value

  pub record Server : Type 0 where
    pub enqueue_fn : Option (EnqueueRequest → ℕ × Option Value)
    pub cancel_fn : Option (ℕ × Option Value)
    pub match_abandoned_fn : Option (MatchAbandonedRequest → ℕ × Option Value)

  -- writeJSON
  unfoldable pub write_json : ℕ → Option Value → Answer
  write_json status none = record { status = status; content_type = none; body = none }
  write_json status (some body) = record {
    status = status;
    content_type = some (codes "application/json");
    body = some body;
  }

  -- The request that a body which cannot be read leaves.
  abbrev pub read_enqueue : Option EnqueueRequest → EnqueueRequest
  read_enqueue none = record { deck_id = pos 0; gateway_instance_id = []; level = pos 0; name = [] }
  read_enqueue (some req) = req

  abbrev pub read_report : Option MatchAbandonedRequest → MatchAbandonedRequest
  read_report none = record { match_id = []; player_ids = []; reason = [] }
  read_report (some req) = req

  unfoldable pub fake_enqueue : Server → Option EnqueueRequest → Answer
  unfolding write_json
  fake_enqueue s body = elim s.enqueue_fn [
    | none ↦ record { status = 202; content_type = none; body = none }
    | some f ↦ let r = f (read_enqueue body) in write_json r.0 r.1
  ]

  unfoldable pub fake_cancel : Server → Answer
  unfolding write_json
  fake_cancel s = elim s.cancel_fn [
    | none ↦ record { status = 200; content_type = none; body = none }
    | some r ↦ write_json r.0 r.1
  ]

  unfoldable pub fake_match_abandoned : Server → Option MatchAbandonedRequest → Answer
  unfolding write_json
  fake_match_abandoned s body = elim s.match_abandoned_fn [
    | none ↦ record { status = 204; content_type = none; body = none }
    | some f ↦ let r = f (read_report body) in write_json r.0 r.1
  ]

  abbrev new_routes : Server → Answer → Text → Request → Answer
  new_routes s no_route path req =
      if text_eq path (codes "/internal/v1/enqueue")
      then fake_enqueue s req.enqueue_body
      else if text_eq path (codes "/internal/v1/cancel")
      then fake_cancel s
      else if text_eq path (codes "/internal/v1/match-abandoned")
      then fake_match_abandoned s req.report_body
      else no_route

  -- The routes of NewServer.
  unfoldable pub serve_fake : Server → Answer → Request → Answer
  unfolding fake_enqueue fake_cancel fake_match_abandoned
  serve_fake s no_route req = elim req.method [
    | post ↦ new_routes s no_route req.path req
    | _ ↦ no_route
  ]

  abbrev pub default_server : Server
  default_server = record { enqueue_fn = none; cancel_fn = none; match_abandoned_fn = none }

module _ (Value : Type 0) (ports : Ports) where
  open ports use {World, Error}

  enqueued_status :
      (id : Text) (removed : ℕ) → (after_enqueue ports id (ok removed)).response.status ≡ 202
  unfolding after_enqueue
  enqueued_status id removed = ground arith

  -- The fake server that is told nothing answers as the service does where all goes well: an Enqueue whose
  -- fields are accepted and which the queue takes, whether or not it emptied the queue of another
  -- gateway; a Cancel that takes its player out; and a report whose fields are accepted and whose
  -- players are all cancelled.
  pub default_server-agrees :
      (req : EnqueueRequest) (report : MatchAbandonedRequest) (player_id : Text) (w : World)
      (removed : ℕ) (line : AbandonLog)
      → check_enqueue req ≡ none
      → (ports.enqueue player_id req.deck_id req.name req.level req.gateway_instance_id w).1
        ≡ ok removed
      → (ports.cancel player_id w).1 ≡ ok true
      → check_report report ≡ none
      → (abandon ports report.match_id report.player_ids report.reason w).1 ≡ ok line
      → ((fake_enqueue Value (default_server Value) (some req)).status
          ≡ (handle_enqueue ports (some req) player_id w).1.response.status)
        × ((fake_cancel Value (default_server Value)).status
            ≡ (handle_cancel ports player_id w).1.response.status)
        × ((fake_match_abandoned Value (default_server Value) (some report)).status
            ≡ (handle_report ports (some report) w).1.response.status)
  unfolding fake_enqueue fake_cancel fake_match_abandoned handle_enqueue handle_cancel handle_report
      after_cancel after_abandon
  default_server-agrees req report player_id w removed line checked entered taken accepted gone = (
    rw (checked, entered, handle_enqueue) (sym (enqueued_status req.gateway_instance_id removed)),
    rw (taken, handle_cancel) refl,
    rw (accepted, gone, handle_report) refl,
  )
