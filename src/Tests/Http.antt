-- ===== src/Tests/Http.antt =====
-- The results on the service and its client, at one enqueue and one report.
use overload_party_matchmaki.Prelude.{
  ℕ, pos, Text, text_eq, ◌≢◌, codes, [], ◌∷◌, none, some, Result, ok, ◌≡◌, refl, ◌↔◌,
}
use overload_party_matchmaki.Abandon.{abandon}
use overload_party_matchmaki.Http.Messages.{
  EnqueueRequest, MatchAbandonedRequest, reason_player_not_connected, Response, no_body,
}
use overload_party_matchmaki.Http.Handler.{
  check_enqueue, check_report, handle_enqueue, handle_cancel, handle_report,
}
use overload_party_matchmaki.Http.Client.{enqueue_player, cancel_player, report_match_abandoned}
use overload_party_matchmaki.Http.Validation.{IsReport, check_report_iff}
use overload_party_matchmaki.Circuit.{CircuitBreaker, new_circuit_breaker}
use overload_party_matchmaki.Port.Traced.{traced}
use overload_party_matchmaki.Http.Access.{bad_request_untouched, serve-Reaches, Reaches}
use overload_party_matchmaki.Http.Router.{
  Request, post, route, get_route, post_route, match_abandoned, dispatch, with_player, serve,
}
use overload_party_matchmaki.Http.Agreement.{expected, available, was_waiting, client-server}
use overload_party_matchmaki.Tests.World.{failing}

abbrev pub enqueue_request : EnqueueRequest
enqueue_request = record {
  deck_id = pos 4;
  gateway_instance_id = codes "gw-1";
  level = pos 7;
  name = codes "Ann";
}

abbrev pub report : MatchAbandonedRequest
report = record {
  match_id = codes "mch_1";
  player_ids = codes "ann" ∷ codes "bob" ∷ [];
  reason = reason_player_not_connected;
}

client-server_example :
    (enqueue_player {Cause = ℕ}
        (ok (handle_enqueue failing (some enqueue_request) (codes "ann") 0).1.response.status)
      ≡ expected
          (some enqueue_request)
          check_enqueue
          (λ req.
            (failing.enqueue
              (codes "ann")
              req.deck_id
              req.name
              req.level
              req.gateway_instance_id
              0).1)
          available)
    × (cancel_player {Cause = ℕ} (ok (handle_cancel failing (codes "ann") 0).1.response.status)
        ≡ was_waiting (failing.cancel (codes "ann") 0).1)
    × (report_match_abandoned {Cause = ℕ}
          (ok (handle_report failing (some report) 0).1.response.status)
        ≡ expected
            (some report)
            check_report
            (λ req. (abandon failing req.match_id req.player_ids req.reason 0).1)
            available)
client-server_example = client-server failing ℕ (some enqueue_request) (some report) (codes "ann") 0

check_report_iff_example :
    (check_report report ≡ none) ↔ IsReport report.match_id report.player_ids report.reason
check_report_iff_example = check_report_iff report

-- The token names its player.
abbrev pub verify : Text → Result Response Text
verify token = ok token

abbrev pub not_found : Response
not_found = record { status = 404; body = no_body }

abbrev pub closed : CircuitBreaker
closed = new_circuit_breaker (pos 3) (pos 10)

-- An enqueue, and one with a blank name.
abbrev good : Request
good = record {
  method = post;
  path = codes "/internal/v1/enqueue";
  token = codes "ann";
  enqueue_body = some enqueue_request;
  report_body = none;
}

abbrev bad : Request
bad = record good { enqueue_body = none }

bad_refused : (serve failing verify not_found closed bad 0).1.response.status ≡ 400
unfolding serve dispatch route get_route post_route text_eq with_player handle_enqueue
bad_refused = refl

bad_request_untouched_example : (serve failing verify not_found closed bad 0).0 ≡ 0
bad_request_untouched_example =
    bad_request_untouched failing verify not_found closed bad 0 bad_refused

good_route : route good.method good.path ≢ some match_abandoned
unfolding route post_route text_eq
good_route = λ e. cc

serve-Reaches_example :
    Reaches failing verify not_found
      (verify good.token)
      []
      (serve (traced failing) verify not_found closed good (0, [])).0.1
serve-Reaches_example = serve-Reaches failing verify not_found closed good (0, []) good_route
