-- ===== src/Tests/Network.antt =====
-- A network whose requests are records, and calls over it.
use overload_party_matchmaki.Prelude.{
  ℕ, text_eq, Text, codes, [], ◌∷◌, Option, none, some, ok, err, ◌≡◌, refl,
}
use overload_party_matchmaki.Std.Strings.{is_blank}
use overload_party_matchmaki.Abandon.{AbandonLog, abandon}
use overload_party_matchmaki.Http.Router.{Method}
use overload_party_matchmaki.Http.Handler.{
  check_enqueue, check_report, handle_enqueue, handle_cancel, handle_report,
}
use overload_party_matchmaki.Rest.{Net}
use overload_party_matchmaki.Rest.Calls.{Doer, Editor, Client}
use overload_party_matchmaki.Rest.Service.{Transport, service, sign, caller}
use overload_party_matchmaki.ServerFake.{
  fake_enqueue, fake_cancel, fake_match_abandoned, default_server, default_server-agrees,
}
use overload_party_matchmaki.Tests.World.{failing}
use overload_party_matchmaki.Tests.Http.{enqueue_request, report, verify, not_found, closed}
use overload_party_matchmaki.Tests.Codec.{
  write_enqueue, read_enqueue, read_enqueue-write_enqueue, write_report, read_report,
  read_report-write_report,
}

record Sent : Type 0 where
  method : Method
  path : Text
  body : Option Text
  token : Text

abbrev rest_of : Text → Text
rest_of [] = []
rest_of (c ∷ s) = s

abbrev network : Net
network = record {
  Error = ℕ;
  Url = Text;
  Wire = Sent;
  parse_url = λ s. ok s;
  resolve = λ u p. ok (rest_of p);
  url_text = λ u. u;
  new_request = λ m u b. ok (record { method = m; path = u; body = b; token = [] });
  add_header = λ r k v. r;
  marshal_enqueue = λ r. ok (write_enqueue r);
  marshal_report = λ r. ok (write_report r);
  unmarshal_health = λ s. err 0;
  unmarshal_size = λ s. err 0;
}

abbrev read_with : {A : Type 0} → (Text → Option A) → Option Text → Option A
read_with read none = none
read_with read (some s) = read s

abbrev transport : Transport network (codes "h/") (codes "ann")
transport = record {
  base = codes "h/";
  site = λ p. p;
  server_parsed = refl;
  path_resolved = λ p. refl;
  wire = λ m p b. record { method = m; path = p; body = b; token = [] };
  request_made = λ m p b. refl;
  attach = λ r. record r { token = codes "ann" };
  arrive = λ r. record {
    method = r.method;
    path = r.path;
    token = r.token;
    enqueue_body = read_with read_enqueue r.body;
    report_body = read_with read_report r.body;
  };
  read_enqueue = read_enqueue;
  read_report = read_report;
  arrived = λ m p b. refl;
  typed = λ r s. refl;
  attached = λ r. refl;
  enqueue_text = write_enqueue;
  enqueue_marshalled = λ r. refl;
  enqueue_read = read_enqueue-write_enqueue;
  report_text = write_report;
  report_marshalled = λ r. refl;
  report_read = read_report-write_report;
}

abbrev the_service : Doer network ℕ
the_service = service network failing verify not_found closed (codes "h/") (codes "ann") transport

abbrev the_caller : Client network ℕ
the_caller = caller network failing verify not_found closed (codes "h/") (codes "ann") transport

abbrev signer : Editor network ℕ
signer = sign network failing verify not_found closed (codes "h/") (codes "ann") transport

enqueue_checked : check_enqueue enqueue_request ≡ none
unfolding check_enqueue is_blank
enqueue_checked = refl

report_checked : check_report report ≡ none
unfolding check_report text_eq
report_checked = refl

abbrev report_line : AbandonLog
report_line = record { match_id = report.match_id; reason = report.reason; player_count = 2 }

report_gone : (abandon failing report.match_id report.player_ids report.reason 1).1 ≡ ok report_line
unfolding abandon
report_gone = refl

default_server-agrees_example :
    ((fake_enqueue ℕ (default_server ℕ) (some enqueue_request)).status
      ≡ (handle_enqueue failing (some enqueue_request) (codes "ann") 1).1.response.status)
    × ((fake_cancel ℕ (default_server ℕ)).status
        ≡ (handle_cancel failing (codes "ann") 1).1.response.status)
    × ((fake_match_abandoned ℕ (default_server ℕ) (some report)).status
        ≡ (handle_report failing (some report) 1).1.response.status)
default_server-agrees_example =
    default_server-agrees ℕ failing enqueue_request report (codes "ann") 1 _ report_line
      enqueue_checked refl refl report_checked report_gone
