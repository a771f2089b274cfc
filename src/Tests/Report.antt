-- ===== src/Tests/Report.antt =====
-- A report of the two players who wait.
use overload_party_matchmaki.Prelude.{some, none, text_eq, ◌≡◌, refl}
use overload_party_matchmaki.Http.Handler.{check_report, check_player_ids, handle_report}
use overload_party_matchmaki.Http.Messages.{is_valid_reason}
use overload_party_matchmaki.Http.Validation.{IsReport, check_report_iff}
use overload_party_matchmaki.Redis.Sample.{sample}
use overload_party_matchmaki.RedisQueue.Refinement.Calls.{Represents}
use overload_party_matchmaki.System.{service}
use overload_party_matchmaki.System.Report.{take_out_all, handle_report-takes_out}
use overload_party_matchmaki.Tests.World.{stored}
use overload_party_matchmaki.Tests.Http.{report}
use overload_party_matchmaki.Tests.System.{up}
use overload_party_matchmaki.Tests.Server.{room, stored-Represents}

report_checked : check_report report ≡ none
unfolding check_report check_player_ids is_valid_reason text_eq
report_checked = refl

good-IsReport : IsReport report.match_id report.player_ids report.reason
good-IsReport = (check_report_iff report).0 report_checked

handle_report-takes_out_example :
    ((handle_report (service sample up) (some report) (stored, 5)).1.response.status ≡ 204)
    × Represents sample
        (handle_report (service sample up) (some report) (stored, 5)).0.0
        (record room { entries = take_out_all report.player_ids room.entries })
handle_report-takes_out_example =
    handle_report-takes_out sample up report stored 5 room good-IsReport stored-Represents
