-- ===== src/System/Report.antt =====
-- A report of an abandoned match, from the handler of internal/adapter/httphandler over
-- internal/usecase/abandon to the queue on Redis.
use overload_party_matchmaki.Prelude.{
  Text, Bool, ◌≡◌, ◌≢◌, refl, subst, ◌∙◌, ap, List, [], ◌∷◌, none, some, Result, ok, err,
}
use overload_party_matchmaki.Domain.{QueueEntry}
use overload_party_matchmaki.Abandon.{abandon, cancel_all, finish}
use overload_party_matchmaki.Redis.{Redis}
use overload_party_matchmaki.Http.Messages.{MatchAbandonedRequest}
use overload_party_matchmaki.Http.Handler.{check_report, handle_report, after_abandon}
use overload_party_matchmaki.Http.Validation.{IsReport, check_report_iff}
use overload_party_matchmaki.RedisQueue.Member.{QueueError}
use overload_party_matchmaki.RedisQueue.Queue.{answered, cancel}
use overload_party_matchmaki.RedisQueue.Room.{
  Room, take_out, is_waiting, cancels, was_waiting, ask_room,
}
use overload_party_matchmaki.RedisQueue.Refinement.Calls.{
  answer_of, ask_redis, Represents, cancel-Agrees,
}
use overload_party_matchmaki.System.{Outside, service}

-- The entries without those of some players.
abbrev pub take_out_all : List Text → List QueueEntry → List QueueEntry
take_out_all [] es = es
take_out_all (player ∷ players) es = take_out_all players (take_out player es)

waiting_ok :
    (redis : Redis) (x : Result QueueError Bool) (b : Bool)
    → answer_of redis was_waiting x ≡ was_waiting b
    → x ≡ ok b
unfolding answer_of
waiting_ok redis (ok a) b h = cc
waiting_ok redis (err e) b h = absurd (cc)

-- A cancel of a named player takes the player's entries out of the room.
taken_out :
    (player : Text) (r : Room)
    → player ≢ []
    → ask_room (cancels player) r ≡ (
      record r { entries = take_out player r.entries },
      was_waiting (is_waiting player r.entries),
    )
taken_out [] r h = absurd (h refl)
taken_out (c ∷ s) r h = refl

module _ (redis : Redis) (out : Outside) where
  open redis use {Db}
  open out use {Rest}

  cancelled :
      (player : Text) (db : Db) (r : Room)
      → player ≢ []
      → Represents redis db r
      → Represents redis
          (cancel redis (answered 0) player db).0
          (record r { entries = take_out player r.entries })
        × ((b : Bool) × ((cancel redis (answered 0) player db).1 ≡ ok b))
  unfolding ask_redis
  cancelled player db r named h =
      let agrees = cancel-Agrees redis player db r h in
      let room = taken_out player r named in
      (
        subst (λ x. Represents redis (ask_redis redis (cancels player) db).0 x.0) room agrees.0,
        (is_waiting player r.entries, waiting_ok redis _ _ (agrees.1 ∙ ap (λ x. x.1) room)),
      )

  abandoned :
      (match_id reason a b : Text) (db : Db) (u : Rest) (r : Room)
      → a ≢ []
      → b ≢ []
      → Represents redis db r
      → Represents redis
          (abandon (service redis out) match_id (a ∷ b ∷ []) reason (db, u)).0.0
          (record r { entries = take_out_all (a ∷ b ∷ []) r.entries })
        × ((abandon (service redis out) match_id (a ∷ b ∷ []) reason (db, u)).1
            ≡ ok (record { match_id = match_id; reason = reason; player_count = 2 }))
  unfolding abandon cancel_all finish
  abandoned match_id reason a b db u r named_a named_b h =
      let (one, (x, first)) = cancelled a db r named_a h in
      let (two, (y, second)) = cancelled b _ _ named_b one in (two, rw (first, second, finish) refl)

  report_status :
      (match_id reason : Text)
      → (after_abandon
          (service redis out)
          (ok (record { match_id = match_id; reason = reason; player_count = 2 }))).response.status
        ≡ 204
  unfolding after_abandon
  report_status match_id reason = refl

  handled :
      (req : MatchAbandonedRequest) (a b : Text) (db : Db) (u : Rest) (r : Room)
      → check_report req ≡ none
      → req.player_ids ≡ a ∷ b ∷ []
      → a ≢ []
      → b ≢ []
      → Represents redis db r
      → ((handle_report (service redis out) (some req) (db, u)).1.response.status ≡ 204)
        × Represents redis
            (handle_report (service redis out) (some req) (db, u)).0.0
            (record r { entries = take_out_all req.player_ids r.entries })
  unfolding handle_report
  handled req a b db u r checked players named_a named_b h =
      let (left, answer) = abandoned req.match_id req.reason a b db u r named_a named_b h in
      rw (checked, players, handle_report)
        (rw (answer) (report_status req.match_id req.reason), left)

  -- A report that names a match, two different players and the known reason is answered 204, and takes
  -- the two out of the queue on Redis, if they are there: the queue then holds those who waited without
  -- them, in the same order, for the same gateway.
  pub handle_report-takes_out :
      (req : MatchAbandonedRequest) (db : Db) (u : Rest) (r : Room)
      → IsReport req.match_id req.player_ids req.reason
      → Represents redis db r
      → ((handle_report (service redis out) (some req) (db, u)).1.response.status ≡ 204)
        × Represents redis
            (handle_report (service redis out) (some req) (db, u)).0.0
            (record r { entries = take_out_all req.player_ids r.entries })
  handle_report-takes_out req db u r v h =
      handled req v.first v.second db u r ((check_report_iff req).1 v) v.pair v.first_named
        v.second_named h
