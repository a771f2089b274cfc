-- ===== src/RedisQueue/Room.antt =====
-- What internal/port/queue.go promises of a queue, without Redis: a waiting room with the instance that
-- asked last, and the players who wait, in the order in which they leave.
pub mod Lists
pub mod Presence
use overload_party_matchmaki.Prelude.{
  ℕ, Text, text_eq, Bool, true, false, ◌||◌, not, if◌then◌else◌, List, [], ◌∷◌, length, keep,
  Option, none, some, Result, ok, err,
}
use overload_party_matchmaki.Domain.{QueueEntry}
use overload_party_matchmaki.Redis.{before}
use overload_party_matchmaki.RedisQueue.Member.{
  QueueError, player_id_empty, gateway_instance_id_empty, validate_member_player_id,
}
use overload_party_matchmaki.RedisQueue.Scripts.{is_stored, or_empty}
use overload_party_matchmaki.RedisQueue.WellFormed.{to_scored}

pub record Room : Type 0 where
  pub instance_id : Option Text
  pub entries : List QueueEntry

-- Who joined first leaves first; at one millisecond, the stored text decides.
abbrev pub comes_before : QueueEntry → QueueEntry → Bool
comes_before q e = before (to_scored q) (to_scored e)

abbrev pub take_out : Text → List QueueEntry → List QueueEntry
take_out player = keep (λ e. not (text_eq e.player_id player))

abbrev pub is_waiting : Text → List QueueEntry → Bool
is_waiting player [] = false
is_waiting player (e ∷ es) = text_eq e.player_id player || is_waiting player es

abbrev pub line_up : QueueEntry → List QueueEntry → List QueueEntry
line_up q [] = q ∷ []
line_up q (e ∷ es) = if comes_before q e then q ∷ e ∷ es else e ∷ line_up q es

-- A player has one entry at most: a new one replaces the old one.
abbrev pub join : QueueEntry → List QueueEntry → List QueueEntry
join q es = line_up q (take_out q.player_id es)

abbrev pub join_all : List QueueEntry → List QueueEntry → List QueueEntry
join_all [] es = es
join_all (q ∷ qs) es = join_all qs (join q es)

-- The first player who cannot be stored.
abbrev pub first_refused : List QueueEntry → Option QueueError
first_refused [] = none
first_refused (q ∷ qs) =
    let rest = first_refused qs in
    elim (validate_member_player_id q.player_id) [ err e ↦ some e | ok _ ↦ rest ]

-- The calls of `port.Queue` and their answers.
pub data Ask : Type 0 where
  enqueues : QueueEntry → Text → Ask
  cancels : Text → Ask
  sizes : Ask
  pops : Ask
  reenqueues : List QueueEntry → Text → Ask

pub data Answer : Type 0 where
  removed : ℕ → Answer
  was_waiting : Bool → Answer
  counted : ℕ → Answer
  popped : List QueueEntry → Text → Answer
  written : Bool → Answer
  refused : QueueError → Answer

-- A new instance empties the room.
abbrev pub admit : QueueEntry → Text → Room → Room × Answer
admit q instance_id r =
    if is_stored r.instance_id instance_id
    then (record { instance_id = some instance_id; entries = join q r.entries }, removed 0)
    else (record { instance_id = some instance_id; entries = q ∷ [] }, removed (length r.entries))

abbrev pub first_pair : Room → List QueueEntry → Room × Answer
first_pair r [] = (r, popped [] [])
first_pair r (a ∷ []) = (r, popped [] [])
first_pair r (a ∷ b ∷ rest) =
    (record r { entries = rest }, popped (a ∷ b ∷ []) (or_empty r.instance_id))

-- The pair comes back only to the room that it left.
abbrev pub take_back : List QueueEntry → Text → Room → Room × Answer
take_back qs instance_id r =
    if text_eq (or_empty r.instance_id) instance_id
    then (record r { entries = join_all qs r.entries }, written true)
    else (r, written false)

abbrev pub ask_room : Ask → Room → Room × Answer
ask_room (enqueues q []) r = elim (validate_member_player_id q.player_id) [
  | err e ↦ (r, refused e)
  | ok _ ↦ (r, refused gateway_instance_id_empty)
]
ask_room (enqueues q (c ∷ s)) r = elim (validate_member_player_id q.player_id) [
  | err e ↦ (r, refused e)
  | ok _ ↦ admit q (c ∷ s) r
]
ask_room (cancels []) r = (r, refused player_id_empty)
ask_room (cancels (c ∷ s)) r =
    (record r { entries = take_out (c ∷ s) r.entries }, was_waiting (is_waiting (c ∷ s) r.entries))
ask_room sizes r = (r, counted (length r.entries))
ask_room pops r = first_pair r r.entries
ask_room (reenqueues qs instance_id) r = elim (first_refused qs) [
  | some e ↦ (r, refused e)
  | none ↦ take_back qs instance_id r
]

-- A sequence of calls, with its answers in order.
abbrev pub ask_room_all : List Ask → Room → Room × List Answer
ask_room_all [] r = (r, [])
ask_room_all (a ∷ asks) r =
    let (next, answer) = ask_room a r in
    let (last, answers) = ask_room_all asks next in (last, answer ∷ answers)
