-- ===== src/RedisQueue/Room/Presence.antt =====
-- Who waits in the room of Room, as a caller can tell from the calls and their answers.
use overload_party_matchmaki.Prelude.{
  Text, text_eq, text_eq_sound, text_eq_refl, text_eq_flip, sym, ap, Bool, true, false, ◌&&◌, ◌||◌,
  not, Bool-cases, ◌≡◌, refl, List, [], ◌∷◌, Option, some, inl, inr, arith, Result-cases,
  Option-cases,
}
use overload_party_matchmaki.Domain.{QueueEntry}
use overload_party_matchmaki.RedisQueue.Member.{validate_member_player_id}
use overload_party_matchmaki.RedisQueue.Scripts.{is_stored, or_empty}
use overload_party_matchmaki.RedisQueue.Room.{
  Room, comes_before, take_out, is_waiting, line_up, join, join_all, first_refused, Ask, enqueues,
  cancels, sizes, pops, reenqueues, Answer, removed, was_waiting, popped, written, admit,
  first_pair, take_back, ask_room, ask_room_all,
}

-- What is known of one player: the instance that asked last, and whether the player waits.
abbrev pub Known : Type 0
Known = Option Text × Bool

-- What a call with its answer tells of a player. An enqueue of another instance empties the room; a call
-- that is refused, and a pair that is not written back, change nothing.
abbrev pub told : Text → Ask → Answer → Known → Known
told p (enqueues q id) (removed n) (instance_id, here) =
    (some id, text_eq q.player_id p || (here && is_stored instance_id id))
told p (cancels c) (was_waiting b) (instance_id, here) = (instance_id, here && not (text_eq c p))
told p pops (popped es id) (instance_id, here) = (instance_id, here && not (is_waiting p es))
told p (reenqueues qs id) (written true) (instance_id, here) =
    (instance_id, here || is_waiting p qs)
told p ask answer known = known

abbrev pub told_all : Text → List Ask → List Answer → Known → Known
told_all p (ask ∷ asks) (answer ∷ answers) known = told_all p asks answers (told p ask answer known)
told_all p _ _ known = known

-- No player has two entries.
abbrev pub IsDistinct : List QueueEntry → Type 0
IsDistinct [] = Unit {0}
IsDistinct (e ∷ es) = (is_waiting e.player_id es ≡ false) × IsDistinct es

other_player : (a b p : Text) → text_eq a b ≡ true → text_eq b p ≡ false → text_eq a p ≡ false
other_player a b p h k = ground (arith, text_eq_sound a b h)

waiting-take_out :
    (p c : Text) (es : List QueueEntry)
    → is_waiting p (take_out c es) ≡ (is_waiting p es && not (text_eq c p))
waiting-take_out p c [] = refl
waiting-take_out p c (e ∷ es) = elim (Bool-cases (text_eq e.player_id c)) [
  | inl same ↦ ground (arith, waiting-take_out p c es, same, text_eq_sound e.player_id c same)
  | inr other ↦ elim (Bool-cases (text_eq c p)) [
    | inl them ↦ ground (arith, waiting-take_out p c es, other, them, text_eq_sound c p them)
    | inr us ↦ ground (arith, waiting-take_out p c es, other, us)
  ]
]

waiting-line_up :
    (p : Text) (q : QueueEntry) (es : List QueueEntry)
    → is_waiting p (line_up q es) ≡ (text_eq q.player_id p || is_waiting p es)
waiting-line_up p q [] = refl
waiting-line_up p q (e ∷ es) = ground (arith, waiting-line_up p q es)

waiting-join :
    (p : Text) (q : QueueEntry) (es : List QueueEntry)
    → is_waiting p (join q es) ≡ (text_eq q.player_id p || is_waiting p es)
waiting-join p q es =
    ground (arith, waiting-line_up p q (take_out q.player_id es), waiting-take_out p q.player_id es)

waiting-join_all :
    (p : Text) (qs es : List QueueEntry)
    → is_waiting p (join_all qs es) ≡ (is_waiting p es || is_waiting p qs)
waiting-join_all p [] es = ground arith
waiting-join_all p (q ∷ qs) es =
    ground (arith, waiting-join_all p qs (join q es), waiting-join p q es)

take_out-IsDistinct : (c : Text) (es : List QueueEntry) → IsDistinct es → IsDistinct (take_out c es)
take_out-IsDistinct c [] h = tt
take_out-IsDistinct c (e ∷ es) h =
    ground (arith, take_out-IsDistinct c es h.1, waiting-take_out e.player_id c es)

line_up-IsDistinct :
    (q : QueueEntry) (es : List QueueEntry)
    → is_waiting q.player_id es ≡ false
    → IsDistinct es
    → IsDistinct (line_up q es)
line_up-IsDistinct q [] new h = (refl, tt)
line_up-IsDistinct q (e ∷ es) new h = elim (Bool-cases (comes_before q e)) [
  | inl first ↦ rw (first) (new, h)
  | inr later ↦
      let rest = line_up-IsDistinct q es (ground (arith, new)) h.1 in
      let elsewhere = text_eq_flip e.player_id q.player_id (ground (arith, new)) in
      rw (later) (ground (arith, h, elsewhere, waiting-line_up e.player_id q es), rest)
]

join-IsDistinct : (q : QueueEntry) (es : List QueueEntry) → IsDistinct es → IsDistinct (join q es)
join-IsDistinct q es h =
    line_up-IsDistinct q (take_out q.player_id es)
      (ground (arith, waiting-take_out q.player_id q.player_id es, text_eq_refl q.player_id))
      (take_out-IsDistinct q.player_id es h)

join_all-IsDistinct : (qs es : List QueueEntry) → IsDistinct es → IsDistinct (join_all qs es)
join_all-IsDistinct [] es h = h
join_all-IsDistinct (q ∷ qs) es h = join_all-IsDistinct qs (join q es) (join-IsDistinct q es h)

-- The two who leave are not among those who stay.
left :
    (p : Text) (a b : QueueEntry) (es : List QueueEntry)
    → IsDistinct (a ∷ b ∷ es)
    → (is_waiting p (a ∷ b ∷ es) && not (is_waiting p (a ∷ b ∷ []))) ≡ is_waiting p es
left p a b es h = elim (Bool-cases (text_eq a.player_id p)) [
  | inl a_is ↦ ground (arith, h, text_eq_sound a.player_id p a_is)
  | inr a_not ↦ elim (Bool-cases (text_eq b.player_id p)) [
    | inl b_is ↦ ground (arith, h, text_eq_sound b.player_id p b_is)
    | inr b_not ↦ ground (arith, a_not, b_not)
  ]
]

-- A call on a room with its outcome: what it tells of a player is what is so, and no player has two
-- entries then.
abbrev Tells : Text → Ask → Room → Room × Answer → Type 0
Tells p a r (next, answer) =
    (told p a answer (r.instance_id, is_waiting p r.entries)
      ≡ (next.instance_id, is_waiting p next.entries))
    × IsDistinct next.entries

admit-Tells :
    (p : Text) (q : QueueEntry) (id : Text) (r : Room)
    → IsDistinct r.entries
    → Tells p (enqueues q id) r (admit q id r)
admit-Tells p q id r h = elim (Bool-cases (is_stored r.instance_id id)) [
  | inl same ↦
      rw (same, admit)
        (ground (arith, waiting-join p q r.entries, same), join-IsDistinct q r.entries h)
  | inr new ↦ rw (new, admit) (ground (arith, new), (refl, tt))
]

first_pair-Tells :
    (p : Text) (id : Option Text) (es : List QueueEntry)
    → IsDistinct es
    → Tells p pops
        (record { instance_id = id; entries = es })
        (first_pair (record { instance_id = id; entries = es }) es)
first_pair-Tells p id [] h = (refl, h)
first_pair-Tells p id (a ∷ []) h = (ground arith, h)
first_pair-Tells p id (a ∷ b ∷ es) h = (ap (λ x. (id, x)) (left p a b es h), h.1.1)

take_back-Tells :
    (p : Text) (qs : List QueueEntry) (id : Text) (r : Room)
    → IsDistinct r.entries
    → Tells p (reenqueues qs id) r (take_back qs id r)
take_back-Tells p qs id r h = elim (Bool-cases (text_eq (or_empty r.instance_id) id)) [
  | inl same ↦
      rw (same, take_back)
        (ground (arith, waiting-join_all p qs r.entries), join_all-IsDistinct qs r.entries h)
  | inr other ↦ rw (other, take_back) (refl, h)
]

ask_room-Tells : (p : Text) (a : Ask) (r : Room) → IsDistinct r.entries → Tells p a r (ask_room a r)
ask_room-Tells p (enqueues q []) r h = elim (Result-cases (validate_member_player_id q.player_id)) [
  | inl (e, invalid) ↦ rw (invalid, ask_room) (refl, h)
  | inr (u, valid) ↦ rw (valid, ask_room) (refl, h)
]
ask_room-Tells p (enqueues q (c ∷ s)) r h =
    elim (Result-cases (validate_member_player_id q.player_id)) [
      | inl (e, invalid) ↦ rw (invalid, ask_room) (refl, h)
      | inr (u, valid) ↦ rw (valid, ask_room) (admit-Tells p q (c ∷ s) r h)
    ]
ask_room-Tells p (cancels []) r h = (refl, h)
ask_room-Tells p (cancels (c ∷ s)) r h = (
  ap (λ b. (r.instance_id, b)) (sym (waiting-take_out p (c ∷ s) r.entries)),
  take_out-IsDistinct (c ∷ s) r.entries h,
)
ask_room-Tells p sizes r h = (refl, h)
ask_room-Tells p pops r h = first_pair-Tells p r.instance_id r.entries h
ask_room-Tells p (reenqueues qs id) r h = elim (Option-cases (first_refused qs)) [
  | inl fine ↦ rw (fine, ask_room) (take_back-Tells p qs id r h)
  | inr (e, bad) ↦ rw (bad, ask_room) (refl, h)
]

-- What all the calls tell of a player is what is so of the room in the end.
pub told_all-ask_room_all :
    (p : Text) (asks : List Ask) (r : Room)
    → IsDistinct r.entries
    → told_all p asks (ask_room_all asks r).1 (r.instance_id, is_waiting p r.entries)
      ≡ ((ask_room_all asks r).0.instance_id, is_waiting p (ask_room_all asks r).0.entries)
told_all-ask_room_all p [] r h = refl
told_all-ask_room_all p (a ∷ asks) r h =
    let (tells, distinct) = ask_room-Tells p a r h in
    rw (tells) (told_all-ask_room_all p asks (ask_room a r).0 distinct)
