-- ===== src/System/Admit.antt =====
-- A request that handle_enqueue of internal/adapter/httphandler and Enqueue of
-- internal/adapter/redisqueue accept, and the room that takes it in.
use overload_party_matchmaki.Prelude.{
  ℕ, ℤ, Text, text_eq, text_eq_refl, false, ◌≡◌, refl, [], ◌∷◌, length, Option, none, some,
  Bool-cases, Result, ok, err, inl, inr, arith,
}
use overload_party_matchmaki.Domain.{QueueEntry}
use overload_party_matchmaki.Redis.{Redis}
use overload_party_matchmaki.Std.Strings.{is_blank}
use overload_party_matchmaki.Http.Messages.{EnqueueRequest}
use overload_party_matchmaki.Http.Handler.{check_enqueue}
use overload_party_matchmaki.RedisQueue.Member.{QueueError, validate_member_player_id}
use overload_party_matchmaki.RedisQueue.Scripts.{is_stored}
use overload_party_matchmaki.RedisQueue.Invariant.{IsPlain}
use overload_party_matchmaki.RedisQueue.Room.{
  Room, comes_before, enqueues, removed, admit, ask_room,
}
use overload_party_matchmaki.RedisQueue.Refinement.Calls.{answer_of}

-- The entry of a request, for the player of its token and the time of its arrival.
abbrev pub entry_of : EnqueueRequest → Text → ℤ → QueueEntry
entry_of req player_id joined_at = record {
  player_id = player_id;
  deck_id = req.deck_id;
  name = req.name;
  level = req.level;
  joined_at = joined_at;
}

-- A request that the handler and the queue accept.
pub record IsGood (req : EnqueueRequest) (player_id : Text) (joined_at : ℤ) : Type 0 where
  pub checked : check_enqueue req ≡ none
  pub named : validate_member_player_id player_id ≡ ok tt
  pub plain : IsPlain (entry_of req player_id joined_at)

-- A room where the gateway of the request has an empty or a new queue.
pub alone :
    (q : QueueEntry) (id : Text) (i : Option Text)
    → (admit q id (record { instance_id = i; entries = [] })).0
      ≡ record { instance_id = some id; entries = q ∷ [] }
alone q id i = elim (Bool-cases (is_stored i id)) [
  | inl same ↦ rw (same) refl
  | inr other ↦ rw (other) refl
]

pub second :
    (p q : QueueEntry) (id : Text)
    → text_eq p.player_id q.player_id ≡ false
    → comes_before q p ≡ false
    → (admit q id (record { instance_id = some id; entries = p ∷ [] })).0
      ≡ record { instance_id = some id; entries = p ∷ q ∷ [] }
unfolding is_stored
second p q id e f = rw (text_eq_refl id, e) (rw (f) refl)

-- The room of an accepted request takes the player in.
pub admitted :
    (q : QueueEntry) (id : Text) (r : Room)
    → is_blank id ≡ false
    → validate_member_player_id q.player_id ≡ ok tt
    → ask_room (enqueues q id) r ≡ admit q id r
unfolding is_blank
admitted q [] r h k = absurd (cc)
admitted q (c ∷ s) r h k = rw (k, ask_room) refl

pub answered_number :
    (q : QueueEntry) (id : Text) (r : Room) → (n : ℕ) × ((admit q id r).1 ≡ removed n)
answered_number q id r = elim (Bool-cases (is_stored r.instance_id id)) [
  | inl same ↦ (0, rw (same) refl)
  | inr other ↦ (length r.entries, rw (other) refl)
]

pub removed_ok :
    (redis : Redis) (x : Result QueueError ℕ) (n : ℕ)
    → answer_of redis removed x ≡ removed n
    → x ≡ ok n
unfolding answer_of
removed_ok redis (ok a) n h = cc
removed_ok redis (err e) n h = absurd (cc)

pub has_gateway :
    (req : EnqueueRequest) → check_enqueue req ≡ none → is_blank req.gateway_instance_id ≡ false
unfolding check_enqueue
has_gateway req h = ground arith
