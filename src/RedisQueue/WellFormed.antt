-- ===== src/RedisQueue/WellFormed.antt =====
-- The well-formed waiting queue: in order, one entry for each player, and each entry one that
-- PopPair can read; and what the list operations of the scripts keep of it.
use overload_party_matchmaki.Prelude.{
  ℕ, zero, suc, IsInt64, IsBytes, Text, text_eq, text_eq_sound, text_eq_refl, text_eq_flip, Bool,
  false, ◌≡◌, refl, List, [], ◌∷◌, drop, keep, All, All-map_imp, Bool-cases, inl, inr, ok, arith,
}
use overload_party_matchmaki.Domain.{QueueEntry}
use overload_party_matchmaki.Redis.{Scored, before, place}
use overload_party_matchmaki.Std.Float64.{IsExact, float64-IsExact}
use overload_party_matchmaki.Redis.Order.{
  IsOrdered, All-keep, keep-IsOrdered, place-IsOrdered, All-place,
}
use overload_party_matchmaki.RedisQueue.Member.{
  encode_member, validate_member_player_id, validate_member_player_id_ok, before_byte-encode_member,
}
use overload_party_matchmaki.RedisQueue.Scripts.{owner}
use overload_party_matchmaki.RedisQueue.Purge.{others}
use overload_party_matchmaki.RedisQueue.Effects.{scored, replace}

-- The entry of the sorted set for a queue entry.
abbrev pub to_scored : QueueEntry → Scored
to_scored q = record {
  member = encode_member q.player_id q.deck_id q.level q.name;
  score = q.joined_at;
}

-- A queue entry that can be stored: its player is accepted, its numbers are int64 values, its time is
-- one that a float64 holds, and its name is a string of bytes.
pub record IsStorable (q : QueueEntry) : Type 0 where
  pub accepted : validate_member_player_id q.player_id ≡ ok tt
  pub deck_fits : IsInt64 q.deck_id
  pub level_fits : IsInt64 q.level
  pub joined_fits : IsExact q.joined_at
  pub name_bytes : IsBytes q.name

-- The scripts store its own time.
pub scored-to_scored :
    (q : QueueEntry)
    → IsStorable q
    → scored (encode_member q.player_id q.deck_id q.level q.name) q.joined_at ≡ to_scored q
scored-to_scored q s = rw (float64-IsExact q.joined_at s.joined_fits) refl

abbrev pub IsReadable : Scored → Type 0
IsReadable e = (q : QueueEntry) × (e ≡ to_scored q) × IsStorable q

-- No two entries belong to one player.
abbrev pub IsUnique : List Scored → Type 0
IsUnique [] = Unit {0}
IsUnique (e ∷ es) = All (λ f. text_eq (owner f) (owner e) ≡ false) es × IsUnique es

pub record IsWellFormed (es : List Scored) : Type 0 where
  pub ordered : IsOrdered es
  pub unique : IsUnique es
  pub readable : All IsReadable es

pub owner-to_scored : (q : QueueEntry) → IsStorable q → owner (to_scored q) ≡ q.player_id
unfolding owner
owner-to_scored q s =
    before_byte-encode_member q.player_id q.deck_id q.level q.name
      (validate_member_player_id_ok q.player_id s.accepted).1

pub nil-IsWellFormed : IsWellFormed []
nil-IsWellFormed = record { ordered = tt; unique = tt; readable = tt }

All-drop {ℓ} : {A : Type ℓ} (P : A → Type 0) (n : ℕ) (es : List A) → All P es → All P (drop n es)
All-drop P zero es h = h
All-drop P (suc n) [] h = tt
All-drop P (suc n) (e ∷ es) h = All-drop P n es h.1

drop-IsOrdered : (n : ℕ) (es : List Scored) → IsOrdered es → IsOrdered (drop n es)
drop-IsOrdered zero es h = h
drop-IsOrdered (suc n) [] h = tt
drop-IsOrdered (suc n) (e ∷ es) h = drop-IsOrdered n es h.1

drop-IsUnique : (n : ℕ) (es : List Scored) → IsUnique es → IsUnique (drop n es)
drop-IsUnique zero es h = h
drop-IsUnique (suc n) [] h = tt
drop-IsUnique (suc n) (e ∷ es) h = drop-IsUnique n es h.1

-- Entries taken from the front leave a well-formed queue.
pub drop-IsWellFormed : (n : ℕ) (es : List Scored) → IsWellFormed es → IsWellFormed (drop n es)
drop-IsWellFormed n es w = record {
  ordered = drop-IsOrdered n es w.ordered;
  unique = drop-IsUnique n es w.unique;
  readable = All-drop IsReadable n es w.readable;
}

keep-IsUnique : (p : Scored → Bool) (es : List Scored) → IsUnique es → IsUnique (keep p es)
keep-IsUnique p [] h = tt
keep-IsUnique p (e ∷ es) h =
    ground
      (arith, keep-IsUnique p es h.1, All-keep (λ f. text_eq (owner f) (owner e) ≡ false) p es h.0)

-- So do a player's entries taken out.
pub others-IsWellFormed :
    (player : Text) (es : List Scored) → IsWellFormed es → IsWellFormed (others player es)
others-IsWellFormed player es w = record {
  ordered = keep-IsOrdered _ es w.ordered;
  unique = keep-IsUnique _ es w.unique;
  readable = All-keep IsReadable _ es w.readable;
}

-- The other players are others.
pub others-All :
    (player : Text) (es : List Scored)
    → All (λ f. text_eq (owner f) player ≡ false) (others player es)
others-All player [] = tt
others-All player (e ∷ es) = ground (arith, others-All player es)

place-IsUnique :
    (e : Scored) (es : List Scored)
    → All (λ f. text_eq (owner f) (owner e) ≡ false) es
    → IsUnique es
    → IsUnique (place e es)
place-IsUnique e [] h k = (tt, tt)
place-IsUnique e (f ∷ es) h k = elim (Bool-cases (before e f)) [
  | inl first ↦ rw first (h, k)
  | inr later ↦ rw later (
    All-place (λ g. text_eq (owner g) (owner f) ≡ false) e es (text_eq_flip (owner f) (owner e) h.0)
        k.0,
    place-IsUnique e es h.1 k.1,
  )
]

different_member :
    (f e : Scored) → text_eq (owner f) (owner e) ≡ false → text_eq f.member e.member ≡ false
unfolding owner
different_member f e h = elim (Bool-cases (text_eq f.member e.member)) [
  | inl same ↦ ground (arith, text_eq_sound f.member e.member same, text_eq_refl (owner e))
  | inr other ↦ other
]

-- A new readable entry of a player whose other entries are taken out.
pub replace-IsWellFormed :
    (q : QueueEntry) (es : List Scored)
    → IsStorable q
    → IsWellFormed es
    → IsWellFormed (replace q.player_id (to_scored q) es)
replace-IsWellFormed q es s w =
    let rest = others q.player_id es in
    let v = others-IsWellFormed q.player_id es w in
    let strangers : All (λ f. text_eq (owner f) (owner (to_scored q)) ≡ false) rest =
      rw (owner-to_scored q s) (others-All q.player_id es) in
    record {
      ordered =
          place-IsOrdered (to_scored q) rest
            (All-map_imp rest (λ f h. different_member f (to_scored q) h) strangers) v.ordered;
      unique = place-IsUnique (to_scored q) rest strangers v.unique;
      readable = All-place IsReadable (to_scored q) rest (q, refl, s) v.readable;
    }
