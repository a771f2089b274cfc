-- ===== src/RedisQueue/Refinement/Told.antt =====
-- Who waits in the database of redis_queue.go, as a caller can tell from the calls and their answers.
use overload_party_matchmaki.Prelude.{
  Text, text_eq, Bool, false, ◌||◌, ◌≡◌, refl, sym, ap, ◌∙◌, List, [], ◌∷◌, map, All, arith,
}
use overload_party_matchmaki.Domain.{QueueEntry}
use overload_party_matchmaki.Redis.{Redis, Scored}
use overload_party_matchmaki.RedisQueue.Scripts.{owner}
use overload_party_matchmaki.RedisQueue.Effects.{waiting, instance_of}
use overload_party_matchmaki.RedisQueue.WellFormed.{
  IsStorable, IsReadable, IsUnique, IsWellFormed, to_scored, owner-to_scored,
}
use overload_party_matchmaki.RedisQueue.Room.{Room, Ask, is_waiting, ask_room_all}
use overload_party_matchmaki.RedisQueue.Room.Presence.{told_all, IsDistinct, told_all-ask_room_all}
use overload_party_matchmaki.RedisQueue.Refinement.{
  IsPlainAsk, ask_redis_all, ask_redis_all-refines,
}

-- Whether a player has an entry in the sorted set.
abbrev pub has_entry : Text → List Scored → Bool
has_entry p [] = false
has_entry p (e ∷ es) = text_eq (owner e) p || has_entry p es

has_entry-map :
    (p : Text) (qs : List QueueEntry)
    → All IsStorable qs
    → has_entry p (map to_scored qs) ≡ is_waiting p qs
has_entry-map p [] s = refl
has_entry-map p (q ∷ qs) s = rw (owner-to_scored q s.0, has_entry-map p qs s.1) refl

-- The queue entries behind a sorted set.
pub read_back :
    (es : List Scored)
    → All IsReadable es
    → (qs : List QueueEntry) × (es ≡ map to_scored qs) × All IsStorable qs
read_back [] h = ([], refl, tt)
read_back (e ∷ es) ((q, same, storable), h) =
    let (qs, rest, all) = read_back es h in (q ∷ qs, rw (same, rest) refl, (storable, all))

absent :
    (q : QueueEntry) (qs : List QueueEntry)
    → IsStorable q
    → All IsStorable qs
    → All (λ f. text_eq (owner f) (owner (to_scored q)) ≡ false) (map to_scored qs)
    → is_waiting q.player_id qs ≡ false
absent q [] s t h = refl
absent q (e ∷ qs) s t h =
    ground (arith, absent q qs s t.1 h.1, h.0, owner-to_scored q s, owner-to_scored e t.0)

unique-IsDistinct :
    (qs : List QueueEntry) → All IsStorable qs → IsUnique (map to_scored qs) → IsDistinct qs
unique-IsDistinct [] s h = tt
unique-IsDistinct (q ∷ qs) s h = (absent q qs s.0 s.1 h.0, unique-IsDistinct qs s.1 h.1)

module _ (redis : Redis) where
  open redis use {Db}

  -- The calls and their answers say who waits: from a well-formed queue, after any sequence of calls in
  -- any order, with int64 numbers, times within 2 ^ 53 milliseconds of 1970, byte names and any players,
  -- and with replies that arrive, a player has an entry in Redis exactly if the last call that was
  -- about the player put it there, or, with no such call, if the player had one before. An answered
  -- Enqueue of the player and a Reenqueue of it that answers true put it there; an answered Cancel of
  -- the player, a PopPair that answers it, and an answered Enqueue of anyone by another instance take
  -- it away; no other call does anything to it.
  pub told_all-ask_redis_all :
      (p : Text) (asks : List Ask) (db : Db)
      → All IsPlainAsk asks
      → IsWellFormed (waiting redis db)
      → has_entry p (waiting redis (ask_redis_all redis asks db).0)
        ≡ (told_all p asks
            (ask_redis_all redis asks db).1
            (instance_of redis db, has_entry p (waiting redis db))).1
  told_all-ask_redis_all p asks db plain w =
      let (qs, stored, storable) = read_back (waiting redis db) w.readable in
      let r : Room = record { instance_id = instance_of redis db; entries = qs } in
      let distinct = unique-IsDistinct qs storable (rw⁻¹ stored w.unique) in
      let (held, same) =
        ask_redis_all-refines redis asks db r plain
          (record { stored = stored; instance_same = refl; storable = storable }) in
      let before : has_entry p (waiting redis db) ≡ is_waiting p qs =
        ap (has_entry p) stored ∙ has_entry-map p qs storable in
      let after : has_entry p (waiting redis (ask_redis_all redis asks db).0)
          ≡ is_waiting p (ask_room_all asks r).0.entries =
        ap (has_entry p) held.stored ∙ has_entry-map p _ held.storable in
      after ∙ sym (ap (λ x. x.1) (told_all-ask_room_all p asks r distinct)) ∙ rw (before, same) refl
