-- ===== src/RedisQueue/Room/Lists.antt =====
-- The lists of the room against the sorted set that stores them.
use overload_party_matchmaki.Prelude.{
  ℕ, ◌+◌, Text, text_eq, not, ltb, ◌≡◌, refl, ◌∙◌, ap, List, [], ◌∷◌, map, length, length-keep-le,
  All, none, some, ok, err, Result-cases, inl, inr, arith,
}
use overload_party_matchmaki.Domain.{QueueEntry}
use overload_party_matchmaki.Redis.{place}
use overload_party_matchmaki.RedisQueue.Member.{QueueError, validate_member_player_id}
use overload_party_matchmaki.RedisQueue.Queue.{entry_args}
use overload_party_matchmaki.RedisQueue.Purge.{others}
use overload_party_matchmaki.RedisQueue.Effects.{replace, replace_all}
use overload_party_matchmaki.RedisQueue.WellFormed.{IsStorable, to_scored, owner-to_scored}
use overload_party_matchmaki.RedisQueue.Invariant.{
  IsPlain, IsPlain-IsStorable, args_of, replace_all-args_of, float64-joined_at,
}
use overload_party_matchmaki.RedisQueue.Room.{
  take_out, is_waiting, line_up, join, join_all, first_refused,
}

-- The list operations of the scripts are those of the room.
pub others-map :
    (player : Text) (es : List QueueEntry)
    → All IsStorable es
    → others player (map to_scored es) ≡ map to_scored (take_out player es)
others-map player [] s = refl
others-map player (e ∷ es) s = ground (arith, others-map player es s.1, owner-to_scored e s.0)

pub place-map :
    (q : QueueEntry) (es : List QueueEntry)
    → place (to_scored q) (map to_scored es) ≡ map to_scored (line_up q es)
place-map q [] = refl
place-map q (e ∷ es) = ground (arith, place-map q es)

pub take_out-All :
    (player : Text) (es : List QueueEntry) → All IsStorable es → All IsStorable (take_out player es)
take_out-All player [] s = tt
take_out-All player (e ∷ es) s = ground (arith, take_out-All player es s.1)

pub line_up-All :
    (q : QueueEntry) (es : List QueueEntry)
    → IsStorable q
    → All IsStorable es
    → All IsStorable (line_up q es)
line_up-All q [] h s = (h, tt)
line_up-All q (e ∷ es) h s = ground (arith, line_up-All q es h s.1)

pub join-All :
    (q : QueueEntry) (es : List QueueEntry)
    → IsStorable q
    → All IsStorable es
    → All IsStorable (join q es)
join-All q es h s = line_up-All q _ h (take_out-All q.player_id es s)

pub join_all-All :
    (qs es : List QueueEntry)
    → All IsStorable qs
    → All IsStorable es
    → All IsStorable (join_all qs es)
join_all-All [] es h s = s
join_all-All (q ∷ qs) es h s = join_all-All qs _ h.1 (join-All q es h.0 s)

pub replace-map :
    (q : QueueEntry) (es : List QueueEntry)
    → All IsStorable es
    → replace q.player_id (to_scored q) (map to_scored es) ≡ map to_scored (join q es)
replace-map q es s = rw (others-map q.player_id es s) (place-map q (take_out q.player_id es))

pub replace_all-map :
    (qs es : List QueueEntry)
    → All IsStorable qs
    → All IsStorable es
    → replace_all (map args_of qs) (map to_scored es) ≡ map to_scored (join_all qs es)
replace_all-map [] es h s = refl
replace_all-map (q ∷ qs) es h s =
    replace_all-args_of q qs (map to_scored es) h.0
    ∙ ap (replace_all (map args_of qs)) (replace-map q es s)
    ∙ replace_all-map qs _ h.1 (join-All q es h.0 s)

-- Somebody waits exactly if taking out shortens the list.
pub take_out_count :
    (player : Text) (es : List QueueEntry) (n : ℕ)
    → n + length (take_out player es) ≡ length es
    → ltb 0 n ≡ is_waiting player es
take_out_count player [] n h = ground arith
take_out_count player (e ∷ es) n h = ground (
  arith,
  take_out_count player es n,
  length-keep-le (λ (f : QueueEntry). not (text_eq f.player_id player)) es,
)

pub entry_args_refused :
    (qs : List QueueEntry) (e : QueueError) → first_refused qs ≡ some e → entry_args qs ≡ err e
unfolding entry_args
entry_args_refused [] e h = cc
entry_args_refused (q ∷ qs) e h = elim (Result-cases (validate_member_player_id q.player_id)) [
  | inl (f, no_place) ↦ ground (arith, no_place)
  | inr (_, accepted) ↦ ground (arith, accepted, entry_args_refused qs e)
]

pub entry_args-none :
    (qs : List QueueEntry)
    → All IsPlain qs
    → first_refused qs ≡ none
    → (entry_args qs ≡ ok (map args_of qs)) × All IsStorable qs
unfolding entry_args
entry_args-none [] p h = (refl, tt)
entry_args-none (q ∷ qs) p h = elim (Result-cases (validate_member_player_id q.player_id)) [
  | inl (f, no_place) ↦ absurd (ground (arith, no_place))
  | inr (_, accepted) ↦
      let (found, storable) = entry_args-none qs p.1 (ground (arith, accepted)) in
      (
        ground (arith, accepted, found, float64-joined_at q p.0),
        (IsPlain-IsStorable q p.0 accepted, storable),
      )
]
