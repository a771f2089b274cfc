-- ===== src/RedisQueue/Fairness.antt =====
-- Who is popped: the order of the queue and its players.
use overload_party_matchmaki.Prelude.{
  ◌≤◌, ◌≤ℤ◌, text_eq, true, false, ◌≡◌, sym, subst, refl, ◌∙◌, ap, List, [], ◌∷◌, length, All, ok,
  arith,
}
use overload_party_matchmaki.Domain.{QueueEntry}
use overload_party_matchmaki.Redis.{Redis, Scored, before}
use overload_party_matchmaki.RedisQueue.Scripts.{owner, or_empty}
use overload_party_matchmaki.RedisQueue.Queue.{answered, pop_pair}
use overload_party_matchmaki.RedisQueue.Effects.{waiting, instance_of}
use overload_party_matchmaki.RedisQueue.WellFormed.{
  IsWellFormed, IsStorable, to_scored, owner-to_scored,
}
use overload_party_matchmaki.RedisQueue.Restore.{pop_pair_front}

before-le : (e f : Scored) → before e f ≡ true → e.score ≤ℤ f.score
unfolding before
before-le e f h = ground arith

-- Who stays behind: everybody who joined no earlier, and none of the two.
pub record StaysBehind (a b : QueueEntry) (e : Scored) : Type 0 where
  pub later : b.joined_at ≤ℤ e.score
  pub not_first : text_eq (owner e) a.player_id ≡ false
  pub not_second : text_eq (owner e) b.player_id ≡ false

stays_behind :
    (a b : QueueEntry) (rest : List Scored)
    → All (λ e. before (to_scored b) e ≡ true) rest
    → All (λ e. text_eq (owner e) a.player_id ≡ false) rest
    → All (λ e. text_eq (owner e) b.player_id ≡ false) rest
    → All (StaysBehind a b) rest
stays_behind a b [] h k l = tt
stays_behind a b (e ∷ es) h k l = (
  record { later = before-le (to_scored b) e h.0; not_first = k.0; not_second = l.0 },
  stays_behind a b es h.1 k.1 l.1,
)

front_fair :
    (a b : QueueEntry) (rest : List Scored)
    → IsStorable a
    → IsStorable b
    → IsWellFormed (to_scored a ∷ to_scored b ∷ rest)
    → (text_eq b.player_id a.player_id ≡ false)
      × (a.joined_at ≤ℤ b.joined_at)
      × All (StaysBehind a b) rest
front_fair a b rest sa sb w =
    let away_a =
      subst (λ p. All (λ f. text_eq (owner f) p ≡ false) (to_scored b ∷ rest))
        (owner-to_scored a sa) w.unique.0 in
    let away_b =
      subst (λ p. All (λ f. text_eq (owner f) p ≡ false) rest) (owner-to_scored b sb)
        w.unique.1.0 in
    (
      subst (λ p. text_eq p a.player_id ≡ false) (owner-to_scored b sb) away_a.0,
      before-le (to_scored a) (to_scored b) w.ordered.0.0,
      stays_behind a b rest w.ordered.1.0 away_a.1 away_b,
    )

module _ (redis : Redis) where
  open redis use {Db}

  abbrev FirstTwo : Db → Type 0
  FirstTwo db =
      (a : QueueEntry) × (b : QueueEntry) × ((pop_pair redis (answered 0) db).1
        ≡ ok (a ∷ b ∷ [], or_empty (instance_of redis db)))
      × (text_eq b.player_id a.player_id ≡ false)
      × (a.joined_at ≤ℤ b.joined_at)
      × All (StaysBehind a b) (waiting redis (pop_pair redis (answered 0) db).0)
      × (waiting redis db
          ≡ to_scored a ∷ to_scored b ∷ waiting redis (pop_pair redis (answered 0) db).0)

  first_two :
      (db : Db) (es : List Scored)
      → waiting redis db ≡ es
      → IsWellFormed es
      → 2 ≤ length es
      → FirstTwo db
  first_two db [] e w h = absurd (omega arith)
  first_two db (x ∷ []) e w h = absurd (omega arith)
  first_two db (x ∷ y ∷ rest) e w h =
      let (a, ea, sa) = w.readable.0 in
      let (b, eb, sb) = w.readable.1.0 in
      let v : IsWellFormed (to_scored a ∷ to_scored b ∷ rest) =
        subst (λ u. IsWellFormed (to_scored a ∷ u ∷ rest)) eb
          (subst (λ u. IsWellFormed (u ∷ y ∷ rest)) ea w) in
      let front = e ∙ ap (λ u. u ∷ y ∷ rest) ea ∙ ap (λ u. to_scored a ∷ u ∷ rest) eb in
      let (answer, left, same) = pop_pair_front redis db a b rest sa sb front in
      let (different, in_order, behind) = front_fair a b rest sa sb v in
      (
        a,
        b,
        answer,
        different,
        in_order,
        subst (All (StaysBehind a b)) (sym left) behind,
        front ∙ ap (λ u. to_scored a ∷ to_scored b ∷ u) (sym left),
      )

  -- PopPair is fair: from a well-formed queue of two or more entries it takes two different players, the
  -- first of whom joined no later than the second, and the second no later than anyone who stays
  -- behind; what stays holds no entry of the two, and is all of the queue behind the two, in its order.
  pub pop_pair-first_two :
      (db : Db)
      → IsWellFormed (waiting redis db)
      → 2 ≤ length (waiting redis db)
      → (a : QueueEntry) × (b : QueueEntry) × ((pop_pair redis (answered 0) db).1
          ≡ ok (a ∷ b ∷ [], or_empty (instance_of redis db)))
        × (text_eq b.player_id a.player_id ≡ false)
        × (a.joined_at ≤ℤ b.joined_at)
        × All (StaysBehind a b) (waiting redis (pop_pair redis (answered 0) db).0)
        × (waiting redis db
            ≡ to_scored a ∷ to_scored b ∷ waiting redis (pop_pair redis (answered 0) db).0)
  pop_pair-first_two db w h = first_two db (waiting redis db) refl w h
