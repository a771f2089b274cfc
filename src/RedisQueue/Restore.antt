-- ===== src/RedisQueue/Restore.antt =====
-- PopPair, and Reenqueue behind it.
use overload_party_matchmaki.Prelude.{
  ℕ, suc, ◌≤◌, Text, text_eq, text_eq_refl, text_eq_flip, subst, true, false, ltb, ◌≡◌, refl, sym,
  ◌∙◌, ap, List, [], ◌∷◌, map, length, All, ok, arith,
}
use overload_party_matchmaki.Domain.{QueueEntry}
use overload_party_matchmaki.Redis.{Redis, Scored, before}
use overload_party_matchmaki.Redis.Order.{place_first, before_asym}
use overload_party_matchmaki.Std.Decimal.{parse_int-format_int}
use overload_party_matchmaki.Std.Float64.{IsExact-IsInt64, float64-IsExact}
use overload_party_matchmaki.RedisQueue.Member.{
  decode_member-encode_member, validate_member_player_id_ok,
}
use overload_party_matchmaki.RedisQueue.Scripts.{owner, or_empty, flatten_scored}
use overload_party_matchmaki.RedisQueue.Queue.{
  answered, decode_pairs, decode_reply, to_entry, pop_pair, reenqueue, entry_args,
}
use overload_party_matchmaki.RedisQueue.Purge.{others}
use overload_party_matchmaki.RedisQueue.Effects.{
  waiting, instance_of, replace, replace_all, waiting-pop_pair_script, instance_of-pop_pair_script,
  pop_pair_script_reply, waiting-reenqueue_script, reenqueue_script_reply,
}
use overload_party_matchmaki.RedisQueue.WellFormed.{
  IsWellFormed, IsStorable, IsReadable, to_scored, owner-to_scored,
}
use overload_party_matchmaki.RedisQueue.Invariant.{args_of, Owned-args_of, replace_all-args_of}

-- A list with no entry of the player loses none.
others_none :
    (player : Text) (es : List Scored)
    → All (λ f. text_eq (owner f) player ≡ false) es
    → others player es ≡ es
others_none player [] h = refl
others_none player (e ∷ es) h = ground (arith, others_none player es h.1)

-- An entry goes back to the front of a queue whose entries all come after it and are others'.
replace_first :
    (q : QueueEntry) (es : List Scored)
    → All (λ f. before (to_scored q) f ≡ true) es
    → All (λ f. text_eq (owner f) q.player_id ≡ false) es
    → replace q.player_id (to_scored q) es ≡ to_scored q ∷ es
replace_first q es h k = rw (others_none q.player_id es k) (place_first (to_scored q) es h)

replace_second :
    (a b : QueueEntry) (es : List Scored)
    → before (to_scored a) (to_scored b) ≡ true
    → text_eq (owner (to_scored a)) b.player_id ≡ false
    → All (λ f. before (to_scored b) f ≡ true) es
    → All (λ f. text_eq (owner f) b.player_id ≡ false) es
    → replace b.player_id (to_scored b) (to_scored a ∷ es) ≡ to_scored a ∷ to_scored b ∷ es
replace_second a b es first other h k =
    ground (arith, before_asym (to_scored a) (to_scored b) first, replace_first b es h k)

-- The front pair put back in its order.
replace_pair :
    (a b : QueueEntry) (es : List Scored)
    → IsStorable a
    → IsStorable b
    → IsWellFormed (to_scored a ∷ to_scored b ∷ es)
    → replace_all (map args_of (a ∷ b ∷ [])) es ≡ to_scored a ∷ to_scored b ∷ es
replace_pair a b es sa sb w =
    replace_all-args_of a (b ∷ []) es sa
    ∙ replace_all-args_of b [] (replace a.player_id (to_scored a) es) sb
    ∙ rw
        (replace_first a es w.ordered.0.1 (
          subst (λ p. All (λ f. text_eq (owner f) p ≡ false) es) (owner-to_scored a sa)
            w.unique.0.1))
        (replace_second a b es w.ordered.0.0
          (text_eq_flip b.player_id (owner (to_scored a)) (
            subst (λ p. text_eq p (owner (to_scored a)) ≡ false) (owner-to_scored b sb)
              w.unique.0.0))
          w.ordered.1.0
          (subst (λ p. All (λ f. text_eq (owner f) p ≡ false) es) (owner-to_scored b sb)
            w.unique.1.0))

two_or_more : (n : ℕ) → ltb (suc (suc n)) 2 ≡ false
two_or_more n = ground arith

module _ (redis : Redis) where
  open redis use {Db, score_text, score_text-format_int}

  -- A stored entry at the front of a reply is read back.
  decode_one :
      (q : QueueEntry) (raw : List Text) (qs : List QueueEntry)
      → IsStorable q
      → decode_pairs raw ≡ ok qs
      → decode_pairs ((to_scored q).member ∷ score_text q.joined_at ∷ raw) ≡ ok (q ∷ qs)
  unfolding decode_pairs to_entry
  decode_one q raw qs s h = rw (
    score_text-format_int q.joined_at s.joined_fits,
    parse_int-format_int q.joined_at (IsExact-IsInt64 q.joined_at s.joined_fits),
    decode_member-encode_member q.player_id q.deck_id q.level q.name
        (validate_member_player_id_ok q.player_id s.accepted).1 s.deck_fits s.level_fits
        s.name_bytes,
    h,
  )

  decode_two :
      (a b : QueueEntry) (id : Text)
      → IsStorable a
      → IsStorable b
      → decode_reply (id ∷ flatten_scored redis (to_scored a ∷ to_scored b ∷ []))
        ≡ ok (a ∷ b ∷ [], id)
  unfolding decode_reply flatten_scored decode_pairs
  decode_two a b id sa sb = rw (decode_one a _ (b ∷ []) sa (decode_one b [] [] sb refl))

  -- What PopPair answers from a queue with two entries in front, and what it leaves.
  pub pop_pair_front :
      (db : Db) (a b : QueueEntry) (rest : List Scored)
      → IsStorable a
      → IsStorable b
      → waiting redis db ≡ to_scored a ∷ to_scored b ∷ rest
      → ((pop_pair redis (answered 0) db).1 ≡ ok (a ∷ b ∷ [], or_empty (instance_of redis db)))
        × (waiting redis (pop_pair redis (answered 0) db).0 ≡ rest)
        × (instance_of redis (pop_pair redis (answered 0) db).0 ≡ instance_of redis db)
  unfolding pop_pair
  pop_pair_front db a b rest sa sb e = (
    rw (pop_pair_script_reply redis db, e, two_or_more (length rest)) (decode_two a b _ sa sb),
    waiting-pop_pair_script redis db ∙ rw (e, two_or_more (length rest)),
    instance_of-pop_pair_script redis db,
  )

  entry_args_pair :
      (a b : QueueEntry)
      → IsStorable a
      → IsStorable b
      → entry_args (a ∷ b ∷ []) ≡ ok (map args_of (a ∷ b ∷ []))
  unfolding entry_args
  entry_args_pair a b sa sb =
      rw
        (
          sa.accepted,
          sb.accepted,
          float64-IsExact a.joined_at sa.joined_fits,
          float64-IsExact b.joined_at sb.joined_fits,
        )
        refl

  -- Reenqueue of a pair under the stored instance writes both entries.
  reenqueue_pair :
      (db : Db) (a b : QueueEntry) (id : Text)
      → IsStorable a
      → IsStorable b
      → or_empty (instance_of redis db) ≡ id
      → ((reenqueue redis (answered 0) (a ∷ b ∷ []) id db).1 ≡ ok true)
        × (waiting redis (reenqueue redis (answered 0) (a ∷ b ∷ []) id db).0
            ≡ replace_all (map args_of (a ∷ b ∷ [])) (waiting redis db))
  unfolding reenqueue
  reenqueue_pair db a b id sa sb e =
      rw (entry_args_pair a b sa sb, reenqueue)
        (
          rw (reenqueue_script_reply redis id (map args_of (a ∷ b ∷ [])) db, e, text_eq_refl id),
          waiting-reenqueue_script redis id (map args_of (a ∷ b ∷ [])) db
                (Owned-args_of (a ∷ b ∷ []) (sa, (sb, tt)))
              ∙ rw (e, text_eq_refl id),
        )

  -- What a pop and the write-back behind it do to a database, for the pair `a`, `b` in front.
  pub record IsRestored (db : Db) (a b : QueueEntry) (rest : List Scored) : Type 0 where
    -- PopPair answers the two entries in front, as they were stored, and the stored instance.
    pub answer :
        (pop_pair redis (answered 0) db).1 ≡ ok (a ∷ b ∷ [], or_empty (instance_of redis db))
    -- It leaves the others.
    pub popped : waiting redis (pop_pair redis (answered 0) db).0 ≡ rest
    -- Reenqueue with the answer succeeds, and the queue is the one before the pop.
    pub written :
        (reenqueue redis
          (answered 0)
          (a ∷ b ∷ [])
          (or_empty (instance_of redis db))
          (pop_pair redis (answered 0) db).0).1
        ≡ ok true
    pub restored :
        waiting redis
          (reenqueue redis
            (answered 0)
            (a ∷ b ∷ [])
            (or_empty (instance_of redis db))
            (pop_pair redis (answered 0) db).0).0
        ≡ waiting redis db

  restore_front :
      (db : Db) (a b : QueueEntry) (rest : List Scored)
      → IsStorable a
      → IsStorable b
      → waiting redis db ≡ to_scored a ∷ to_scored b ∷ rest
      → IsWellFormed (waiting redis db)
      → IsRestored db a b rest
  restore_front db a b rest sa sb e w =
      let (answer, popped, same) = pop_pair_front db a b rest sa sb e in
      let after = (pop_pair redis (answered 0) db).0 in
      let (written, put) =
        reenqueue_pair after a b (or_empty (instance_of redis db)) sa sb (ap or_empty same) in
      record {
        answer = answer;
        popped = popped;
        written = written;
        restored =
            put
            ∙ ap (replace_all (map args_of (a ∷ b ∷ []))) popped
            ∙ replace_pair a b rest sa sb (subst IsWellFormed e w)
            ∙ sym e;
      }

  -- From a well-formed queue of two or more entries, PopPair answers exactly the two entries that
  -- come first, with all their fields, and leaves the others; and a Reenqueue of what it answered,
  -- with no call in between, brings the queue back as it was, entry by entry.
  pub pop_pair-reenqueue :
      (db : Db)
      → IsWellFormed (waiting redis db)
      → 2 ≤ length (waiting redis db)
      → (a : QueueEntry) × (b : QueueEntry) × (rest : List Scored) × (waiting redis db
          ≡ to_scored a ∷ to_scored b ∷ rest)
        × IsRestored db a b rest
  pop_pair-reenqueue db w h = go (waiting redis db) refl
    where
      go :
          (es : List Scored)
          → waiting redis db ≡ es
          → (a : QueueEntry) × (b : QueueEntry) × (rest : List Scored) × (waiting redis db
              ≡ to_scored a ∷ to_scored b ∷ rest)
            × IsRestored db a b rest
      go [] e = absurd (omega (arith, ap length e))
      go (x ∷ []) e = absurd (omega (arith, ap length e))
      go (x ∷ y ∷ rest) e =
          let r = subst (λ es. All IsReadable es) e w.readable in
          let front : waiting redis db ≡ to_scored r.0.0 ∷ to_scored r.1.0.0 ∷ rest =
            rw (e, r.0.1, r.1.0.1) in
          (r.0.0, r.1.0.0, rest, front, restore_front db r.0.0 r.1.0.0 rest r.0.2 r.1.0.2 front w)
