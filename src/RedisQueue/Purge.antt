-- ===== src/RedisQueue/Purge.antt =====
-- remove_player_entries.lua: what the shared loop leaves of the queue.
use overload_party_matchmaki.Prelude.{
  ℕ, ◌+◌, Text, text_eq, text_eq_sound, text_eq_refl, Bool, true, false, not, ◌||◌, ◌≡◌, refl, sym,
  ◌∙◌, ap, List, [], ◌∷◌, length, keep, All, Bool-cases, inl, inr, arith, if◌then◌else◌,
}
use overload_party_matchmaki.Redis.{Redis, Scored, without}
use overload_party_matchmaki.Redis.Laws.{zrange-zrem_self}
use overload_party_matchmaki.RedisQueue.Scripts.{owner, remove_loop, remove_player_entries}

-- The entries of all players but one, and of that one.
abbrev pub others : Text → List Scored → List Scored
others player = keep (λ e. not (text_eq (owner e) player))

abbrev pub owned : Text → List Scored → List Scored
owned player = keep (λ e. text_eq (owner e) player)

-- The member is the member of an entry.
holds : Text → List Scored → Bool
holds m [] = false
holds m (e ∷ es) = text_eq m e.member || holds m es

-- Each entry of the player is an entry of the second list.
abbrev IsCovered : Text → List Scored → List Scored → Type 0
IsCovered player es ds = All (λ e. text_eq (owner e) player ≡ true → holds e.member ds ≡ true) es

IsCovered-nil : (player : Text) (es : List Scored) → IsCovered player es [] → others player es ≡ es
unfolding holds
IsCovered-nil player [] h = refl
IsCovered-nil player (e ∷ es) h = ground (arith, h.0, IsCovered-nil player es h.1)

IsCovered-cons :
    (player : Text) (d : Scored) (es ds : List Scored)
    → IsCovered player es ds
    → IsCovered player es (d ∷ ds)
unfolding holds
IsCovered-cons player d [] ds h = tt
IsCovered-cons player d (e ∷ es) ds h =
    (λ o. ground (arith, h.0 o), IsCovered-cons player d es ds h.1)

IsCovered-self : (player : Text) (es : List Scored) → IsCovered player es es
unfolding holds
IsCovered-self player [] = tt
IsCovered-self player (e ∷ es) = (
  λ o. ground (arith, text_eq_refl e.member),
  IsCovered-cons player e es es (IsCovered-self player es),
)

same_owner : (e d : Scored) → text_eq e.member d.member ≡ true → owner e ≡ owner d
unfolding owner
same_owner e d h = ground (arith, text_eq_sound e.member d.member)

IsCovered-skip :
    (player : Text) (d : Scored) (es ds : List Scored)
    → text_eq (owner d) player ≡ false
    → IsCovered player es (d ∷ ds)
    → IsCovered player es ds
unfolding holds
IsCovered-skip player d [] ds n h = tt
IsCovered-skip player d (e ∷ es) ds n h =
    (λ o. ground (arith, h.0 o, same_owner e d), IsCovered-skip player d es ds n h.1)

IsCovered-without :
    (player : Text) (d : Scored) (es ds : List Scored)
    → IsCovered player es (d ∷ ds)
    → IsCovered player (without d.member es) ds
unfolding holds
IsCovered-without player d [] ds h = tt
IsCovered-without player d (e ∷ es) ds h = elim (Bool-cases (text_eq e.member d.member)) [
  | inl same ↦ rw same (IsCovered-without player d es ds h.1)
  | inr other ↦ rw other (λ o. ground (arith, h.0 o), IsCovered-without player d es ds h.1)
]

others-without :
    (player : Text) (d : Scored) (es : List Scored)
    → text_eq (owner d) player ≡ true
    → others player (without d.member es) ≡ others player es
others-without player d [] o = refl
others-without player d (e ∷ es) o = ground (arith, same_owner e d, others-without player d es o)

-- The loop on the entries alone.
purge : Text → List Scored → List Scored → List Scored
purge player [] es = es
purge player (d ∷ ds) es =
    purge player ds (if text_eq (owner d) player then without d.member es else es)

purge-others :
    (player : Text) (ds es : List Scored)
    → IsCovered player es ds
    → purge player ds es ≡ others player es
unfolding purge
purge-others player [] es h = sym (IsCovered-nil player es h)
purge-others player (d ∷ ds) es h = elim (Bool-cases (text_eq (owner d) player)) [
  | inl mine ↦ rw mine (
      purge-others player ds (without d.member es) (IsCovered-without player d es ds h)
      ∙ others-without player d es mine)
  | inr other ↦ rw other (purge-others player ds es (IsCovered-skip player d es ds other h))
]

module _ (redis : Redis) where
  open redis use {Db, zrange, get, zrem, zrange-zrem, get-zrem, zrem_count}

  zrange-remove_loop :
      (db : Db) (key player : Text) (ds : List Scored) (n : ℕ)
      → zrange (remove_loop redis db key player ds n).0 key ≡ purge player ds (zrange db key)
  unfolding remove_loop purge
  zrange-remove_loop db key player [] n = refl
  zrange-remove_loop db key player (d ∷ ds) n = elim (Bool-cases (text_eq (owner d) player)) [
    | inl mine ↦
        rw (mine, remove_loop)
          (zrange-remove_loop (zrem db key d.member).0 key player ds (n + (zrem db key d.member).1)
            ∙ ap (purge player ds) (zrange-zrem_self redis db key d.member))
    | inr other ↦ rw (other, remove_loop) (zrange-remove_loop db key player ds n)
  ]

  get-remove_loop :
      (db : Db) (key player j : Text) (ds : List Scored) (n : ℕ)
      → get (remove_loop redis db key player ds n).0 j ≡ get db j
  unfolding remove_loop
  get-remove_loop db key player j [] n = refl
  get-remove_loop db key player j (d ∷ ds) n = elim (Bool-cases (text_eq (owner d) player)) [
    | inl mine ↦
        rw (mine, remove_loop)
          (get-remove_loop (zrem db key d.member).0 key player j ds (n + (zrem db key d.member).1)
            ∙ get-zrem db key j d.member)
    | inr other ↦ rw (other, remove_loop) (get-remove_loop db key player j ds n)
  ]

  remove_loop_count :
      (db : Db) (key player : Text) (ds : List Scored) (n : ℕ)
      → (remove_loop redis db key player ds n).1
          + length (zrange (remove_loop redis db key player ds n).0 key)
        ≡ n + length (zrange db key)
  unfolding remove_loop
  remove_loop_count db key player [] n = refl
  remove_loop_count db key player (d ∷ ds) n = elim (Bool-cases (text_eq (owner d) player)) [
    | inl mine ↦
        rw (mine, remove_loop)
          (remove_loop_count (zrem db key d.member).0 key player ds (n + (zrem db key d.member).1)
            ∙ omega (
              arith,
              zrem_count db key d.member,
              ap length (zrange-zrem_self redis db key d.member),
            ))
    | inr other ↦ rw (other, remove_loop) (remove_loop_count db key player ds n)
  ]

  -- removePlayerEntries leaves exactly the entries of the other players, in their order.
  pub zrange-remove_player_entries :
      (db : Db) (key player : Text)
      → zrange (remove_player_entries redis db key player).0 key ≡ others player (zrange db key)
  unfolding remove_player_entries
  zrange-remove_player_entries db key player =
      zrange-remove_loop db key player (zrange db key) 0
      ∙ purge-others player (zrange db key) (zrange db key) (IsCovered-self player (zrange db key))

  pub get-remove_player_entries :
      (db : Db) (key player j : Text)
      → get (remove_player_entries redis db key player).0 j ≡ get db j
  unfolding remove_player_entries
  get-remove_player_entries db key player j = get-remove_loop db key player j (zrange db key) 0

  -- The result of removePlayerEntries is the number of entries that it removed: with the entries of the
  -- other players it adds up to all entries before.
  pub remove_player_entries_count :
      (db : Db) (key player : Text)
      → (remove_player_entries redis db key player).1 + length (others player (zrange db key))
        ≡ length (zrange db key)
  unfolding remove_player_entries
  remove_player_entries_count db key player = omega (
    arith,
    remove_loop_count db key player (zrange db key) 0,
    ap length (zrange-remove_player_entries db key player),
  )
