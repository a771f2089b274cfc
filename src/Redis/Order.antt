-- ===== src/Redis/Order.antt =====
-- The order of a sorted set, and what `place` and `without` do to it.
use overload_party_matchmaki.Prelude.{
  suc, Text, text_eq, text_ltb_asym, text_ltb_trans, text_ltb_total, Bool, true, false, Bool-cases,
  inl, inr, ◌≡◌, refl, List, [], ◌∷◌, length, keep, All, All-map_imp, arith,
}
use overload_party_matchmaki.Redis.{Scored, before, without, place}

pub before_asym : (e f : Scored) → before e f ≡ true → before f e ≡ false
unfolding before
before_asym e f h = ground (arith, text_ltb_asym e.member f.member)

pub before_trans : (e f g : Scored) → before e f ≡ true → before f g ≡ true → before e g ≡ true
unfolding before
before_trans e f g h k = ground (arith, text_ltb_trans e.member f.member g.member)

pub before_total :
    (e f : Scored) → text_eq f.member e.member ≡ false → before e f ≡ false → before f e ≡ true
unfolding before
before_total e f h k = ground (arith, text_ltb_total e.member f.member)

-- Every entry comes before all that follow it: the set is in order.
abbrev pub IsOrdered : List Scored → Type 0
IsOrdered [] = Unit {0}
IsOrdered (e ∷ es) = All (λ f. before e f ≡ true) es × IsOrdered es

-- No entry holds the member.
abbrev pub Lacks : Text → List Scored → Type 0
Lacks m = All (λ e. text_eq e.member m ≡ false)

pub All-keep :
    (P : Scored → Type 0) (p : Scored → Bool) (es : List Scored) → All P es → All P (keep p es)
All-keep P p [] h = tt
All-keep P p (e ∷ es) h = ground (arith, All-keep P p es h.1)

pub keep-IsOrdered : (p : Scored → Bool) (es : List Scored) → IsOrdered es → IsOrdered (keep p es)
keep-IsOrdered p [] h = tt
keep-IsOrdered p (e ∷ es) h =
    ground (arith, keep-IsOrdered p es h.1, All-keep (λ f. before e f ≡ true) p es h.0)

pub Lacks-without : (m : Text) (es : List Scored) → Lacks m (without m es)
Lacks-without m [] = tt
Lacks-without m (e ∷ es) = ground (arith, Lacks-without m es)

pub without_absent : (m : Text) (es : List Scored) → Lacks m es → without m es ≡ es
without_absent m [] h = refl
without_absent m (e ∷ es) h = ground (arith, without_absent m es h.1)

pub All-place :
    (P : Scored → Type 0) (e : Scored) (es : List Scored) → P e → All P es → All P (place e es)
All-place P e [] h k = (h, tt)
All-place P e (f ∷ es) h k = ground (arith, All-place P e es h k.1)

pub place-IsOrdered :
    (e : Scored) (es : List Scored) → Lacks e.member es → IsOrdered es → IsOrdered (place e es)
place-IsOrdered e [] h k = (tt, tt)
place-IsOrdered e (f ∷ es) h k = elim (Bool-cases (before e f)) [
  | inl first ↦ rw first ((first, All-map_imp es (λ g q. before_trans e f g first q) k.0), k)
  | inr later ↦ rw later (
    All-place (λ g. before f g ≡ true) e es (before_total e f h.0 later) k.0,
    place-IsOrdered e es h.1 k.1,
  )
]

-- An entry that comes before all others goes to the front.
pub place_first :
    (e : Scored) (es : List Scored) → All (λ f. before e f ≡ true) es → place e es ≡ e ∷ es
place_first e [] h = refl
place_first e (f ∷ es) h = ground arith

pub length-place : (e : Scored) (es : List Scored) → length (place e es) ≡ suc (length es)
length-place e [] = refl
length-place e (f ∷ es) = ground (arith, length-place e es)
