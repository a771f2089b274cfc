-- ===== src/Prelude/Texts.antt =====
-- A Go `string` as the list of its bytes.
use Prim.Native.Nat.{ℕ, ◌<◌}
use Prim.Native.Char.{code}
use Prim.Native.String.{String}
use mathlib.Core.Path.{◌≡◌, refl}
use mathlib.Core.Logic.{inl, inr, ◌↔◌}
use mathlib.Core.Bool.{Bool, true, false, ◌&&◌, ◌||◌}
use mathlib.Core.List.{List, [], ◌∷◌, ◌++◌}
use native.Mathlib.Omega.{arith}
use overload_party_matchmaki.Prelude.Tests.{Bool-cases, ◌==◌, ltb, if◌then◌else◌}
use overload_party_matchmaki.Prelude.Lists.{All}

abbrev pub Text : Type 0
Text = List ℕ

-- The bytes of a literal, which is ASCII wherever it is used.
abbrev pub codes : String → Text
codes String.[] = []
codes (String.◌∷◌ c s) = code c ∷ codes s

abbrev pub IsBytes : Text → Type 0
IsBytes = All (λ b. b < 256)

unfoldable pub text_eq : Text → Text → Bool
text_eq [] [] = true
text_eq (x ∷ xs) (y ∷ ys) = (x == y) && text_eq xs ys
text_eq _ _ = false

-- The order of Redis on members with one score: byte by byte, a prefix first.
unfoldable pub text_ltb : Text → Text → Bool
text_ltb [] [] = false
text_ltb [] (y ∷ ys) = true
text_ltb (x ∷ xs) [] = false
text_ltb (x ∷ xs) (y ∷ ys) = ltb x y || ((x == y) && text_ltb xs ys)

pub text_eq_sound : (s t : Text) → text_eq s t ≡ true → s ≡ t
unfolding text_eq
text_eq_sound [] [] h = refl
text_eq_sound [] (y ∷ ys) h = cc
text_eq_sound (x ∷ xs) [] h = cc
text_eq_sound (x ∷ xs) (y ∷ ys) h = ground (arith, text_eq_sound xs ys)

pub text_eq_refl : (s : Text) → text_eq s s ≡ true
unfolding text_eq
text_eq_refl [] = refl
text_eq_refl (x ∷ xs) = ground (arith, text_eq_refl xs)

pub text_eq_iff : (s t : Text) → (text_eq s t ≡ true) ↔ (s ≡ t)
text_eq_iff s t = (text_eq_sound s t, λ e. ground (arith, text_eq_refl s))

pub text_ltb_irrefl : (s : Text) → text_ltb s s ≡ false
unfolding text_ltb
text_ltb_irrefl [] = refl
text_ltb_irrefl (x ∷ xs) = ground (arith, text_ltb_irrefl xs)

pub text_ltb_asym : (s t : Text) → text_ltb s t ≡ true → text_ltb t s ≡ false
unfolding text_ltb
text_ltb_asym [] [] h = cc
text_ltb_asym [] (y ∷ ys) h = refl
text_ltb_asym (x ∷ xs) [] h = cc
text_ltb_asym (x ∷ xs) (y ∷ ys) h = ground (arith, text_ltb_asym xs ys)

pub text_ltb_trans :
    (s t u : Text) → text_ltb s t ≡ true → text_ltb t u ≡ true → text_ltb s u ≡ true
unfolding text_ltb
text_ltb_trans [] [] u h k = cc
text_ltb_trans [] (y ∷ ys) [] h k = cc
text_ltb_trans [] (y ∷ ys) (z ∷ zs) h k = refl
text_ltb_trans (x ∷ xs) [] u h k = cc
text_ltb_trans (x ∷ xs) (y ∷ ys) [] h k = cc
text_ltb_trans (x ∷ xs) (y ∷ ys) (z ∷ zs) h k = ground (arith, text_ltb_trans xs ys zs)

-- Of two texts that differ, one is first.
pub text_ltb_total : (s t : Text) → text_eq t s ≡ false → text_ltb s t ≡ false → text_ltb t s ≡ true
unfolding text_eq text_ltb
text_ltb_total [] [] h k = cc
text_ltb_total [] (y ∷ ys) h k = cc
text_ltb_total (x ∷ xs) [] h k = refl
text_ltb_total (x ∷ xs) (y ∷ ys) h k = ground (arith, text_ltb_total xs ys)

-- `strings.Contains(s, string(b))`
unfoldable pub has_byte : ℕ → Text → Bool
has_byte b [] = false
has_byte b (c ∷ s) = (c == b) || has_byte b s

-- The text before the first `b`.
unfoldable pub before_byte : ℕ → Text → Text
before_byte b [] = []
before_byte b (c ∷ s) = if c == b then [] else c ∷ before_byte b s

pub before_byte-append :
    (b : ℕ) (s t : Text) → has_byte b s ≡ false → before_byte b (s ++ b ∷ t) ≡ s
unfolding has_byte before_byte
before_byte-append b [] t h = ground arith
before_byte-append b (c ∷ s) t h = ground (arith, before_byte-append b s t)

pub text_eq_flip : (s t : Text) → text_eq s t ≡ false → text_eq t s ≡ false
text_eq_flip s t h = elim (Bool-cases (text_eq t s)) [
  | inl same ↦ ground (arith, text_eq_sound t s same, text_eq_refl s)
  | inr other ↦ other
]
