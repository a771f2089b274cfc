-- ===== src/Std/Strings.antt =====
-- `strings.SplitN` with a separator of one byte, and the test `strings.TrimSpace(s) == ""`.
use overload_party_matchmaki.Prelude.{
  ℕ, zero, suc, Text, has_byte, Bool, true, false, ◌||◌, ◌&&◌, ◌==◌, leb, if◌then◌else◌, ◌≡◌, refl,
  List, [], ◌∷◌, ◌++◌, Option, none, some, arith,
}

-- The text on both sides of the first `b`.
abbrev pub grow : ℕ → Option (Text × Text) → Option (Text × Text)
grow c none = none
grow c (some (s, t)) = some (c ∷ s, t)

unfoldable pub cut : ℕ → Text → Option (Text × Text)
cut b [] = none
cut b (c ∷ s) = if c == b then some ([], s) else grow c (cut b s)

-- At most `n` parts; the last one is what is left.
unfoldable pub split_n : ℕ → Text → ℕ → List Text
unfolding cut
split_n b s zero = []
split_n b s (suc zero) = s ∷ []
split_n b s (suc (suc n)) = elim (cut b s) [
  | none ↦ s ∷ []
  | some (part, rest) ↦ part ∷ split_n b rest (suc n)
]

pub cut-append : (b : ℕ) (s t : Text) → has_byte b s ≡ false → cut b (s ++ b ∷ t) ≡ some (s, t)
unfolding has_byte cut
cut-append b [] t h = ground arith
cut-append b (c ∷ s) t h = ground (arith, cut-append b s t)

-- `strings.TrimSpace(s) == ""`: the text is made of white space only, in UTF-8. White space is
-- what `unicode.IsSpace` says: U+0009 to U+000D, U+0020, U+0085, U+00A0, U+1680, U+2000 to U+200A,
-- U+2028, U+2029, U+202F, U+205F and U+3000.
is_space_1 : ℕ → Bool
is_space_1 a = (leb 9 a && leb a 13) || (a == 32)

is_space_2 : ℕ → ℕ → Bool
is_space_2 a b = (a == 0xc2) && ((b == 0x85) || (b == 0xa0))

is_space_3 : ℕ → ℕ → ℕ → Bool
is_space_3 a b c =
    ((a == 0xe1) && (b == 0x9a) && (c == 0x80))
    || ((a == 0xe2)
        && (b == 0x80)
        && ((leb 0x80 c && leb c 0x8a) || (c == 0xa8) || (c == 0xa9) || (c == 0xaf)))
    || ((a == 0xe2) && (b == 0x81) && (c == 0x9f))
    || ((a == 0xe3) && (b == 0x80) && (c == 0x80))

unfoldable pub is_blank : Text → Bool
unfolding is_space_1 is_space_2 is_space_3
is_blank [] = true
is_blank (a ∷ []) = is_space_1 a
is_blank (a ∷ b ∷ []) = (is_space_1 a && is_blank (b ∷ [])) || is_space_2 a b
is_blank (a ∷ b ∷ c ∷ s) =
    (is_space_1 a && is_blank (b ∷ c ∷ s))
    || (is_space_2 a b && is_blank (c ∷ s))
    || (is_space_3 a b c && is_blank s)

pub is_blank-empty : is_blank [] ≡ true
unfolding is_blank
is_blank-empty = refl

-- One separator with no earlier one splits a part off.
pub split_n-append :
    (b : ℕ) (s t : Text) (n : ℕ)
    → has_byte b s ≡ false
    → split_n b (s ++ b ∷ t) (suc (suc n)) ≡ s ∷ split_n b t (suc n)
unfolding split_n
split_n-append b s t n h = ground (arith, cut-append b s t h)
