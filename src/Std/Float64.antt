-- ===== src/Std/Float64.antt =====
-- Go's conversion of an int64 to a float64, as far as whole numbers go: the nearest number of 53
-- significant bits, and of two that are as near the one whose last bit is zero.
use overload_party_matchmaki.Prelude.{
  ℕ, zero, suc, ◌-◌, ◌*◌, ◌/◌, ◌%◌, ◌^◌, ◌≤◌, ℤ, pos, negsuc, pos_part, neg_part, IsInt64, ltb, leb,
  ◌==◌, ◌||◌, ◌&&◌, if◌then◌else◌, ◌≡◌, refl, arith,
}

-- The numbers up to which every whole number is a float64.
abbrev pub exact_limit : ℕ
exact_limit = 2 ^ 53

abbrev pub IsExact : ℤ → Type 0
IsExact a = (pos_part a ≤ exact_limit) × (neg_part a ≤ exact_limit)

pub IsExact-IsInt64 : (a : ℤ) → IsExact a → IsInt64 a
IsExact-IsInt64 a h = (omega (arith, h.0), omega (arith, h.1))

-- The multiple of the unit that is nearest.
unfoldable pub nearest : ℕ → ℕ → ℕ
nearest unit n =
    let q = n / unit in
    let r = n % unit in
    if ltb (2 * r) unit || (2 * r == unit && q % 2 == 0) then q * unit else suc q * unit

-- The least unit that leaves 53 bits; the first number is how often it may still be doubled.
unfoldable pub round_by : ℕ → ℕ → ℕ → ℕ
unfolding nearest
round_by zero unit n = nearest unit n
round_by (suc doublings) unit n =
    let rest = round_by doublings (2 * unit) n in
    if leb n (exact_limit * unit) then nearest unit n else rest

-- The units from 2 to 2 ^ 11 are enough for 64 bits.
unfoldable pub round : ℕ → ℕ
unfolding round_by
round n = if leb n exact_limit then n else round_by 10 2 n

unfoldable pub float64 : ℤ → ℤ
unfolding round
float64 (pos n) = pos (round n)
float64 (negsuc n) = if leb (suc n) exact_limit then negsuc n else negsuc (round (suc n) - 1)

pub float64-IsExact : (a : ℤ) → IsExact a → float64 a ≡ a
unfolding float64 round
float64-IsExact (pos n) h = ground (arith, h.0)
float64-IsExact (negsuc n) h = ground (arith, h.1)

-- Behind the limit the conversion loses numbers.
float64_behind : float64 (pos 9007199254740993) ≡ pos 9007199254740992
unfolding float64 round round_by nearest
float64_behind = refl

float64_tie : float64 (pos 9007199254740995) ≡ pos 9007199254740996
unfolding float64 round round_by nearest
float64_tie = refl

float64_most : float64 (pos 9223372036854775807) ≡ pos 9223372036854775808
unfolding float64 round round_by nearest
float64_most = refl

float64_negative : float64 (negsuc 9007199254740992) ≡ negsuc 9007199254740991
unfolding float64 round round_by nearest
float64_negative = refl
