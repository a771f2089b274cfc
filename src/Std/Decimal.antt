-- ===== src/Std/Decimal.antt =====
-- `%d` of `fmt`, and `strconv.ParseInt` and `strconv.Atoi` in base ten for 64 bits.
use overload_party_matchmaki.Prelude.{
  ℕ, zero, suc, ◌+◌, ◌-◌, ◌*◌, ◌/◌, ◌%◌, ◌^◌, ◌≤◌, ◌<◌, ℤ, pos, negsuc, IsInt64, Text, has_byte,
  Bool, true, false, ◌||◌, ◌==◌, ltb, leb, if◌then◌else◌, ◌≡◌, refl, [], ◌∷◌, Result, ok, err,
  arith,
}

-- The two causes of a `*strconv.NumError`.
pub data NumError : Type 0 where
  syntax_error range_error : NumError

-- The digits of `n` in front of `out`. Twenty rounds are enough for any number below 10 ^ 20.
digits : ℕ → ℕ → Text → Text
digits zero n out = out
digits (suc fuel) n out =
    let rest = digits fuel (n / 10) ((b'0' + n % 10) ∷ out) in if n == 0 then out else rest

pub format_nat : ℕ → Text
unfolding digits
format_nat n = if n == 0 then b'0' ∷ [] else digits 20 n []

unfoldable pub format_int : ℤ → Text
unfolding format_nat
format_int (pos n) = format_nat n
format_int (negsuc n) = b'-' ∷ format_nat (suc n)

-- The loop of `strconv.ParseUint` over the digits, behind the value `n` read so far.
scan : Text → ℕ → Result NumError ℕ
scan [] n = ok n
scan (c ∷ s) n =
    let m = n * 10 + (c - b'0') in
    if ltb c b'0' || ltb b'9' c
    then err syntax_error
    else if leb (2 ^ 64) m
    then err range_error
    else scan s m

pub parse_uint : Text → Result NumError ℕ
unfolding scan
parse_uint [] = err syntax_error
parse_uint (c ∷ s) = scan (c ∷ s) 0

-- The end of `strconv.ParseInt`: the bounds of an int64.
signed : Bool → Result NumError ℕ → Result NumError ℤ
signed minus (err e) = err e
signed false (ok n) = if leb (2 ^ 63) n then err range_error else ok (pos n)
signed true (ok zero) = ok (pos 0)
signed true (ok (suc n)) = if ltb (2 ^ 63) (suc n) then err range_error else ok (negsuc n)

unfoldable pub parse_int : Text → Result NumError ℤ
unfolding parse_uint signed
parse_int [] = err syntax_error
parse_int (c ∷ s) =
    if c == b'-'
    then signed true (parse_uint s)
    else if c == b'+'
    then signed false (parse_uint s)
    else signed false (parse_uint (c ∷ s))

-- The first number that needs more than `fuel` digits.
bound : ℕ → ℕ
bound zero = 1
bound (suc fuel) = 10 * bound fuel

scan_digit : (n : ℕ) (out : Text) → n < 2 ^ 64 → scan ((b'0' + n % 10) ∷ out) (n / 10) ≡ scan out n
unfolding scan
scan_digit n out h = ground arith

scan-digits :
    (fuel n : ℕ) (out : Text)
    → n < bound fuel
    → n < 2 ^ 64
    → scan (digits fuel n out) 0 ≡ scan out n
unfolding digits bound
scan-digits zero n out h k = ground arith
scan-digits (suc fuel) n out h k =
    ground (arith, scan_digit n out k, scan-digits fuel (n / 10) ((b'0' + n % 10) ∷ out))

-- A list that starts with a digit.
abbrev StartsWithDigit : Text → Type 0
StartsWithDigit [] = ⊥
StartsWithDigit (c ∷ s) = (b'0' ≤ c) × (c ≤ b'9')

digits-StartsWithDigit :
    (fuel n : ℕ) (out : Text) → StartsWithDigit out → StartsWithDigit (digits fuel n out)
unfolding digits
digits-StartsWithDigit zero n out h = h
digits-StartsWithDigit (suc fuel) n out h =
    ground (arith, digits-StartsWithDigit fuel (n / 10) ((b'0' + n % 10) ∷ out) (omega arith))

format_nat-StartsWithDigit : (n : ℕ) → StartsWithDigit (format_nat n)
unfolding format_nat
format_nat-StartsWithDigit n =
    ground (arith, digits-StartsWithDigit 19 (n / 10) ((b'0' + n % 10) ∷ []) (omega arith))

parse_uint-scan : (s : Text) → StartsWithDigit s → parse_uint s ≡ scan s 0
unfolding parse_uint
parse_uint-scan [] h = elim h [ ]
parse_uint-scan (c ∷ s) h = refl

parse_uint-format_nat : (n : ℕ) → n < 2 ^ 64 → parse_uint (format_nat n) ≡ ok n
unfolding format_nat bound scan
parse_uint-format_nat n h =
    rw (parse_uint-scan _ (format_nat-StartsWithDigit n)) (ground (arith, scan-digits 20 n []))

parse_int_digits : (s : Text) → StartsWithDigit s → parse_int s ≡ signed false (parse_uint s)
unfolding parse_int
parse_int_digits [] h = elim h [ ]
parse_int_digits (c ∷ s) h = ground arith

-- An int64 is read back from its decimal print.
pub parse_int-format_int : (a : ℤ) → IsInt64 a → parse_int (format_int a) ≡ ok a
unfolding format_int signed parse_int
parse_int-format_int (pos n) h =
    rw
      (
        parse_int_digits (format_nat n) (format_nat-StartsWithDigit n),
        parse_uint-format_nat n (omega arith),
      )
      (ground arith)
parse_int-format_int (negsuc n) h = rw (parse_uint-format_nat (suc n) (omega arith)) (ground arith)

digits-has_byte :
    (fuel n b : ℕ) (out : Text)
    → b'9' < b
    → has_byte b out ≡ false
    → has_byte b (digits fuel n out) ≡ false
unfolding digits has_byte
digits-has_byte zero n b out h k = k
digits-has_byte (suc fuel) n b out h k =
    ground (arith, digits-has_byte fuel (n / 10) b ((b'0' + n % 10) ∷ out))

-- A print has digits and a sign only.
pub format_int-has_byte : (a : ℤ) (b : ℕ) → b'9' < b → has_byte b (format_int a) ≡ false
unfolding format_int format_nat has_byte
format_int-has_byte (pos n) b h =
    ground (arith, digits-has_byte 19 (n / 10) b ((b'0' + n % 10) ∷ []))
format_int-has_byte (negsuc n) b h =
    ground (arith, digits-has_byte 19 (suc n / 10) b ((b'0' + suc n % 10) ∷ []))
