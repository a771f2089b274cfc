-- ===== src/Std/Base64.antt =====
-- `base64.RawStdEncoding`: `EncodeToString` and `DecodeString`.
use overload_party_matchmaki.Prelude.{
  ℕ, ◌+◌, ◌-◌, ◌*◌, ◌/◌, ◌%◌, ◌≤◌, ◌<◌, Text, IsBytes, true, ◌||◌, ◌&&◌, not, ◌==◌, ltb, leb,
  if◌then◌else◌, ◌≡◌, refl, [], ◌∷◌, keep, Option, none, some, arith,
}

-- The alphabet, and the value of a character of it.
encode_digit : ℕ → ℕ
encode_digit v =
    if ltb v 26
    then b'A' + v
    else if ltb v 52
    then b'a' + (v - 26)
    else if ltb v 62
    then b'0' + (v - 52)
    else if v == 62
    then b'+'
    else b'/'

decode_digit : ℕ → Option ℕ
decode_digit c =
    if leb b'A' c && leb c b'Z'
    then some (c - b'A')
    else if leb b'a' c && leb c b'z'
    then some (c - b'a' + 26)
    else if leb b'0' c && leb c b'9'
    then some (c - b'0' + 52)
    else if c == b'+'
    then some 62
    else if c == b'/'
    then some 63
    else none

unfoldable pub encode : Text → Text
unfolding encode_digit
encode [] = []
encode (a ∷ []) = encode_digit (a / 4) ∷ encode_digit (a % 4 * 16) ∷ []
encode (a ∷ b ∷ []) =
    encode_digit (a / 4) ∷ encode_digit (a % 4 * 16 + b / 16) ∷ encode_digit (b % 16 * 4) ∷ []
encode (a ∷ b ∷ c ∷ s) =
    encode_digit (a / 4)
    ∷ encode_digit (a % 4 * 16 + b / 16)
    ∷ encode_digit (b % 16 * 4 + c / 64)
    ∷ encode_digit (c % 64)
    ∷ encode s

infixl 5 ◌>>=◌
abbrev ◌>>=◌ : {A B : Type 0} → Option A → (A → Option B) → Option B
none >>= f = none
some a >>= f = f a

-- Groups of four characters; a last group of two or three stands for one or two bytes, and its
-- spare bits are not checked.
decode_groups : Text → Option Text
decode_groups [] = some []
decode_groups (p ∷ []) = none
decode_groups (p ∷ q ∷ []) = do v ← decode_digit p; w ← decode_digit q; some ((v * 4 + w / 16) ∷ [])
decode_groups (p ∷ q ∷ r ∷ []) = do
  v ← decode_digit p
  w ← decode_digit q
  x ← decode_digit r
  some ((v * 4 + w / 16) ∷ (w % 16 * 16 + x / 4) ∷ [])
decode_groups (p ∷ q ∷ r ∷ t ∷ s) =
    let rest = decode_groups s in
    decode_digit p >>= λ v. decode_digit q >>= λ w. decode_digit r >>= λ x. decode_digit t >>= λ y.
    rest >>= λ out. some ((v * 4 + w / 16) ∷ (w % 16 * 16 + x / 4) ∷ (x % 4 * 64 + y) ∷ out)

-- The decoder skips line ends.
unfoldable pub decode : Text → Option Text
unfolding decode_groups decode_digit
decode s = decode_groups (keep (λ c. not (c == 10 || c == 13)) s)

decode_digit-encode_digit : (v : ℕ) → v < 64 → decode_digit (encode_digit v) ≡ some v
unfolding decode_digit encode_digit
decode_digit-encode_digit v h = ground arith

-- Each character of the alphabet is a letter, a digit, `+` or `/`.
encode_digit_range : (v : ℕ) → v < 64 → (b'+' ≤ encode_digit v) × (encode_digit v ≤ b'z')
unfolding encode_digit
encode_digit_range v h = ground arith

keep_group : (v : ℕ) → v < 64 → not (encode_digit v == 10 || encode_digit v == 13) ≡ true
keep_group v h = ground (arith, encode_digit_range v h)

triple :
    (a b c : ℕ)
    → a < 256
    → b < 256
    → c < 256
    → (a / 4 < 64) × (a % 4 * 16 + b / 16 < 64) × (b % 16 * 4 + c / 64 < 64) × (c % 64 < 64)
triple a b c p q r = omega arith

keep-encode : (s : Text) → IsBytes s → keep (λ c. not (c == 10 || c == 13)) (encode s) ≡ encode s
unfolding encode
keep-encode [] h = refl
keep-encode (a ∷ []) h =
    rw (keep_group (a / 4) (omega arith), keep_group (a % 4 * 16) (omega arith))
keep-encode (a ∷ b ∷ []) h = rw (
  keep_group (a / 4) (omega arith),
  keep_group (a % 4 * 16 + b / 16) (omega arith),
  keep_group (b % 16 * 4) (omega arith),
)
keep-encode (a ∷ b ∷ c ∷ s) h = rw (
  keep_group (a / 4) (omega arith),
  keep_group (a % 4 * 16 + b / 16) (omega arith),
  keep_group (b % 16 * 4 + c / 64) (omega arith),
  keep_group (c % 64) (omega arith),
  keep-encode s h.1.1.1,
)

decode_groups-encode : (s : Text) → IsBytes s → decode_groups (encode s) ≡ some s
unfolding encode decode_groups
decode_groups-encode [] h = refl
decode_groups-encode (a ∷ []) h =
    rw
      (
        decode_digit-encode_digit (a / 4) (omega arith),
        decode_digit-encode_digit (a % 4 * 16) (omega arith),
      )
      (ground arith)
decode_groups-encode (a ∷ b ∷ []) h =
    rw
      (
        decode_digit-encode_digit (a / 4) (omega arith),
        decode_digit-encode_digit (a % 4 * 16 + b / 16) (omega arith),
        decode_digit-encode_digit (b % 16 * 4) (omega arith),
      )
      (ground arith)
decode_groups-encode (a ∷ b ∷ c ∷ s) h =
    rw
      (
        decode_digit-encode_digit (a / 4) (omega arith),
        decode_digit-encode_digit (a % 4 * 16 + b / 16) (omega arith),
        decode_digit-encode_digit (b % 16 * 4 + c / 64) (omega arith),
        decode_digit-encode_digit (c % 64) (omega arith),
        decode_groups-encode s h.1.1.1,
      )
      (ground arith)

-- Any bytes are read back from their encoding.
pub decode-encode : (s : Text) → IsBytes s → decode (encode s) ≡ some s
unfolding decode
decode-encode s h = rw (keep-encode s h) (decode_groups-encode s h)
