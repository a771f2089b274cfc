-- ===== src/RedisQueue/Member.antt =====
-- internal/adapter/redisqueue/redis_queue.go: validateMemberPlayerID, encodeMember and decodeMember.
-- A `:` is the byte 58.
use overload_party_matchmaki.Prelude.{
  ℕ, ℤ, IsInt64, IsBytes, Text, has_byte, before_byte, before_byte-append, false, if◌then◌else◌,
  ◌≡◌, ◌≢◌, refl, List, [], ◌∷◌, ◌++◌, length, Option, none, some, Result, ok, err, arith,
}
use overload_party_matchmaki.Std.Decimal.{
  NumError, format_int, parse_int, parse_int-format_int, format_int-has_byte,
}
use overload_party_matchmaki.Std.Base64
use overload_party_matchmaki.Std.Strings.{split_n, split_n-append}

-- The errors of the package, without the text that `fmt.Errorf` wraps round them.
pub data QueueError : Type 0 where
  player_id_empty player_id_has_separator gateway_instance_id_empty : QueueError
  field_count : ℕ → Text → QueueError
  parse_deck parse_level parse_score : NumError → QueueError
  parse_name : QueueError
  enqueue_failed cancel_failed zcard_failed pop_pair_failed reenqueue_failed : Text → QueueError
  -- `raw[i+1]` behind the end of the slice: a run-time panic
  index_out_of_range : QueueError

abbrev pub member_separator : ℕ
member_separator = b':'

abbrev pub member_field_count : ℕ
member_field_count = 4

unfoldable pub validate_member_player_id : Text → Result QueueError (Unit {0})
validate_member_player_id [] = err player_id_empty
validate_member_player_id (c ∷ s) =
    if has_byte member_separator (c ∷ s) then err player_id_has_separator else ok tt

unfoldable pub encode_member : Text → ℤ → ℤ → Text → Text
encode_member player_id deck_id level name =
    player_id
    ++ member_separator
      ∷ (format_int deck_id
          ++ member_separator ∷ (format_int level ++ member_separator ∷ Base64.encode name))

-- What `decodeMember` returns beside the error.
pub record Member : Type 0 where
  pub player_id : Text
  pub deck_id : ℤ
  pub level : ℤ
  pub name : Text

parse_field : Result NumError ℤ → (NumError → QueueError) → Result QueueError ℤ
parse_field (ok n) wrap = ok n
parse_field (err e) wrap = err (wrap e)

parse_base64 : Option Text → Result QueueError Text
parse_base64 none = err parse_name
parse_base64 (some name) = ok name

infixl 5 ◌>>=◌
abbrev ◌>>=◌ :
    {A B : Type 0} → Result QueueError A → (A → Result QueueError B) → Result QueueError B
ok a >>= f = f a
err e >>= f = err e

-- The four fields; any other number of parts is an error.
decode_fields : Text → List Text → Result QueueError Member
unfolding parse_field parse_base64
decode_fields member (player_id ∷ deck ∷ level ∷ name ∷ []) = do
  d ← parse_field (parse_int deck) parse_deck
  l ← parse_field (parse_int level) parse_level
  n ← parse_base64 (Base64.decode name)
  ok (record { player_id = player_id; deck_id = d; level = l; name = n })
decode_fields member parts = err (field_count (length parts) member)

unfoldable pub decode_member : Text → Result QueueError Member
unfolding decode_fields
decode_member member = decode_fields member (split_n member_separator member member_field_count)

-- A text that `validateMemberPlayerID` lets through has no separator in it, and is not empty.
pub validate_member_player_id_ok :
    (p : Text)
    → validate_member_player_id p ≡ ok tt
    → (p ≢ []) × (has_byte member_separator p ≡ false)
unfolding validate_member_player_id
validate_member_player_id_ok [] h = cc
validate_member_player_id_ok (c ∷ s) h = ground arith

pub validate_member_player_id_accepts :
    (p : Text) → p ≢ [] → has_byte member_separator p ≡ false → validate_member_player_id p ≡ ok tt
unfolding validate_member_player_id
validate_member_player_id_accepts [] h k = absurd (h refl)
validate_member_player_id_accepts (c ∷ s) h k = ground arith

split-encode_member :
    (p : Text) (d l : ℤ) (n : Text)
    → has_byte member_separator p ≡ false
    → split_n member_separator (encode_member p d l n) member_field_count
      ≡ p ∷ format_int d ∷ format_int l ∷ Base64.encode n ∷ []
unfolding encode_member split_n
split-encode_member p d l n h = rw (
  split_n-append member_separator p _ 2 h,
  split_n-append member_separator (format_int d) _ 1
      (format_int-has_byte d member_separator (omega arith)),
  split_n-append member_separator (format_int l) (Base64.encode n) 0
      (format_int-has_byte l member_separator (omega arith)),
)

-- What is stored of an entry is read back exactly, whatever the name holds, if the player has no
-- separator in it, the numbers are int64 values and the name is a string of bytes.
pub decode_member-encode_member :
    (p : Text) (d l : ℤ) (n : Text)
    → has_byte member_separator p ≡ false
    → IsInt64 d
    → IsInt64 l
    → IsBytes n
    → decode_member (encode_member p d l n)
      ≡ ok (record { player_id = p; deck_id = d; level = l; name = n })
unfolding decode_member
decode_member-encode_member p d l n h hd hl hn = rw (
  split-encode_member p d l n h,
  parse_int-format_int d hd,
  parse_int-format_int l hl,
  Base64.decode-encode n hn,
)

-- The first field of a member is its player, which is how the scripts find a player's entries.
pub before_byte-encode_member :
    (p : Text) (d l : ℤ) (n : Text)
    → has_byte member_separator p ≡ false
    → before_byte member_separator (encode_member p d l n) ≡ p
unfolding encode_member
before_byte-encode_member p d l n h = before_byte-append member_separator p _ h
