-- ===== src/HttpTest/Requests.antt =====
-- internal/adapter/httphandler/httphandlertest/request.go: the requests that the tests of the handlers
-- send. encoding/json is a parameter; a call that panics gives none.
pub mod Reach
use overload_party_matchmaki.Prelude.{
  ℕ, ◌==◌, Text, codes, text_eq, Bool, false, ◌&&◌, List, [], ◌∷◌, Option, none, some, Result, ok,
  err, if◌then◌else◌,
}
use overload_party_matchmaki.Http.Router.{Method, get, post}

abbrev pub path_enqueue : Text
path_enqueue = codes "/internal/v1/enqueue"

abbrev pub path_cancel : Text
path_cancel = codes "/internal/v1/cancel"

abbrev pub path_queue_size : Text
path_queue_size = codes "/internal/v1/queue-size"

abbrev pub path_match_abandoned : Text
path_match_abandoned = codes "/internal/v1/match-abandoned"

abbrev pub path_health : Text
path_health = codes "/internal/v1/health"

abbrev pub token_player_1 : Text
token_player_1 = codes "TST-TOKEN-1"

abbrev pub token_player_2 : Text
token_player_2 = codes "TST-TOKEN-2"

abbrev pub token_player_3 : Text
token_player_3 = codes "TST-TOKEN-3"

abbrev pub token_invalid : Text
token_invalid = codes "TST-TOKEN-INVALID"

abbrev pub player_id_1 : Text
player_id_1 = codes "TST-PLAYER-1"

abbrev pub player_id_2 : Text
player_id_2 = codes "TST-PLAYER-2"

abbrev pub player_id_3 : Text
player_id_3 = codes "TST-PLAYER-3"

abbrev pub gateway_id_1 : Text
gateway_id_1 = codes "TST-GATEWAY-1"

abbrev pub default_match : Text
default_match = codes "mch_TST0001"

abbrev pub default_reason : Text
default_reason = codes "player_not_connected"

-- A request before a router reads it. `token` is the X-Internal-Auth header, empty without one.
pub record RawRequest : Type 0 where
  pub method : Method
  pub path : Text
  pub content_type : Text
  pub token : Text
  pub body : Text

-- What httptest.NewRecorder has got.
pub record Recorder : Type 0 where
  pub code : ℕ
  pub body : Text

abbrev pub Auth : Type 0
Auth = RawRequest → RawRequest

-- WithToken
unfoldable pub with_token : Text → Auth
with_token token r = record r { token = token }

-- NoAuth
unfoldable pub no_auth : Auth
no_auth r = r

-- verificationByToken, with a panic for another token.
unfoldable pub verification_by_token : Text → Option (Result Text Text)
verification_by_token token =
    if text_eq token token_player_1
    then some (ok player_id_1)
    else if text_eq token token_player_2
    then some (ok player_id_2)
    else if text_eq token token_player_3
    then some (ok player_id_3)
    else if text_eq token token_invalid
    then some (err (codes "TST-invalid-token"))
    else none

abbrev pub Router : Type 0 → Type 0
Router World = RawRequest → World → World × Recorder

module _ {World : Type 0} where
  -- Send
  unfoldable pub send : Router World → Method → Text → Auth → Text → World → World × Recorder
  send router method path auth body = router (
      auth (record {
        method = method;
        path = path;
        content_type = codes "application/json";
        token = [];
        body = body;
      }))

  unfoldable pub send_enqueue : Router World → Auth → Text → World → World × Recorder
  unfolding send
  send_enqueue router auth body = send router post path_enqueue auth body

  unfoldable pub send_cancel : Router World → Auth → World → World × Recorder
  unfolding send
  send_cancel router auth = send router post path_cancel auth []

  unfoldable pub send_queue_size : Router World → World → World × Recorder
  unfolding send no_auth
  send_queue_size router = send router get path_queue_size no_auth []

  unfoldable pub send_health : Router World → World → World × Recorder
  unfolding send no_auth
  send_health router = send router get path_health no_auth []

  unfoldable pub send_match_abandoned : Router World → Text → World → World × Recorder
  unfolding send no_auth
  send_match_abandoned router body = send router post path_match_abandoned no_auth body

-- ReadErrorMessage, ReadQueueSize and ReadHealth; `read` is json.Unmarshal into what they want of the
-- body, and a test that fails gives none.
unfoldable pub read_error_message : (Text → Option Text) → Recorder → Option Text
read_error_message read recorder = read recorder.body

-- AssertErrorResponse: whether the assertions hold.
unfoldable pub assert_error_response : (Text → Option Text) → Recorder → ℕ → Text → Bool
unfolding read_error_message
assert_error_response read recorder status message = elim (read_error_message read recorder) [
  | none ↦ false
  | some text ↦ (recorder.code == status) && text_eq text message
]

unfoldable pub read_queue_size :
    {World : Type 0} → (Text → Option ℕ) → Router World → World → World × Option ℕ
unfolding send_queue_size
read_queue_size read router w =
    let (next, recorder) = send_queue_size router w in
    (next, if recorder.code == 200 then read recorder.body else none)

unfoldable pub read_health : (Text → Option (Text × Text)) → Recorder → Option (Text × Text)
read_health read recorder = read recorder.body

-- The fields of a body, by their keys, each with its JSON.
abbrev pub Fields : Type 0
Fields = List (Text × Text)

abbrev pub BodyMod : Type 0
BodyMod = Fields → Fields

-- Set
unfoldable pub set : Text → Text → BodyMod
set key raw [] = (key, raw) ∷ []
set key raw ((k, r) ∷ fields) =
    let rest = set key raw fields in if text_eq k key then (k, raw) ∷ fields else (k, r) ∷ rest

-- Omit
unfoldable pub omit : Text → BodyMod
omit key [] = []
omit key ((k, r) ∷ fields) =
    let rest = omit key fields in if text_eq k key then rest else (k, r) ∷ rest

abbrev pub lookup : Text → Fields → Option Text
lookup key [] = none
lookup key ((k, r) ∷ fields) = if text_eq k key then some r else lookup key fields

-- The texts of json.Marshal: of a string, of a list of strings, and of an object, which fails for raw JSON
-- that is none.
pub record Marshal : Type 0 where
  pub of_text : Text → Text
  pub of_texts : List Text → Text
  pub of_fields : Fields → Option Text

-- テスト太郎
abbrev pub default_name : Text
default_name =
    0xE3 ∷ 0x83 ∷ 0x86 ∷ 0xE3 ∷ 0x82 ∷ 0xB9 ∷ 0xE3 ∷ 0x83 ∷ 0x88 ∷ 0xE5 ∷ 0xA4 ∷ 0xAA ∷ 0xE9 ∷ 0x83
    ∷ 0x8E ∷ []

module _ (json : Marshal) where
  -- GatewayInstanceID
  unfoldable pub gateway_instance_id : Text → BodyMod
  gateway_instance_id id = set (codes "gateway_instance_id") (json.of_text id)

  -- PlayerIDs
  unfoldable pub player_ids : List Text → BodyMod
  player_ids ids = set (codes "player_ids") (json.of_texts ids)

  abbrev pub apply : List BodyMod → Fields → Fields
  apply [] fields = fields
  apply (change ∷ mods) fields = apply mods (change fields)

  -- buildBody, with mustMarshal.
  unfoldable pub build_body : Fields → List BodyMod → Option Text
  build_body fields mods = json.of_fields (apply mods fields)

  abbrev pub enqueue_fields : Fields
  enqueue_fields =
      (codes "deck_id", codes "11")
      ∷ (codes "name", json.of_text default_name)
      ∷ (codes "level", codes "7")
      ∷ (codes "gateway_instance_id", json.of_text gateway_id_1)
      ∷ []

  abbrev pub abandon_fields : Fields
  abandon_fields =
      (codes "match_id", json.of_text default_match)
      ∷ (codes "player_ids", json.of_texts (player_id_1 ∷ player_id_2 ∷ []))
      ∷ (codes "reason", json.of_text default_reason)
      ∷ []

  -- EnqueueBody
  unfoldable pub enqueue_body : List BodyMod → Option Text
  unfolding build_body
  enqueue_body = build_body enqueue_fields

  -- AbandonBody
  unfoldable pub abandon_body : List BodyMod → Option Text
  unfolding build_body
  abandon_body = build_body abandon_fields

  -- SendEnqueueFromGateway; the body comes first, and its panic sends nothing.
  unfoldable pub send_enqueue_from_gateway :
      {World : Type 0} → Router World → Auth → Text → World → Option (World × Recorder)
  unfolding enqueue_body gateway_instance_id
  send_enqueue_from_gateway router auth gateway_id w =
      elim (enqueue_body (gateway_instance_id gateway_id ∷ [])) [
        | none ↦ none
        | some body ↦ some (send_enqueue router auth body w)
      ]
