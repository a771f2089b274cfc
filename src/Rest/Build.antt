-- ===== src/Rest/Build.antt =====
-- packages/api-matchmaking/apimatchmakingclient/client.go: the client over the generated one.
use overload_party_matchmaki.Prelude.{
  ℕ, Text, ◌≡◌, refl, ◌∙◌, ◌⊎◌, List, [], ◌∷◌, ◌++◌, append-nil, append_assoc, map, Option, none,
  some, Result, ok, err, arith,
}
use overload_party_matchmaki.Http.Messages.{EnqueueRequest, MatchAbandonedRequest}
use overload_party_matchmaki.Http.Client as Status
use overload_party_matchmaki.Rest.{
  response_status_code, Net, HttpResponse, PlainResponse, GetHealthResponse, is_json,
  parse_get_health_response,
}
use overload_party_matchmaki.Rest.Calls.{
  Doer, Editor, Draft, Client, ClientOption, apply_options, new_client, with_slash, or_default,
  with_http_client, with_request_editor_fn, cancel_player_with_response,
  enqueue_player_with_response, report_match_abandoned_with_response,
}

pub data NewError (Error : Type 0) : Type 0 where
  base_url_empty : NewError Error
  new_failed : Error → NewError Error

module _ (net : Net) (World : Type 0) where
  open net use {Error}

  -- `config`, which the options change
  pub record Settings : Type 0 where
    pub http_client : Option (Doer net World)
    pub editors : List (Editor net World)

  -- The two options that the package offers, with what they do.
  pub data Setting : Type 0 where
    http_client_option : Doer net World → Setting
    request_editor_option : Editor net World → Setting

  unfoldable pub apply_setting : Setting → Settings → Settings
  apply_setting (http_client_option doer) c = record c { http_client = some doer }
  apply_setting (request_editor_option fn) c = record c { editors = c.editors ++ fn ∷ [] }

  unfoldable pub apply_settings : List Setting → Settings → Settings
  unfolding apply_setting
  apply_settings [] c = c
  apply_settings (o ∷ opts) c = apply_settings opts (apply_setting o c)

  abbrev pub http_client_options : Option (Doer net World) → List (ClientOption net World)
  http_client_options none = []
  http_client_options (some doer) = with_http_client net World doer ∷ []

  unfoldable pub api_options : Settings → List (ClientOption net World)
  api_options cfg =
      http_client_options cfg.http_client ++ map (with_request_editor_fn net World) cfg.editors

  abbrev after_new : Result Error (Client net World) → Result (NewError Error) (Client net World)
  after_new (err e) = err (new_failed e)
  after_new (ok c) = ok c

  -- New
  unfoldable pub new :
      Doer net World → Text → List Setting → Result (NewError Error) (Client net World)
  unfolding apply_settings api_options
  new standard [] opts = err base_url_empty
  new standard (b ∷ base_url) opts = after_new (
      new_client net World standard (b ∷ base_url)
        (api_options (apply_settings opts (record { http_client = none; editors = [] }))))

  -- The doer that was set last, and all editors in the order in which they were given.
  abbrev pub last_doer : Option (Doer net World) → List Setting → Option (Doer net World)
  last_doer d [] = d
  last_doer d (http_client_option doer ∷ opts) = last_doer (some doer) opts
  last_doer d (request_editor_option fn ∷ opts) = last_doer d opts

  abbrev pub all_editors : List Setting → List (Editor net World)
  all_editors [] = []
  all_editors (http_client_option doer ∷ opts) = all_editors opts
  all_editors (request_editor_option fn ∷ opts) = fn ∷ all_editors opts

  settings_collected :
      (opts : List Setting) (c : Settings)
      → apply_settings opts c ≡ record {
        http_client = last_doer c.http_client opts;
        editors = c.editors ++ all_editors opts;
      }
  unfolding apply_settings apply_setting
  settings_collected [] c = rw (append-nil c.editors) refl
  settings_collected (http_client_option doer ∷ opts) c = settings_collected opts _
  settings_collected (request_editor_option fn ∷ opts) c =
      settings_collected opts _ ∙ rw (append_assoc c.editors (fn ∷ []) (all_editors opts)) refl

  editors_applied :
      (fns : List (Editor net World)) (c : Draft net World)
      → apply_options net World (map (with_request_editor_fn net World) fns) c
        ≡ ok (record c { editors = c.editors ++ fns })
  unfolding apply_options with_request_editor_fn
  editors_applied [] c = rw (append-nil c.editors) refl
  editors_applied (fn ∷ fns) c =
      editors_applied fns _ ∙ rw (append_assoc c.editors (fn ∷ []) fns) refl

  options_applied :
      (d : Option (Doer net World)) (fns : List (Editor net World)) (server : Text)
      → apply_options net World
          (http_client_options d ++ map (with_request_editor_fn net World) fns)
          (record { server = server; doer = none; editors = [] })
        ≡ ok (record { server = server; doer = d; editors = fns })
  unfolding apply_options with_http_client
  options_applied none fns server = editors_applied fns _
  options_applied (some doer) fns server = editors_applied fns _

  -- A client is built for each base URL that is not empty, whatever the options are: with the base URL
  -- and one slash at its end, with the HTTP client that was given last, or the standard one, and with
  -- all request editors in the order in which they were given.
  pub new-built :
      (standard : Doer net World) (b : ℕ) (base_url : Text) (opts : List Setting)
      → new standard (b ∷ base_url) opts
        ≡ ok (record {
          server = with_slash net World (b ∷ base_url);
          doer = or_default net World standard (last_doer none opts);
          editors = all_editors opts;
        })
  unfolding new new_client api_options
  new-built standard b base_url opts =
      rw
        (
          settings_collected opts (record { http_client = none; editors = [] }),
          options_applied (last_doer none opts) (all_editors opts) (b ∷ base_url),
        )
        refl

  -- The three calls.
  abbrev status_of : Result Error (PlainResponse net) → Result Error ℕ
  status_of (err e) = err e
  status_of (ok r) = ok (response_status_code net r.http_response)

  unfoldable pub enqueue_player :
      Client net World → EnqueueRequest → World → World × Option (Status.ClientError Error)
  enqueue_player c req w =
      let r = enqueue_player_with_response net World c req w in
      (r.0, Status.enqueue_player (status_of r.1))

  unfoldable pub cancel_player :
      Client net World → World → World × Option (Status.ClientError Error)
  cancel_player c w =
      let r = cancel_player_with_response net World c w in
      (r.0, Status.cancel_player (status_of r.1))

  unfoldable pub report_match_abandoned :
      Client net World → MatchAbandonedRequest → World → World × Option (Status.ClientError Error)
  report_match_abandoned c req w =
      let r = report_match_abandoned_with_response net World c req w in
      (r.0, Status.report_match_abandoned (status_of r.1))

module _ (net : Net) where
  -- A parsed health response has the body that was read, and at most one of its two JSON fields, the one
  -- for the status of the response.
  pub get_health_fields :
      (rsp : HttpResponse net) (r : GetHealthResponse net)
      → parse_get_health_response net rsp ≡ ok r
      → (rsp.body ≡ ok r.body)
        × ((r.json200 ≡ none) ⊎ (rsp.status_code ≡ 200))
        × ((r.json503 ≡ none) ⊎ (rsp.status_code ≡ 503))
  unfolding parse_get_health_response is_json
  get_health_fields rsp r h = ground arith
