-- ===== src/Rest/Calls.antt =====
-- packages/api-matchmaking/openapi_gen.go: `Client` and `ClientWithResponses` of the generated REST
-- client, with their options, editors and calls.
use overload_party_matchmaki.Prelude.{
  Text, codes, not, if◌then◌else◌, List, [], ◌∷◌, ◌++◌, Option, none, some, Result, ok, err, ◌>>=◌,
}
use overload_party_matchmaki.Http.Messages.{EnqueueRequest, MatchAbandonedRequest}
use overload_party_matchmaki.Rest.{
  Net, HttpResponse, PlainResponse, GetHealthResponse, GetQueueSizeResponse, ends_with_slash,
  new_cancel_player_request, new_enqueue_player_request_with_body, new_enqueue_player_request,
  new_get_health_request, new_report_match_abandoned_request_with_body,
  new_report_match_abandoned_request, new_get_queue_size_request, parse_plain_response,
  parse_get_health_response, parse_get_queue_size_response,
}

module _ (net : Net) (World : Type 0) where
  open net use {Error, Wire, parse_url, url_text}

  -- HttpRequestDoer and RequestEditorFn
  abbrev pub Doer : Type 0
  Doer = Wire → World → World × Result Error (HttpResponse net)

  abbrev pub Editor : Type 0
  Editor = Wire → World → World × Result Error Wire

  -- The client while its options run, when it may have no doer yet, and the finished one.
  pub record Draft : Type 0 where
    pub server : Text
    pub doer : Option Doer
    pub editors : List Editor

  pub record Client : Type 0 where
    pub server : Text
    pub doer : Doer
    pub editors : List Editor

  abbrev pub ClientOption : Type 0
  ClientOption = Draft → Result Error Draft

  unfoldable pub with_http_client : Doer → ClientOption
  with_http_client doer c = ok (record c { doer = some doer })

  unfoldable pub with_request_editor_fn : Editor → ClientOption
  with_request_editor_fn fn c = ok (record c { editors = c.editors ++ fn ∷ [] })

  unfoldable pub with_base_url : Text → ClientOption
  with_base_url base_url c = do url ← parse_url base_url; ok (record c { server = url_text url })

  unfoldable pub apply_options : List ClientOption → ClientOption
  apply_options [] c = ok c
  apply_options (o ∷ opts) c = o c >>= apply_options opts

  unfoldable pub with_slash : Text → Text
  unfolding ends_with_slash
  with_slash server = if not (ends_with_slash server) then server ++ codes "/" else server

  abbrev pub or_default : Doer → Option Doer → Doer
  or_default d none = d
  or_default d (some doer) = doer

  -- NewClient; `standard` is the doer `&http.Client{}`.
  unfoldable pub new_client : Doer → Text → List ClientOption → Result Error Client
  unfolding apply_options with_slash
  new_client standard server opts = do
    c ← apply_options opts (record { server = server; doer = none; editors = [] })
    ok (record {
      server = with_slash c.server;
      doer = or_default standard c.doer;
      editors = c.editors;
    })

  unfoldable pub after_editor {ℓ} :
      {A : Type ℓ}
      → (Wire → World → World × Result Error A)
      → World × Result Error Wire
      → World × Result Error A
  after_editor next (w, err e) = (w, err e)
  after_editor next (w, ok req) = next req w

  unfoldable pub run_editors : List Editor → Editor
  unfolding after_editor
  run_editors [] req w = (w, ok req)
  run_editors (r ∷ editors) req w = after_editor (run_editors editors) (r req w)

  -- applyEditors
  unfoldable pub apply_editors : Client → List Editor → Editor
  unfolding run_editors
  apply_editors c additional req w =
      after_editor (run_editors additional) (run_editors c.editors req w)

  -- What the seven methods of the client do with the request that they build.
  unfoldable pub send :
      Client → List Editor → Result Error Wire → World → World × Result Error (HttpResponse net)
  unfolding apply_editors
  send c editors (err e) w = (w, err e)
  send c editors (ok req) w = after_editor c.doer (apply_editors c editors req w)

  abbrev pub parsed {ℓ} :
      {A : Type ℓ}
      → ((HttpResponse net) → Result Error A)
      → World × Result Error (HttpResponse net)
      → World × Result Error A
  parsed parse r = (r.0, r.1 >>= parse)

  unfoldable pub cancel_player_with_response :
      Client → World → World × Result Error (PlainResponse net)
  unfolding send parse_plain_response new_cancel_player_request
  cancel_player_with_response c w =
      parsed (parse_plain_response net) (send c [] (new_cancel_player_request net c.server) w)

  unfoldable pub enqueue_player_with_response :
      Client → EnqueueRequest → World → World × Result Error (PlainResponse net)
  unfolding send parse_plain_response new_enqueue_player_request
  enqueue_player_with_response c body w =
      parsed (parse_plain_response net) (send c [] (new_enqueue_player_request net c.server body) w)

  unfoldable pub report_match_abandoned_with_response :
      Client → MatchAbandonedRequest → World → World × Result Error (PlainResponse net)
  unfolding send parse_plain_response new_report_match_abandoned_request
  report_match_abandoned_with_response c body w =
      parsed (parse_plain_response net)
        (send c [] (new_report_match_abandoned_request net c.server body) w)

  unfoldable pub get_health_with_response :
      Client → World → World × Result Error (GetHealthResponse net)
  unfolding send parse_get_health_response new_get_health_request
  get_health_with_response c w =
      parsed (parse_get_health_response net) (send c [] (new_get_health_request net c.server) w)

  unfoldable pub get_queue_size_with_response :
      Client → World → World × Result Error (GetQueueSizeResponse net)
  unfolding send parse_get_queue_size_response new_get_queue_size_request
  get_queue_size_with_response c w =
      parsed (parse_get_queue_size_response net)
        (send c [] (new_get_queue_size_request net c.server) w)

  -- The variants of the two calls with a body of any content type.
  unfoldable pub enqueue_player_with_body_with_response :
      Client → Text → Text → World → World × Result Error (PlainResponse net)
  unfolding send parse_plain_response new_enqueue_player_request_with_body
  enqueue_player_with_body_with_response c content_type body w =
      parsed (parse_plain_response net)
        (send c [] (new_enqueue_player_request_with_body net c.server content_type body) w)

  unfoldable pub report_match_abandoned_with_body_with_response :
      Client → Text → Text → World → World × Result Error (PlainResponse net)
  unfolding send parse_plain_response new_report_match_abandoned_request_with_body
  report_match_abandoned_with_body_with_response c content_type body w =
      parsed (parse_plain_response net)
        (send c [] (new_report_match_abandoned_request_with_body net c.server content_type body) w)
