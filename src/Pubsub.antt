-- ===== src/Pubsub.antt =====
-- internal/adapter/pubsub/publisher.go: the publisher of events. The Pub/Sub library is the parameter:
-- `connect` makes a client for a project, and `send` puts a payload on a topic and waits for the
-- answer, for a limited time.
use overload_party_matchmaki.Prelude.{
  ℤ, pos, leb_ℤ, Text, codes, text_eq, List, [], ◌∷◌, Option, none, some, Result, ok, err, ◌>>=◌,
  ◌≡◌, refl, ap, ◌∙◌, Result-cases, inl, inr, if◌then◌else◌, arith,
}
use overload_party_matchmaki.Domain.{MatchMadeEvent}
use overload_party_matchmaki.Port.{WireEvent}
use overload_party_matchmaki.Presenter.{event_type_match_made, to_wire, to_match_made_wire}

pub data PublisherError : Type 0 where
  project_id_empty topic_empty : PublisherError
  timeout_invalid : ℤ → PublisherError
  client_failed : Text → PublisherError
  unknown_event_type : Text → PublisherError
  publish_failed : Text → Text → PublisherError

-- The checks of New.
unfoldable pub check_publisher : Text → Text → ℤ → Result PublisherError (Unit {0})
check_publisher project_id topic timeout =
    if text_eq project_id []
    then err project_id_empty
    else if text_eq topic []
    then err topic_empty
    else if leb_ℤ timeout (pos 0)
    then err (timeout_invalid timeout)
    else ok tt

-- The topics by event type; the timeout of a publish, in nanoseconds.
pub record Publisher : Type 0 where
  pub by_event_type : List (Text × Text)
  pub publish_timeout : ℤ

abbrev pub client_result : Result Text (Unit {0}) → Result PublisherError (Unit {0})
client_result (ok u) = ok u
client_result (err e) = err (client_failed e)

-- New
unfoldable pub new_publisher :
    (Text → Result Text (Unit {0})) → Text → Text → ℤ → Result PublisherError Publisher
unfolding check_publisher
new_publisher connect project_id topic timeout = do
  _ ← check_publisher project_id topic timeout
  _ ← client_result (connect project_id)
  ok (record { by_event_type = (event_type_match_made, topic) ∷ []; publish_timeout = timeout })

unfoldable pub topic_of : List (Text × Text) → Text → Option Text
topic_of [] event_type = none
topic_of ((t, topic) ∷ topics) event_type =
    let rest = topic_of topics event_type in if text_eq t event_type then some topic else rest

abbrev pub send_result : Text → Result Text (Unit {0}) → Result PublisherError (Unit {0})
send_result event_type (ok u) = ok u
send_result event_type (err e) = err (publish_failed event_type e)

send_result-outcome :
    (r : Result Text (Unit {0}))
    → send_result event_type_match_made r
      ≡ elim r [ ok _ ↦ ok tt | err cause ↦ err (publish_failed event_type_match_made cause) ]
send_result-outcome (ok u) = refl
send_result-outcome (err e) = refl

made : Text → ℤ → Publisher
made topic timeout = record {
  by_event_type = (event_type_match_made, topic) ∷ [];
  publish_timeout = timeout;
}

new_publisher-made :
    (connect : Text → Result Text (Unit {0})) (project_id topic : Text) (timeout : ℤ)
    (p : Publisher)
    → new_publisher connect project_id topic timeout ≡ ok p
    → p ≡ made topic timeout
unfolding new_publisher made
new_publisher-made connect project_id topic timeout p h =
    elim (Result-cases (check_publisher project_id topic timeout)) [
      | inl (e, refused) ↦ absurd (ground (arith, refused))
      | inr (_, checked) ↦ elim (Result-cases (connect project_id)) [
        | inl (e, failed) ↦ absurd (ground (arith, checked, failed))
        | inr (_, connected) ↦ ground (arith, checked, connected)
      ]
    ]

wire_type :
    (marshal : WireEvent → Result Text Text) (event : MatchMadeEvent) (event_type payload : Text)
    → to_match_made_wire marshal event ≡ ok (event_type, payload)
    → event_type ≡ event_type_match_made
unfolding to_match_made_wire
wire_type marshal event event_type payload h = elim (Result-cases (marshal (to_wire event))) [
  | inl (e, failed) ↦ absurd (ground (arith, failed))
  | inr (text, built) ↦ ground (arith, built)
]

module _ {World : Type 0} (send : ℤ → Text → Text → World → World × Result Text (Unit {0})) where
  -- Publish
  unfoldable pub publish :
      Publisher → Text → Text → World → World × Result PublisherError (Unit {0})
  unfolding topic_of
  publish p event_type payload w = elim (topic_of p.by_event_type event_type) [
    | none ↦ (w, err (unknown_event_type event_type))
    | some topic ↦
        let r = send p.publish_timeout topic payload w in (r.0, send_result event_type r.1)
  ]

  publish_made :
      (topic : Text) (timeout : ℤ) (payload : Text) (w : World)
      → publish (made topic timeout) event_type_match_made payload w ≡ (
        (send timeout topic payload w).0,
        send_result event_type_match_made (send timeout topic payload w).1,
      )
  unfolding publish made topic_of text_eq
  publish_made topic timeout payload w = refl

  -- A publisher that New made sends every event that the presenter builds: to the configured topic, with the
  -- presenter's payload and the configured timeout; it succeeds if the library does, and otherwise its error holds the
  -- event type match_made and the library's error.
  pub publish-to_match_made_wire :
      (connect : Text → Result Text (Unit {0})) (project_id topic : Text) (timeout : ℤ)
      (p : Publisher) (marshal : WireEvent → Result Text Text) (event : MatchMadeEvent)
      (event_type payload : Text) (w : World)
      → new_publisher connect project_id topic timeout ≡ ok p
      → to_match_made_wire marshal event ≡ ok (event_type, payload)
      → publish p event_type payload w ≡ (
        (send timeout topic payload w).0,
        elim (send timeout topic payload w).1 [
          | ok _ ↦ ok tt
          | err cause ↦ err (publish_failed (codes "match_made") cause)
        ],
      )
  unfolding publish to_match_made_wire
  publish-to_match_made_wire connect project_id topic timeout p marshal event event_type payload w h
        k =
      rw
        (
          new_publisher-made connect project_id topic timeout p h,
          wire_type marshal event event_type payload k,
        )
        (publish_made topic timeout payload w
          ∙ ap (λ r. ((send timeout topic payload w).0, r))
              (send_result-outcome (send timeout topic payload w).1))

module _ {World : Type 0} (stop : Text → World → World)
    (close_client : World → World × Option Text) where
  unfoldable pub stop_all : List (Text × Text) → World → World
  stop_all [] w = w
  stop_all ((t, topic) ∷ topics) w = stop_all topics (stop topic w)

  -- Close: `stop` flushes the messages of a topic; the order of a Go map is that of the list.
  unfoldable pub close : Publisher → World → World × Option Text
  unfolding stop_all
  close p w = close_client (stop_all p.by_event_type w)
