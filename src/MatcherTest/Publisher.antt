-- ===== src/MatcherTest/Publisher.antt =====
-- internal/usecase/matcher/matchertest/publisher.go: a publisher that answers what it was told to answer
-- and keeps what it was asked to publish. A step acts on a world, which has the gates and the shutdown
-- that the steps wait for; `none` is success.
use overload_party_matchmaki.Prelude.{
  ℕ, suc, ◌-◌, ltb, Text, Bool, List, [], ◌∷◌, ◌++◌, Option, none, some,
}
use overload_party_matchmaki.MatcherTest.Queue.{next_step, later_steps}

pub record Publication : Type 0 where
  pub event_type : Text
  pub payload : Text

module _ (World Error : Type 0) where
  abbrev pub PublishStep : Type 0
  PublishStep = World → World × Option Error

  pub record Publisher : Type 0 where
    pub steps : List PublishStep
    pub publications : List Publication
    pub in_flight : ℕ

  unfoldable pub new_publisher : Publisher
  new_publisher = record { steps = []; publications = []; in_flight = 0 }

  unfoldable pub publish_succeeds : PublishStep
  publish_succeeds w = (w, none)

  unfoldable pub publish_fails : Error → PublishStep
  publish_fails e w = (w, some e)

  -- `gate` waits until its gate is open.
  unfoldable pub publish_blocked_until : (World → World) → PublishStep
  publish_blocked_until gate w = (gate w, none)

  -- `wait_done` waits for the end of the context and gives its error.
  unfoldable pub publish_interrupted_by_shutdown : (World → World × Error) → PublishStep
  publish_interrupted_by_shutdown wait_done w = let r = wait_done w in (r.0, some r.1)

  unfoldable pub add_steps : List PublishStep → Publisher → Publisher
  add_steps steps p = record p { steps = p.steps ++ steps }

  -- finishCall
  unfoldable pub finish_call : Publisher → Publisher
  finish_call p = record p { in_flight = p.in_flight - 1 }

  -- Publish
  unfoldable pub publish : Text → Text → Publisher × World → (Publisher × World) × Option Error
  unfolding publish_succeeds finish_call
  publish event_type payload (p, w) =
      let begun = record p {
        in_flight = suc p.in_flight;
        publications = p.publications ++ record { event_type = event_type; payload = payload } ∷ [];
        steps = later_steps p.steps;
      } in
      let r = next_step publish_succeeds p.steps w in ((finish_call begun, r.0), r.1)

  unfoldable pub has_calls_in_flight : Publisher → Bool
  has_calls_in_flight p = ltb 0 p.in_flight
