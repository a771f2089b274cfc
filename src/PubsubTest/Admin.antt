-- ===== src/PubsubTest/Admin.antt =====
-- CreateTopic, CreateTopicWithName, and the admin calls of Subscribe and of its cleanup, of
-- internal/adapter/pubsub/pubsubtest/emulator.go. The Pub/Sub library's admin clients are a parameter; a
-- failure is what stops the test (`t.Fatalf`) or what it reports (`t.Errorf`).
use overload_party_matchmaki.Prelude.{
  Text, Option, none, some, Option-cases, Result, ok, err, ◌≡◌, refl, ap, ◌∙◌, inl, inr,
}
use overload_party_matchmaki.PubsubTest.{
  generate_topic_name, generate_subscription_name, topic_path, subscription_path,
}

pub record Admin : Type 1 where
  -- the emulator, and each call with its error
  pub World : Type 0
  pub create_topic_at : Text → World → World × Option Text
  pub create_subscription_at : Text → Text → World → World × Option Text
  pub delete_subscription_at : Text → World → World × Option Text

-- What fails, with the name that the test reports, and the cause.
pub data Failure : Type 0 where
  topic_failed subscription_failed deletion_failed : Text → Text → Failure

module _ (admin : Admin) where
  open admin use {World}

  -- CreateTopicWithName
  unfoldable pub create_topic_with_name : Text → Text → World → World × Option Failure
  create_topic_with_name project_id topic w =
      let (made, e) = admin.create_topic_at (topic_path project_id topic) w in
      elim e [ none ↦ (made, none) | some cause ↦ (made, some (topic_failed topic cause)) ]

  -- CreateTopic; `id` is a new UUID.
  unfoldable pub create_topic : Text → Text → Text → World → World × Result Failure Text
  unfolding create_topic_with_name
  create_topic project_id prefix id w =
      let topic = generate_topic_name prefix id in
      let (made, failure) = create_topic_with_name project_id topic w in
      elim failure [ none ↦ (made, ok topic) | some e ↦ (made, err e) ]

  -- Subscribe up to the start of its goroutine, with the subscription's name.
  unfoldable pub create_subscription : Text → Text → Text → World → World × Result Failure Text
  create_subscription project_id topic id w =
      let name = generate_subscription_name topic id in
      let (made, e) =
        admin.create_subscription_at (subscription_path project_id name)
          (topic_path project_id topic) w in
      elim e [ none ↦ (made, ok name) | some cause ↦ (made, err (subscription_failed name cause)) ]

  -- The cleanup of Subscribe behind `stop`.
  unfoldable pub delete_subscription : Text → Text → World → World × Option Failure
  delete_subscription project_id name w =
      let (left, e) = admin.delete_subscription_at (subscription_path project_id name) w in
      elim e [ none ↦ (left, none) | some cause ↦ (left, some (deletion_failed name cause)) ]

  -- A subscription that is deleted right after its creation leaves nothing behind.
  abbrev pub IsUndone : Type 0
  IsUndone =
      (path topic_at : Text) (w : World)
      → (admin.create_subscription_at path topic_at w).1 ≡ none
      → admin.delete_subscription_at path (admin.create_subscription_at path topic_at w).0
        ≡ (w, none)

  deleted :
      (project_id name : Text) (w left : World)
      → admin.delete_subscription_at (subscription_path project_id name) w ≡ (left, none)
      → delete_subscription project_id name w ≡ (left, none)
  unfolding delete_subscription
  deleted project_id name w left h =
      let quiet : (admin.delete_subscription_at (subscription_path project_id name) w).1 ≡ none =
        ap (λ x. x.1) h in
      rw (quiet, delete_subscription) (ap (λ x. (x.0, none)) h)

  -- The cleanup deletes the subscription that the same test has created, and nothing is reported.
  create-delete :
      IsUndone
      → (project_id topic id name : Text) (w : World)
      → (create_subscription project_id topic id w).1 ≡ ok name
      → delete_subscription project_id name (create_subscription project_id topic id w).0
        ≡ (w, none)
  unfolding create_subscription
  create-delete undone project_id topic id name w =
      let new = generate_subscription_name topic id in
      let made =
        admin.create_subscription_at (subscription_path project_id new)
          (topic_path project_id topic) w in
      elim (Option-cases made.1) [
        | inl worked ↦ λ h.
            let created : create_subscription project_id topic id w ≡ (made.0, ok new) =
              rw (worked, create_subscription) refl in
            let named : name ≡ new = cc in
            let left =
              undone (subscription_path project_id new) (topic_path project_id topic) w worked in
            ap (λ x. delete_subscription project_id name x.0) created
            ∙ rw (named) (deleted project_id new made.0 w left)
        | inr (cause, failed) ↦ λ h.
            let refused : create_subscription project_id topic id w
                ≡ (made.0, err (subscription_failed new cause)) =
              rw (failed, create_subscription) refl in
            absurd (cc)
      ]
