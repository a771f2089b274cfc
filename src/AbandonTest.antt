-- ===== src/AbandonTest.antt =====
-- internal/usecase/abandon/abandontest/queue.go: a queue that answers a cancel as it was told to, and the
-- use case of internal/usecase/abandon/abandon.go over it. The steps of a player are in a function, as
-- the Go map gives an empty list for a player with no entry.
use overload_party_matchmaki.Prelude.{
  Text, text_eq, text_eq_refl, text_eq_sound, Bool-cases, inl, inr, subst, ap, ◌∙◌, Bool, true,
  false, List, [], ◌∷◌, ◌++◌, if◌then◌else◌, Result, ok, err, ◌≡◌, refl,
}
use overload_party_matchmaki.MatcherTest.Queue.{next_step, later_steps}

module _ (Error : Type 0) where
  -- A step keeps nothing: it is its answer.
  abbrev pub CancelStep : Type 0
  CancelStep = Result Error Bool

  pub record Queue : Type 0 where
    pub steps : Text → List CancelStep
    pub requests : List Text

  unfoldable pub new_queue : Queue
  new_queue = record { steps = λ player. []; requests = [] }

  unfoldable pub player_waiting : CancelStep
  player_waiting = ok true

  unfoldable pub player_not_waiting : CancelStep
  player_not_waiting = ok false

  unfoldable pub cancel_fails : Error → CancelStep
  cancel_fails e = err e

  -- A map with a new value for one player.
  abbrev pub set_steps : Text → List CancelStep → (Text → List CancelStep) → Text → List CancelStep
  set_steps player steps old p = if text_eq p player then steps else old p

  unfoldable pub add_cancels : Text → List CancelStep → Queue → Queue
  add_cancels player steps q = record q {
    steps = set_steps player (q.steps player ++ steps) q.steps;
  }

  -- The next step of a player and the map without it.
  abbrev pub take_step :
      Text → List CancelStep → (Text → List CancelStep) → (Text → List CancelStep) × CancelStep
  take_step player [] old = (old, player_not_waiting)
  take_step player (step ∷ rest) old = (set_steps player rest old, step)

  unfoldable pub cancel : Text → Queue → Queue × Result Error Bool
  unfolding player_not_waiting
  cancel player q =
      let taken = take_step player (q.steps player) q.steps in
      (record { steps = taken.0; requests = q.requests ++ player ∷ [] }, taken.1)

  unfoldable pub cancel_each : List Text → Queue → Queue × List (Result Error Bool)
  unfolding cancel
  cancel_each [] q = (q, [])
  cancel_each (player ∷ players) q =
      let r = cancel player q in let rest = cancel_each players r.0 in (rest.0, r.1 ∷ rest.1)

  -- The answers to the cancels of one player.
  abbrev pub answers_of : Text → List Text → List (Result Error Bool) → List (Result Error Bool)
  answers_of p [] rs = []
  answers_of p (player ∷ players) [] = []
  answers_of p (player ∷ players) (r ∷ rs) =
      let rest = answers_of p players rs in if text_eq p player then r ∷ rest else rest

  -- The steps for the cancels of one player in a list, and the answer of a player who does not wait when
  -- no step is left.
  abbrev pub scripted : Text → List Text → List CancelStep → List CancelStep
  unfolding player_not_waiting
  scripted p [] steps = []
  scripted p (player ∷ players) steps =
      let rest = scripted p players steps in
      let later = scripted p players (later_steps steps) in
      if text_eq p player then next_step player_not_waiting steps ∷ later else rest

  take_step_other :
      (p player : Text) (steps : List CancelStep) (old : Text → List CancelStep)
      → text_eq p player ≡ false
      → (take_step player steps old).0 p ≡ old p
  take_step_other p player [] old e = refl
  take_step_other p player (step ∷ steps) old e = rw (e) refl

  take_step_own :
      (p : Text) (steps : List CancelStep) (old : Text → List CancelStep)
      → old p ≡ steps
      → ((take_step p steps old).0 p ≡ later_steps steps)
        × ((take_step p steps old).1 ≡ next_step player_not_waiting steps)
  take_step_own p [] old e = (e, refl)
  take_step_own p (step ∷ steps) old e = (rw (text_eq_refl p) refl, refl)

  answers_own :
      (p : Text) (players : List Text) (q : Queue)
      → answers_of p players (cancel_each players (cancel p q).0).1
        ≡ scripted p players ((cancel p q).0.steps p)
      → answers_of p (p ∷ players) (cancel_each (p ∷ players) q).1
        ≡ scripted p (p ∷ players) (q.steps p)
  unfolding cancel_each cancel
  answers_own p players q h =
      let (left, answer) = take_step_own p (q.steps p) q.steps refl in
      rw (text_eq_refl p) (rw (answer, h, left) refl)

  -- The answers to the cancels of a player are the steps that were added for this player, in their order
  -- and one for each cancel, and from then on that the player does not wait, whatever cancels of other
  -- players come between.
  pub answers_of-cancel_each :
      (p : Text) (players : List Text) (q : Queue)
      → answers_of p players (cancel_each players q).1 ≡ scripted p players (q.steps p)
  unfolding cancel_each cancel
  answers_of-cancel_each p [] q = refl
  answers_of-cancel_each p (player ∷ players) q = elim (Bool-cases (text_eq p player)) [
    | inl same ↦
        subst
          (λ x.
            answers_of p (x ∷ players) (cancel_each (x ∷ players) q).1
            ≡ scripted p (x ∷ players) (q.steps p))
          (text_eq_sound p player same)
          (answers_own p players q (answers_of-cancel_each p players (cancel p q).0))
    | inr other ↦ rw (other) (
        answers_of-cancel_each p players (cancel player q).0
        ∙ ap (scripted p players) (take_step_other p player (q.steps player) q.steps other))
  ]
