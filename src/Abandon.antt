-- ===== src/Abandon.antt =====
-- internal/usecase/abandon/abandon.go: a reported match is given up by taking its players out.
use overload_party_matchmaki.Prelude.{
  ℕ, suc, Text, Bool, ◌≡◌, refl, ap, ◌∙◌, List, [], ◌∷◌, ◌++◌, length, Result, ok, err,
}
use overload_party_matchmaki.Port.{Ports}
use overload_party_matchmaki.Port.Traced.{cancelled, Trace, traced}

-- One joined error: the match, the player and the cause.
pub record CancelError (Error : Type 0) : Type 0 where
  pub match_id : Text
  pub player_id : Text
  pub cause : Error

-- The log line of a success.
pub record AbandonLog : Type 0 where
  pub match_id : Text
  pub reason : Text
  pub player_count : ℕ

abbrev pub errs_of {ℓ} :
    {Error : Type 0} {A : Type ℓ} → Text → Text → Result Error A → List (CancelError Error)
errs_of match_id player (ok _) = []
errs_of match_id player (err e) = record { match_id = match_id; player_id = player; cause = e } ∷ []

module _ (ports : Ports) where
  open ports use {World, Error, cancel}

  -- The loop over the players: no error stops it.
  unfoldable pub cancel_all : Text → List Text → World → World × List (CancelError Error)
  cancel_all match_id [] w = (w, [])
  cancel_all match_id (player ∷ players) w =
      let r = cancel player w in
      let rest = cancel_all match_id players r.0 in (rest.0, errs_of match_id player r.1 ++ rest.1)

  -- The joined errors, or the log line.
  unfoldable pub finish :
      Text
      → List Text
      → Text
      → List (CancelError Error)
      → Result (List (CancelError Error)) AbandonLog
  finish match_id players reason [] =
      ok (record { match_id = match_id; reason = reason; player_count = length players })
  finish match_id players reason (e ∷ es) = err (e ∷ es)

  unfoldable pub abandon :
      Text → List Text → Text → World → World × Result (List (CancelError Error)) AbandonLog
  unfolding cancel_all finish
  abandon match_id players reason w =
      let r = cancel_all match_id players w in (r.0, finish match_id players reason r.1)

-- The errors of the cancels, by the answers of the queue, in order.
abbrev pub answers :
    {Error : Type 0} → Text → List Text → List (Result Error Bool) → List (CancelError Error)
answers match_id [] rs = []
answers match_id (p ∷ ps) [] = []
answers match_id (p ∷ ps) (ok removed ∷ rs) = answers match_id ps rs
answers match_id (p ∷ ps) (err e ∷ rs) =
    record { match_id = match_id; player_id = p; cause = e } ∷ answers match_id ps rs

errs_of-answers :
    {Error : Type 0} (match_id p : Text) (ps : List Text) (r : Result Error Bool)
    (rs : List (Result Error Bool)) (es : List (CancelError Error))
    → es ≡ answers match_id ps rs
    → errs_of match_id p r ++ es ≡ answers match_id (p ∷ ps) (r ∷ rs)
errs_of-answers match_id p ps (ok removed) rs es h = h
errs_of-answers match_id p ps (err e) rs es h =
    ap (λ x. record { match_id = match_id; player_id = p; cause = e } ∷ x) h

-- What a caller should get: an error with every failed cancel, if there is one, or else the log line.
abbrev pub outcome :
    {Error : Type 0}
    → Text
    → List Text
    → Text
    → List (CancelError Error)
    → Result (List (CancelError Error)) AbandonLog
outcome match_id players reason [] =
    ok (record { match_id = match_id; reason = reason; player_count = length players })
outcome match_id players reason (e ∷ es) = err (e ∷ es)

-- The calls of a list of players with their answers, newest first, in front of a trace.
abbrev pub cancels :
    {Error : Type 0} → List Text → List (Result Error Bool) → Trace Error → Trace Error
cancels [] rs cs = cs
cancels (p ∷ ps) [] cs = cs
cancels (p ∷ ps) (r ∷ rs) cs = cancels ps rs (cancelled p r ∷ cs)

module _ (ports : Ports) where
  open ports use {Error}

  cancel_all-answers :
      (match_id : Text) (players : List Text) (w : (traced ports).World)
      → (rs : List (Result Error Bool)) × (length rs ≡ length players)
        × ((cancel_all (traced ports) match_id players w).0.1 ≡ cancels players rs w.1)
        × ((cancel_all (traced ports) match_id players w).1 ≡ answers match_id players rs)
  unfolding cancel_all
  cancel_all-answers match_id [] w = ([], refl, refl, refl)
  cancel_all-answers match_id (player ∷ players) w =
      let r = (traced ports).cancel player w in
      let (rs, same_length, same_trace, same_errors) = cancel_all-answers match_id players r.0 in
      (
        r.1 ∷ rs,
        ap suc same_length,
        same_trace,
        errs_of-answers match_id player players r.1 rs _ same_errors,
      )

  finish-outcome :
      (match_id : Text) (players : List Text) (reason : Text) (es : List (CancelError Error))
      → finish (traced ports) match_id players reason es ≡ outcome match_id players reason es
  unfolding finish
  finish-outcome match_id players reason [] = refl
  finish-outcome match_id players reason (e ∷ es) = refl

  -- Abandon cancels every reported player exactly once, in order, whatever the answers are; it
  -- succeeds exactly if no answer is an error, and its error otherwise holds one entry for each
  -- failed cancel, in order, with the match, the player and the cause. On success the log line
  -- has the match, the reason and the number of players.
  pub abandon-answers :
      (match_id : Text) (players : List Text) (reason : Text) (w : (traced ports).World)
      → (rs : List (Result Error Bool)) × (length rs ≡ length players)
        × ((abandon (traced ports) match_id players reason w).0.1 ≡ cancels players rs w.1)
        × ((abandon (traced ports) match_id players reason w).1
            ≡ outcome match_id players reason (answers match_id players rs))
  unfolding abandon
  abandon-answers match_id players reason w =
      let (rs, same_length, same_trace, same_errors) = cancel_all-answers match_id players w in
      (
        rs,
        same_length,
        same_trace,
        ap (finish (traced ports) match_id players reason) same_errors
            ∙ finish-outcome match_id players reason (answers match_id players rs),
      )
