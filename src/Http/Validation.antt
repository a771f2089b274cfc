-- ===== src/Http/Validation.antt =====
-- The reports and requests that the handlers accept.
use overload_party_matchmaki.Prelude.{
  pos, ◌≤ℤ◌, Text, text_eq_iff, text_eq_sound, text_eq_refl, false, ◌≡◌, ◌≢◌, ◌↔◌, refl, List, [],
  ◌∷◌, none, arith,
}
use overload_party_matchmaki.Std.Strings.{is_blank}
use overload_party_matchmaki.Http.Messages.{
  EnqueueRequest, MatchAbandonedRequest, is_valid_reason, reason_player_not_connected,
}
use overload_party_matchmaki.Http.Handler.{check_report, check_enqueue, check_player_ids}

-- What a report has to be: a match, two players that are not empty and not the same, and the reason.
pub record IsReport (match_id : Text) (ids : List Text) (reason : Text) : Type 0 where
  pub first : Text
  pub second : Text
  pub named : match_id ≢ []
  pub pair : ids ≡ first ∷ second ∷ []
  pub first_named : first ≢ []
  pub second_named : second ≢ []
  pub distinct : first ≢ second
  pub known : reason ≡ reason_player_not_connected

abbrev report : Text → List Text → Text → MatchAbandonedRequest
report match_id ids reason = record { match_id = match_id; player_ids = ids; reason = reason }

pair_distinct :
    (a b : Text) → check_player_ids [] (a ∷ b ∷ []) ≡ none → (a ≢ []) × (b ≢ []) × (a ≢ b)
unfolding check_player_ids
pair_distinct [] b h = cc
pair_distinct (c ∷ s) [] h = ground arith
pair_distinct (c ∷ s) (d ∷ t) h = ground (arith, text_eq_refl (c ∷ s), text_eq_iff (c ∷ s) (d ∷ t))

pair_accepted : (a b : Text) → a ≢ [] → b ≢ [] → a ≢ b → check_player_ids [] (a ∷ b ∷ []) ≡ none
unfolding check_player_ids
pair_accepted [] b h k d = absurd (h refl)
pair_accepted (c ∷ s) [] h k d = absurd (k refl)
pair_accepted (c ∷ s) (e ∷ t) h k d = ground (arith, text_eq_sound (c ∷ s) (e ∷ t))

report_sound :
    (match_id reason : Text) (ids : List Text)
    → check_report (report match_id ids reason) ≡ none
    → IsReport match_id ids reason
unfolding check_report is_valid_reason
report_sound match_id reason [] h = absurd (ground arith)
report_sound match_id reason (a ∷ []) h = absurd (ground arith)
report_sound match_id reason (a ∷ b ∷ c ∷ ids) h = absurd (ground arith)
report_sound match_id reason (a ∷ b ∷ []) h =
    let checked : check_player_ids [] (a ∷ b ∷ []) ≡ none = ground arith in
    let (first_named, second_named, distinct) = pair_distinct a b checked in
    record {
      first = a;
      second = b;
      named = ground (arith, text_eq_refl match_id);
      pair = refl;
      first_named = first_named;
      second_named = second_named;
      distinct = distinct;
      known = ground (arith, text_eq_sound reason reason_player_not_connected);
    }

report_complete :
    (match_id reason : Text) (ids : List Text)
    → IsReport match_id ids reason
    → check_report (report match_id ids reason) ≡ none
unfolding check_report is_valid_reason
report_complete match_id reason ids v = ground (
  arith,
  pair_accepted v.first v.second v.first_named v.second_named v.distinct,
  text_eq_sound match_id [],
  text_eq_refl reason_player_not_connected,
)

-- The checks of ReportMatchAbandoned let a report through exactly if it names a match and two
-- different players that are not empty, and gives the known reason.
pub check_report_iff :
    (req : MatchAbandonedRequest)
    → (check_report req ≡ none) ↔ IsReport req.match_id req.player_ids req.reason
check_report_iff req = (
  report_sound req.match_id req.reason req.player_ids,
  report_complete req.match_id req.reason req.player_ids,
)

-- The checks of Enqueue let a request through exactly if its deck is positive and neither its name
-- nor its gateway instance is blank.
pub check_enqueue_iff :
    (req : EnqueueRequest)
    → (check_enqueue req ≡ none) ↔ (
        (pos 1 ≤ℤ req.deck_id)
        × (is_blank req.name ≡ false)
        × (is_blank req.gateway_instance_id ≡ false))
unfolding check_enqueue
check_enqueue_iff req = (λ h. ground arith, λ h. ground arith)
