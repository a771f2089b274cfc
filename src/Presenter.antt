-- ===== src/Presenter.antt =====
-- internal/presenter/event.go: ToMatchMadeWire.
use overload_party_matchmaki.Prelude.{Text, codes, map, Result, ok, err}
use overload_party_matchmaki.Domain.{MatchedPlayer, MatchMadeEvent}
use overload_party_matchmaki.Port.{WirePlayer, WireEvent}

abbrev pub event_type_match_made : Text
event_type_match_made = codes "match_made"

unfoldable pub to_wire_player : MatchedPlayer → WirePlayer
to_wire_player p = record {
  player_id = p.player_id;
  deck_id = p.deck_id;
  name = p.name;
  level = p.level;
}

unfoldable pub to_wire : MatchMadeEvent → WireEvent
unfolding to_wire_player
to_wire event = record {
  event_type = event_type_match_made;
  match_id = event.match_id;
  players = map to_wire_player event.players;
}

-- The event type and the payload.
unfoldable pub to_match_made_wire :
    {Error : Type 0} → (WireEvent → Result Error Text) → MatchMadeEvent → Result Error (Text × Text)
unfolding to_wire
to_match_made_wire marshal event = elim (marshal (to_wire event)) [
  | err e ↦ err e
  | ok payload ↦ ok (event_type_match_made, payload)
]
