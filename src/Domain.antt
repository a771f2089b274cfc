-- ===== src/Domain.antt =====
-- internal/domain/model.go and internal/domain/event.go: the queue entry, the matched player and the
-- event of a made match. A `time.Time` of a queue entry is its Unix time in milliseconds, which is
-- all that the queue stores of it.
use overload_party_matchmaki.Prelude.{ℕ, ℤ, Text, List, map}

abbrev pub match_player_count : ℕ
match_player_count = 2

pub record QueueEntry : Type 0 where
  pub player_id : Text
  pub deck_id : ℤ
  pub name : Text
  pub level : ℤ
  pub joined_at : ℤ

pub record MatchedPlayer : Type 0 where
  pub player_id : Text
  pub deck_id : ℤ
  pub name : Text
  pub level : ℤ

pub record MatchMadeEvent : Type 0 where
  pub match_id : Text
  pub players : List MatchedPlayer

-- internal/usecase/matcher/matcher.go, collectPlayerIDs.
unfoldable pub collect_player_ids : List QueueEntry → List Text
collect_player_ids = map (λ e. e.player_id)
