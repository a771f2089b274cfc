-- ===== src/MatchId.antt =====
-- internal/adapter/matchid/ulid_generator.go: the ids of matches. The clock, the random source and the
-- ULID library are one parameter, a generator of ULIDs over a world.
use overload_party_matchmaki.Prelude.{Text, codes, ◌++◌}

abbrev pub match_id_prefix : Text
match_id_prefix = codes "mch_"

-- NewMatchID
unfoldable pub new_match_id : {World : Type 0} → (World → World × Text) → World → World × Text
new_match_id new_ulid w = let r = new_ulid w in (r.0, match_id_prefix ++ r.1)
