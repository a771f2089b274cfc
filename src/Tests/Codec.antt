-- ===== src/Tests/Codec.antt =====
-- Bodies of requests that are the requests' fields one after the other, which are read back.
use overload_party_matchmaki.Prelude.{
  ℕ, zero, suc, ℤ, pos, negsuc, Text, List, [], ◌∷◌, length, Option, none, some, ◌≡◌, refl,
}
use overload_party_matchmaki.Http.Messages.{EnqueueRequest, MatchAbandonedRequest}

put_text : Text → Text → Text
put_text [] rest = 0 ∷ rest
put_text (c ∷ s) rest = suc c ∷ put_text s rest

get_text : Text → Text × Text
get_text [] = ([], [])
get_text (zero ∷ rest) = ([], rest)
get_text (suc c ∷ s) = let r = get_text s in (c ∷ r.0, r.1)

get_text-put_text : (s rest : Text) → get_text (put_text s rest) ≡ (s, rest)
unfolding get_text put_text
get_text-put_text [] rest = refl
get_text-put_text (c ∷ s) rest = rw (get_text-put_text s rest) refl

put_texts : List Text → Text → Text
unfolding put_text
put_texts [] rest = rest
put_texts (s ∷ ss) rest = put_text s (put_texts ss rest)

get_texts : ℕ → Text → List Text × Text
unfolding get_text
get_texts zero rest = ([], rest)
get_texts (suc n) s = let r = get_text s in let q = get_texts n r.1 in (r.0 ∷ q.0, q.1)

get_texts-put_texts :
    (ss : List Text) (rest : Text) → get_texts (length ss) (put_texts ss rest) ≡ (ss, rest)
unfolding get_texts put_texts
get_texts-put_texts [] rest = refl
get_texts-put_texts (s ∷ ss) rest =
    rw (get_text-put_text s (put_texts ss rest)) (rw (get_texts-put_texts ss rest) refl)

put_int : ℤ → Text → Text
put_int (pos n) rest = 0 ∷ n ∷ rest
put_int (negsuc n) rest = 1 ∷ n ∷ rest

get_int : Text → ℤ × Text
get_int (zero ∷ n ∷ rest) = (pos n, rest)
get_int (suc c ∷ n ∷ rest) = (negsuc n, rest)
get_int s = (pos 0, s)

get_int-put_int : (i : ℤ) (rest : Text) → get_int (put_int i rest) ≡ (i, rest)
unfolding get_int put_int
get_int-put_int (pos n) rest = refl
get_int-put_int (negsuc n) rest = refl

pub write_enqueue : EnqueueRequest → Text
unfolding put_int put_text
write_enqueue req =
    put_int req.deck_id
      (put_int req.level (put_text req.name (put_text req.gateway_instance_id [])))

pub read_enqueue : Text → Option EnqueueRequest
unfolding get_int get_text
read_enqueue s =
    let deck = get_int s in
    let level = get_int deck.1 in
    let name = get_text level.1 in
    let id = get_text name.1 in
    some (record { deck_id = deck.0; level = level.0; name = name.0; gateway_instance_id = id.0 })

pub read_enqueue-write_enqueue :
    (req : EnqueueRequest) → read_enqueue (write_enqueue req) ≡ some req
unfolding read_enqueue write_enqueue
read_enqueue-write_enqueue req =
    rw
      (get_int-put_int req.deck_id
        (put_int req.level (put_text req.name (put_text req.gateway_instance_id []))))
      (rw (get_int-put_int req.level (put_text req.name (put_text req.gateway_instance_id []))) (
        rw (get_text-put_text req.name (put_text req.gateway_instance_id []))
          (rw (get_text-put_text req.gateway_instance_id []) refl)))

pub write_report : MatchAbandonedRequest → Text
unfolding put_texts put_text
write_report req =
    length req.player_ids
    ∷ put_texts req.player_ids (put_text req.match_id (put_text req.reason []))

pub read_report : Text → Option MatchAbandonedRequest
unfolding get_texts get_text
read_report [] = none
read_report (n ∷ s) =
    let ids = get_texts n s in
    let id = get_text ids.1 in
    let reason = get_text id.1 in
    some (record { match_id = id.0; player_ids = ids.0; reason = reason.0 })

pub read_report-write_report :
    (req : MatchAbandonedRequest) → read_report (write_report req) ≡ some req
unfolding read_report write_report
read_report-write_report req =
    rw (get_texts-put_texts req.player_ids (put_text req.match_id (put_text req.reason []))) (
      rw (get_text-put_text req.match_id (put_text req.reason []))
        (rw (get_text-put_text req.reason []) refl))
