-- ===== src/PubsubTest/Wait.antt =====
-- WaitForN of internal/adapter/pubsub/pubsubtest/emulator.go against what arrives.
use overload_party_matchmaki.Prelude.{
  ℕ, ◌≤◌, leb, ltb, ltb→lt, length, length-append, take, Text, true, false, Bool-cases, List, [],
  ◌∷◌, ◌++◌, append-nil, append_assoc, Option, none, some, if◌then◌else◌, ◌≡◌, refl, sym, ap, ◌∙◌,
  inl, inr, arith,
}
use overload_party_matchmaki.PubsubTest.{
  Wake, arrives, receive_stopped, timer_fired, WaitError, receive_failed, timeout, wait_loop,
  wait_for_n,
}

-- The messages before anything else happens, and what happens first that is no message.
abbrev pub arrivals : List Wake → List Text
arrivals [] = []
arrivals (arrives m ∷ wakes) = m ∷ arrivals wakes
arrivals (receive_stopped e ∷ wakes) = []
arrivals (timer_fired ∷ wakes) = []

abbrev pub ending : List Wake → Option WaitError
ending [] = none
ending (arrives m ∷ wakes) = ending wakes
ending (receive_stopped e ∷ wakes) = some (receive_failed e)
ending (timer_fired ∷ wakes) = some timeout

-- What a wait for `n` messages should give.
abbrev pub outcome : ℕ → List Text → Option WaitError → Option (List Text × Option WaitError)
outcome n msgs end =
    if leb n (length msgs)
    then some (take n msgs, none)
    else elim end [ none ↦ none | some e ↦ some (msgs, some e) ]

take-append : (msgs rest : List Text) → take (length msgs) (msgs ++ rest) ≡ msgs
take-append [] rest = refl
take-append (m ∷ msgs) rest = ap (λ x. m ∷ x) (take-append msgs rest)

-- With enough messages nothing that follows matters.
enough :
    (n : ℕ) (msgs rest : List Text) (end : Option WaitError)
    → ltb (length msgs) n ≡ false
    → length msgs ≤ n
    → outcome n (msgs ++ rest) end ≡ some (msgs, none)
enough n msgs rest end h le =
    let all : length msgs ≡ n = ground (arith, h) in
    let long : leb n (length (msgs ++ rest)) ≡ true = ground (arith, length-append msgs rest) in
    rw (long, outcome) (rw (← all) (rw (take-append msgs rest) refl))

-- With too few, what has happened counts.
too_few :
    (n : ℕ) (msgs : List Text) (end : Option WaitError)
    → ltb (length msgs) n ≡ true
    → outcome n (msgs ++ []) end ≡ elim end [ none ↦ none | some e ↦ some (msgs, some e) ]
too_few n msgs end h =
    let short : leb n (length msgs) ≡ false = ground (arith, h) in
    ap (λ x. outcome n x end) (append-nil msgs) ∙ rw (short, outcome) refl

loop-outcome :
    (n : ℕ) (msgs : List Text) (wakes : List Wake)
    → length msgs ≤ n
    → wait_loop n msgs wakes ≡ outcome n (msgs ++ arrivals wakes) (ending wakes)
unfolding wait_loop
loop-outcome n msgs [] le = elim (Bool-cases (ltb (length msgs) n)) [
  | inl few ↦ rw (few) (sym (too_few n msgs none few))
  | inr full ↦ rw (full) (sym (enough n msgs [] none full le))
]
loop-outcome n msgs (arrives m ∷ wakes) le = elim (Bool-cases (ltb (length msgs) n)) [
  | inl few ↦
      let longer : length (msgs ++ m ∷ []) ≤ n =
        omega (arith, length-append msgs (m ∷ []), ltb→lt (length msgs) n few) in
      rw (few) (
        loop-outcome n (msgs ++ m ∷ []) wakes longer
        ∙ ap (λ x. outcome n x (ending wakes)) (append_assoc msgs (m ∷ []) (arrivals wakes)))
  | inr full ↦ rw (full) (sym (enough n msgs (m ∷ arrivals wakes) (ending wakes) full le))
]
loop-outcome n msgs (receive_stopped e ∷ wakes) le = elim (Bool-cases (ltb (length msgs) n)) [
  | inl few ↦ rw (few) (sym (too_few n msgs (some (receive_failed e)) few))
  | inr full ↦ rw (full) (sym (enough n msgs [] (some (receive_failed e)) full le))
]
loop-outcome n msgs (timer_fired ∷ wakes) le = elim (Bool-cases (ltb (length msgs) n)) [
  | inl few ↦ rw (few) (sym (too_few n msgs (some timeout) few))
  | inr full ↦ rw (full) (sym (enough n msgs [] (some timeout) full le))
]

-- WaitForN gives the first `n` messages, in the order in which they arrive, if so many arrive before the
-- receive stops or the timer fires; it goes on waiting if nothing of that happens; and otherwise it gives
-- all the messages that arrived, with the error of what happened.
pub wait_for_n-outcome :
    (n : ℕ) (wakes : List Wake) → wait_for_n n wakes ≡ outcome n (arrivals wakes) (ending wakes)
unfolding wait_for_n
wait_for_n-outcome n wakes = loop-outcome n [] wakes (omega arith)
