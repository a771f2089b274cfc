-- ===== src/PubsubTest/Receive/Kept.antt =====
-- What the steps of a subscription of internal/adapter/pubsub/pubsubtest/emulator.go keep, and its end.
use overload_party_matchmaki.Prelude.{
  ℕ, ◌≤◌, ◌+◌, length, length-append, Text, text_eq, true, false, Bool-cases, inl, inr, List, [],
  ◌∷◌, ◌++◌, append_assoc, none, if◌then◌else◌, ◌≡◌, refl, sym, ap, ◌∙◌, arith,
}
use overload_party_matchmaki.PubsubTest.Receive.{
  received_message_buffer_size, Subscription, subscribed, Step, acks, sends, drops, takes, cancels,
  returns, Steps, stays, then_step, IsStopped,
}

-- How often a message is in a list.
abbrev pub count : Text → List Text → ℕ
count x [] = 0
count x (m ∷ ms) = (if text_eq x m then 1 else 0) + count x ms

count-append : (x : Text) (ms ns : List Text) → count x (ms ++ ns) ≡ count x ms + count x ns
count-append x [] ns = omega arith
count-append x (m ∷ ms) ns = omega (arith, count-append x ms ns)

-- Every acknowledged message is in one place; none is let go before the cancel; the channel has room
-- for its messages; and no callback is left when `done` is closed.
pub record IsKept (s : Subscription) : Type 0 where
  pub placed :
      (x : Text)
      → count x s.acked
        ≡ count x s.taken + count x s.buffer + (count x s.handling + count x s.dropped)
  pub fits : length s.buffer ≤ received_message_buffer_size
  pub none_dropped : s.is_cancelled ≡ false → s.dropped ≡ []
  pub all_ended : s.is_done ≡ true → s.handling ≡ []

count_out :
    (x : Text) (before : List Text) (m : Text) (after : List Text)
    → count x (before ++ m ∷ after) ≡ count x (before ++ after) + count x (m ∷ [])
count_out x before m after =
    omega (arith, count-append x before (m ∷ after), count-append x before after)

cons_out : (before : List Text) (m : Text) (after : List Text) → ¬ (before ++ m ∷ after ≡ [])
cons_out [] m after e = absurd (cc)
cons_out (b ∷ before) m after e = absurd (cc)

Step-IsKept : {s t : Subscription} → Step s t → IsKept s → IsKept t
Step-IsKept (acks s m open_yet) h = record {
  placed = λ x.
      omega
        (arith, h.placed x, count-append x s.acked (m ∷ []), count-append x s.handling (m ∷ []));
  fits = h.fits;
  none_dropped = h.none_dropped;
  all_ended = λ d. absurd (cc);
}
Step-IsKept (sends s before m after e room) h = record {
  placed = λ x.
      let out : count x s.handling ≡ count x (before ++ after) + count x (m ∷ []) =
        ap (count x) e ∙ count_out x before m after in
      omega (arith, h.placed x, out, count-append x s.buffer (m ∷ []));
  fits = ground (arith, room, length-append s.buffer (m ∷ []));
  none_dropped = h.none_dropped;
  all_ended = λ d. absurd (cons_out before m after (sym e ∙ h.all_ended d));
}
Step-IsKept (drops s before m after e c) h = record {
  placed = λ x.
      let out : count x s.handling ≡ count x (before ++ after) + count x (m ∷ []) =
        ap (count x) e ∙ count_out x before m after in
      omega (arith, h.placed x, out, count-append x s.dropped (m ∷ []));
  fits = h.fits;
  none_dropped = λ n. absurd (cc);
  all_ended = λ d. absurd (cons_out before m after (sym e ∙ h.all_ended d));
}
Step-IsKept (takes s m rest e) h = record {
  placed = λ x. omega (arith, h.placed x, count-append x s.taken (m ∷ []), ap (count x) e);
  fits = omega (arith, h.fits, ap length e);
  none_dropped = h.none_dropped;
  all_ended = h.all_ended;
}
Step-IsKept (cancels s) h = record {
  placed = h.placed;
  fits = h.fits;
  none_dropped = λ n. absurd (cc);
  all_ended = h.all_ended;
}
Step-IsKept (returns s err open_yet idle) h = record {
  placed = h.placed;
  fits = h.fits;
  none_dropped = h.none_dropped;
  all_ended = λ d. idle;
}

Steps-IsKept : {s t : Subscription} → Steps s t → IsKept s → IsKept t
Steps-IsKept (stays s) h = h
Steps-IsKept (then_step a b) h = Steps-IsKept b (Step-IsKept a h)

subscribed-IsKept : IsKept subscribed
subscribed-IsKept = record {
  placed = λ x. omega arith;
  fits = omega arith;
  none_dropped = λ n. refl;
  all_ended = λ d. refl;
}

-- If the receive ends before it is cancelled, every message that was acknowledged has been read from the
-- channel or is in it, as often as it was acknowledged, whatever the order of the steps.
ended-received :
    {s : Subscription}
    → Steps subscribed s
    → s.is_done ≡ true
    → s.is_cancelled ≡ false
    → (x : Text) → count x s.acked ≡ count x (s.taken ++ s.buffer)
ended-received {s} steps done live x =
    let h = Steps-IsKept steps subscribed-IsKept in
    omega (
      arith,
      h.placed x,
      ap (count x) (h.none_dropped live),
      ap (count x) (h.all_ended done),
      count-append x s.taken s.buffer,
    )

-- What a subscription has received, read or not.
abbrev received : Subscription → List Text
received s = s.taken ++ s.buffer

step-received :
    {s t : Subscription}
    → Step s t
    → s.is_done ≡ true
    → s.handling ≡ []
    → (t.is_done ≡ true) × (t.handling ≡ []) × (received t ≡ received s)
step-received (acks s m open_yet) d idle = absurd (cc)
step-received (sends s before m after e room) d idle =
    absurd (cons_out before m after (sym e ∙ idle))
step-received (drops s before m after e c) d idle = absurd (cons_out before m after (sym e ∙ idle))
step-received (takes s m rest e) d idle =
    (d, idle, append_assoc s.taken (m ∷ []) rest ∙ ap (λ b. s.taken ++ b) (sym e))
step-received (cancels s) d idle = (d, idle, refl)
step-received (returns s err open_yet no_one) d idle = absurd (cc)

done-received :
    {s t : Subscription} → Steps s t → s.is_done ≡ true → IsKept s → received t ≡ received s
done-received (stays s) d h = refl
done-received (then_step a b) d h =
    let (done, idle, same) = step-received a d (h.all_ended d) in
    done-received b done (Step-IsKept a h) ∙ same

-- Once `stop` has returned, nothing more is received, whatever steps follow.
stopped-received :
    {s t : Subscription} → Steps s t → IsStopped s → IsKept s → received t ≡ received s
stopped-received steps stop h = done-received steps stop.ended h

-- The callbacks of a cancelled receive can let go of their messages one by one, and Receive returns.
drain :
    (ms : List Text) (s : Subscription)
    → s.handling ≡ ms
    → s.is_cancelled ≡ true
    → s.is_done ≡ false
    → (t : Subscription) × Steps s t × IsStopped t
drain [] s e c d =
    let t : Subscription = record s { is_done = true; receive_err = none } in
    (t, then_step (returns s none d e) (stays t), record { cancelled = c; ended = refl })
drain (m ∷ ms) s e c d =
    let left : Subscription = record s { handling = ms; dropped = s.dropped ++ m ∷ [] } in
    let (t, steps, stop) = drain ms left refl c d in
    (t, then_step (drops s [] m ms e c) steps, stop)

-- `stop` never waits for ever for want of a step: every state can go on to one where it returns, also
-- with callbacks that wait for room in the channel.
can_stop : (s : Subscription) → (t : Subscription) × Steps s t × IsStopped t
can_stop s =
    let cancelled : Subscription = record s { is_cancelled = true } in
    elim (Bool-cases s.is_done) [
      | inl d ↦ (
        cancelled,
        then_step (cancels s) (stays cancelled),
        record { cancelled = refl; ended = d },
      )
      | inr d ↦
          let (t, steps, stop) = drain s.handling cancelled refl refl d in
          (t, then_step (cancels s) steps, stop)
    ]
