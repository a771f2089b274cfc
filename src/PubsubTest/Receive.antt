-- ===== src/PubsubTest/Receive.antt =====
-- The goroutine of Subscribe of internal/adapter/pubsub/pubsubtest/emulator.go and `stop`, as a relation
-- between the states of a subscription. A step is one operation of one goroutine; the callbacks of
-- Receive run side by side, and the order of the steps is open. Receive of the Pub/Sub library starts no
-- callback after its return and returns when the callbacks that it has started have ended.
pub mod Kept
use overload_party_matchmaki.Prelude.{
  ℕ, ◌≤◌, ◌+◌, ltb, length, length-append, Text, text_eq, Bool, true, false, Bool-cases, inl, inr,
  List, [], ◌∷◌, ◌++◌, append-nil, append_assoc, Option, none, some, if◌then◌else◌, ◌≡◌, refl, sym,
  ap, ◌∙◌, arith,
}

-- The room of the channel `ch`.
abbrev pub received_message_buffer_size : ℕ
received_message_buffer_size = 64

pub record Subscription : Type 0 where
  -- the channel `ch`, whether `receiveCtx` is cancelled, and whether `done` is closed
  pub buffer : List Text
  pub is_cancelled : Bool
  pub is_done : Bool
  pub receive_err : Option Text
  -- the messages of the callbacks that are at their `select`
  pub handling : List Text
  -- what was acknowledged, what was read from the channel, and what a cancelled callback let go
  pub acked : List Text
  pub taken : List Text
  pub dropped : List Text

abbrev pub subscribed : Subscription
subscribed = record {
  buffer = [];
  is_cancelled = false;
  is_done = false;
  receive_err = none;
  handling = [];
  acked = [];
  taken = [];
  dropped = [];
}

pub data Step : Subscription → Subscription → Type 0 where
  -- a callback starts with `m.Ack()`
  acks :
      (s : Subscription) (m : Text)
      → s.is_done ≡ false
      → Step s (record s { handling = s.handling ++ m ∷ []; acked = s.acked ++ m ∷ [] })
  -- `case ch <- &Message{...}`, which must have room
  sends :
      (s : Subscription) (before : List Text) (m : Text) (after : List Text)
      → s.handling ≡ before ++ m ∷ after
      → ltb (length s.buffer) received_message_buffer_size ≡ true
      → Step s (record s { handling = before ++ after; buffer = s.buffer ++ m ∷ [] })
  -- `case <-receiveCtx.Done()`
  drops :
      (s : Subscription) (before : List Text) (m : Text) (after : List Text)
      → s.handling ≡ before ++ m ∷ after
      → s.is_cancelled ≡ true
      → Step s (record s { handling = before ++ after; dropped = s.dropped ++ m ∷ [] })
  -- `<-s.ch` of WaitForN
  takes :
      (s : Subscription) (m : Text) (rest : List Text)
      → s.buffer ≡ m ∷ rest
      → Step s (record s { buffer = rest; taken = s.taken ++ m ∷ [] })
  -- `s.cancel()` of `stop`
  cancels : (s : Subscription) → Step s (record s { is_cancelled = true })
  -- Receive returns, and the deferred `close(s.done)`
  returns :
      (s : Subscription) (e : Option Text)
      → s.is_done ≡ false
      → s.handling ≡ []
      → Step s (record s { is_done = true; receive_err = e })

pub data Steps : Subscription → Subscription → Type 0 where
  stays : (s : Subscription) → Steps s s
  then_step : {s t u : Subscription} → Step s t → Steps t u → Steps s u

-- Where `stop` returns: behind `s.cancel()` and `<-s.done`.
pub record IsStopped (s : Subscription) : Type 0 where
  pub cancelled : s.is_cancelled ≡ true
  pub ended : s.is_done ≡ true
