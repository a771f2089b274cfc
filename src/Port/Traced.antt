-- ===== src/Port/Traced.antt =====
-- Any ports with a record of the calls, newest first, each with its arguments and its answer. A
-- run on traced ports makes the calls that the same run makes on the ports.
use overload_party_matchmaki.Prelude.{ℕ, ℤ, Text, Bool, List, ◌∷◌, Option, Result}
use overload_party_matchmaki.Domain.{QueueEntry}
use overload_party_matchmaki.Port.{Ports, Context, Wake}

pub data Call (Error : Type 0) : Type 0 where
  enqueued : Text → ℤ → Text → ℤ → Text → Result Error ℕ → Call Error
  cancelled : Text → Result Error Bool → Call Error
  sized : Result Error ℕ → Call Error
  popped : Result Error (List QueueEntry × Text) → Call Error
  reenqueued : Context → List QueueEntry → Text → Result Error Bool → Call Error
  published : Text → Text → Option Error → Call Error
  read_clock : ℕ → Call Error
  waited : ℕ → Wake → Call Error
  asked_ctx : Bool → Call Error
  drew_match_id : Text → Call Error

abbrev pub Trace : Type 0 → Type 0
Trace Error = List (Call Error)

-- The answer of a call, with the call put in front of the trace.
abbrev pub note :
    {World Error A : Type 0}
    → (A → Call Error)
    → (World → World × A)
    → World × Trace Error
    → (World × Trace Error) × A
note tag f w = (((f w.0).0, tag (f w.0).1 ∷ w.1), (f w.0).1)

abbrev pub traced : Ports → Ports
traced p = record {
  World = p.World × Trace p.Error;
  Error = p.Error;
  enqueue = λ player deck name level id.
      note (enqueued player deck name level id) (p.enqueue player deck name level id);
  cancel = λ player. note (cancelled player) (p.cancel player);
  size = note sized p.size;
  pop_pair = note popped p.pop_pair;
  reenqueue = λ ctx pair id. note (reenqueued ctx pair id) (p.reenqueue ctx pair id);
  publish =
      λ event_type payload. note (published event_type payload) (p.publish event_type payload);
  now = note read_clock p.now;
  wait = λ d. note (waited d) (p.wait d);
  ctx_err = note asked_ctx p.ctx_err;
  new_match_id = note drew_match_id p.new_match_id;
  marshal = p.marshal;
}
