-- ===== src/HttpTest/Fakes.antt =====
-- internal/adapter/httphandler/httphandlertest/fakes.go: the queue whose answers a test gives. The other
-- ports are those of any ports.
use overload_party_matchmaki.Prelude.{
  ℕ, Text, Bool, false, Option, Option-cases, none, some, Result, ok, err, ◌≡◌, refl, inl, inr,
}
use overload_party_matchmaki.Port.{Ports}
use overload_party_matchmaki.Http.Messages.{EnqueueRequest}
use overload_party_matchmaki.Http.Handler.{
  check_enqueue, handle_enqueue, handle_cancel, handle_queue_size, after_enqueue, after_cancel,
  after_size, respond_unavailable, dependency_unavailable, bad_request,
}

module _ (Error : Type 0) where
  pub record FakeQueue : Type 0 where
    pub enqueue_removed_count : ℕ
    pub enqueue_err : Option Error
    pub cancel_removed : Bool
    pub cancel_err : Option Error
    pub queue_size : ℕ
    pub size_err : Option Error

  -- NewFailingQueue
  unfoldable pub new_failing_queue : Error → FakeQueue
  new_failing_queue e = record {
    enqueue_removed_count = 0;
    enqueue_err = some e;
    cancel_removed = false;
    cancel_err = some e;
    queue_size = 0;
    size_err = some e;
  }

  -- A Go pair of a value and an error.
  abbrev pub answer {ℓ} : {A : Type ℓ} → A → Option Error → Result Error A
  answer a none = ok a
  answer a (some e) = err e

-- The methods of FakeQueue over any other ports; `unsupported` is errUnsupported.
abbrev pub with_fake_queue : (p : Ports) → p.Error → FakeQueue p.Error → Ports
with_fake_queue p unsupported q = record p {
  enqueue =
      λ player deck name level id w. (w, answer p.Error q.enqueue_removed_count q.enqueue_err);
  cancel = λ player w. (w, answer p.Error q.cancel_removed q.cancel_err);
  size = λ w. (w, answer p.Error q.queue_size q.size_err);
  pop_pair = λ w. (w, err unsupported);
  reenqueue = λ ctx pair id w. (w, err unsupported);
}

module _ (p : Ports) (unsupported e : p.Error) where
  abbrev pub failing_ports : Ports
  failing_ports = with_fake_queue p unsupported (new_failing_queue p.Error e)

  -- A service on a failing queue is unavailable: the world is as before, a cancel, the size and an
  -- enqueue that passes the checks are answered 503 with the error in the log, and an enqueue that
  -- does not pass them is still a bad request.
  pub failing_ports-unavailable :
      (req : EnqueueRequest) (player : Text) (w : p.World)
      → (handle_cancel failing_ports player w ≡ (w, respond_unavailable (dependency_unavailable e)))
        × (handle_queue_size failing_ports w ≡ (w, respond_unavailable (dependency_unavailable e)))
        × (handle_enqueue failing_ports (some req) player w ≡ (
          w,
          elim (check_enqueue req) [
            | none ↦ respond_unavailable (dependency_unavailable e)
            | some message ↦ bad_request message
          ],
        ))
  unfolding new_failing_queue handle_cancel after_cancel handle_queue_size after_size handle_enqueue
      after_enqueue
  failing_ports-unavailable req player w = (
    refl,
    refl,
    elim (Option-cases (check_enqueue req)) [
      | inl accepted ↦ rw (accepted, handle_enqueue) refl
      | inr (message, refused) ↦ rw (refused, handle_enqueue) refl
    ],
  )
