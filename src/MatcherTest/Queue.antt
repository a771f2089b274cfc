-- ===== src/MatcherTest/Queue.antt =====
-- internal/usecase/matcher/matchertest/queue.go: a queue that answers what it was told to answer. A step
-- acts on a world, which has what the steps wait for and the shutdown that one of them calls; what the
-- queue keeps is beside it. A call is counted as in flight while its step runs.
use overload_party_matchmaki.Prelude.{
  ℕ, zero, suc, ◌+◌, ◌≡◌, ◌∙◌, ap, arith, ◌-◌, ltb, length, keep, Text, Bool, true, false, List, [],
  ◌∷◌, ◌++◌, Option, none, some, Result, ok, err,
}
use overload_party_matchmaki.Domain.{QueueEntry}

pub record ReenqueueRequest : Type 0 where
  pub entries : List QueueEntry
  pub gateway_instance_id : Text

-- The step that a call takes, or the one for a call too many.
abbrev pub next_step {ℓ} : {A : Type ℓ} → A → List A → A
next_step spare [] = spare
next_step spare (step ∷ steps) = step

abbrev pub later_steps {ℓ} : {A : Type ℓ} → List A → List A
later_steps [] = []
later_steps (step ∷ steps) = steps

module _ (World Error : Type 0) where
  abbrev pub Popped : Type 0
  Popped = Result Error (List QueueEntry × Text)

  pub record PopStep : Type 0 where
    pub is_pair : Bool
    pub run : World → World × Popped

  abbrev pub ReenqueueStep : Type 0
  ReenqueueStep = World → World × Result Error Bool

  pub record Queue : Type 0 where
    pub pops : List PopStep
    pub pop_calls : ℕ
    pub reenqueues : List ReenqueueStep
    pub reenqueue_requests : List ReenqueueRequest
    pub in_flight : ℕ

  unfoldable pub new_queue : Queue
  new_queue = record {
    pops = [];
    pop_calls = 0;
    reenqueues = [];
    reenqueue_requests = [];
    in_flight = 0;
  }

  unfoldable pub pair_popped : Text → List QueueEntry → PopStep
  pair_popped instance_id entries = record {
    is_pair = true;
    run = λ w. (w, ok (entries, instance_id));
  }

  unfoldable pub nothing_popped : PopStep
  nothing_popped = record { is_pair = false; run = λ w. (w, ok ([], [])) }

  unfoldable pub pop_fails : Error → PopStep
  pop_fails e = record { is_pair = false; run = λ w. (w, err e) }

  -- `gate` waits until its gate is open.
  unfoldable pub pop_blocked_until : (World → World) → PopStep
  pop_blocked_until gate = record { is_pair = false; run = λ w. (gate w, ok ([], [])) }

  unfoldable pub reenqueue_succeeds : ReenqueueStep
  reenqueue_succeeds w = (w, ok true)

  unfoldable pub reenqueue_skipped : ReenqueueStep
  reenqueue_skipped w = (w, ok false)

  unfoldable pub reenqueue_fails : Error → ReenqueueStep
  reenqueue_fails e w = (w, err e)

  unfoldable pub reenqueue_fails_after_shutdown : (World → World) → Error → ReenqueueStep
  reenqueue_fails_after_shutdown shutdown e w = (shutdown w, err e)

  unfoldable pub add_pops : List PopStep → Queue → Queue
  add_pops steps q = record q { pops = q.pops ++ steps }

  unfoldable pub add_reenqueues : List ReenqueueStep → Queue → Queue
  add_reenqueues steps q = record q { reenqueues = q.reenqueues ++ steps }

  -- finishCall
  unfoldable pub finish_call : Queue → Queue
  finish_call q = record q { in_flight = q.in_flight - 1 }

  -- What PopPair does before its step runs.
  unfoldable pub begin_pop : Queue → Queue × PopStep
  unfolding nothing_popped
  begin_pop q = (
    record q {
      pop_calls = suc q.pop_calls;
      in_flight = suc q.in_flight;
      pops = later_steps q.pops;
    },
    next_step nothing_popped q.pops,
  )

  -- PopPair
  unfoldable pub pop_pair : Queue × World → (Queue × World) × Popped
  unfolding begin_pop finish_call
  pop_pair (q, w) =
      let begun = begin_pop q in let r = begun.1.run w in ((finish_call begun.0, r.0), r.1)

  abbrev pub interrupted : Option Error → Result Error Bool → Result Error Bool
  interrupted none answer = answer
  interrupted (some e) answer = err e

  -- Reenqueue; `ctx_err` is the error of its context when it begins.
  unfoldable pub reenqueue :
      Option Error → List QueueEntry → Text → Queue × World → (Queue × World) × Result Error Bool
  unfolding reenqueue_succeeds finish_call
  reenqueue ctx_err entries instance_id (q, w) =
      let begun = record q {
        in_flight = suc q.in_flight;
        reenqueue_requests =
            q.reenqueue_requests
            ++ record { entries = entries; gateway_instance_id = instance_id } ∷ [];
        reenqueues = later_steps q.reenqueues;
      } in
      let r = next_step reenqueue_succeeds q.reenqueues w in
      ((finish_call begun, r.0), interrupted ctx_err r.1)

  unfoldable pub remaining_pairs : Queue → ℕ
  remaining_pairs q = length (keep (λ step. step.is_pair) q.pops)

  unfoldable pub call_count : Queue → ℕ
  call_count q = q.pop_calls + length q.reenqueue_requests

  unfoldable pub has_calls_in_flight : Queue → Bool
  has_calls_in_flight q = ltb 0 q.in_flight

  -- As many calls of PopPair as a number says.
  unfoldable pub pop_pairs : ℕ → Queue × World → (Queue × World) × List Popped
  unfolding pop_pair
  pop_pairs zero s = (s, [])
  pop_pairs (suc n) s = let r = pop_pair s in let rest = pop_pairs n r.0 in (rest.0, r.1 ∷ rest.1)

  -- The answers of steps that run one after the other.
  abbrev pub run_steps : List PopStep → World → World × List Popped
  run_steps [] w = (w, [])
  run_steps (step ∷ steps) w =
      let r = step.run w in let rest = run_steps steps r.0 in (rest.0, r.1 ∷ rest.1)

  -- The calls of PopPair take the steps that were added in their order, one each: as many calls as there
  -- are steps answer what these answer, leave the world as they leave it, count themselves, and leave
  -- no step and no further call in flight.
  pub pop_pairs-run_steps :
      (steps : List PopStep) (q : Queue) (w : World)
      → pop_pairs (length steps) (record q { pops = steps }, w) ≡ (
        (record q { pops = []; pop_calls = q.pop_calls + length steps }, (run_steps steps w).0),
        (run_steps steps w).1,
      )
  unfolding pop_pairs pop_pair begin_pop finish_call
  pop_pairs-run_steps [] q w =
      ap (λ n. ((record q { pops = []; pop_calls = n }, w), [])) (omega arith)
  pop_pairs-run_steps (step ∷ steps) q w =
      let returned : suc q.in_flight - 1 ≡ q.in_flight = omega arith in
      let counted : ℕ → Queue =
        λ n. record q { pops = steps; pop_calls = suc q.pop_calls; in_flight = n } in
      let rest : ℕ → (Queue × World) × List Popped =
        λ n. pop_pairs (length steps) (counted n, (step.run w).0) in
      ap (λ n. ((rest n).0, (step.run w).1 ∷ (rest n).1)) returned
      ∙ ap (λ r. (r.0, (step.run w).1 ∷ r.1))
          (pop_pairs-run_steps steps (record q { pop_calls = suc q.pop_calls }) (step.run w).0)
      ∙ ap
          (λ n. (
            (record q { pops = []; pop_calls = n }, (run_steps steps (step.run w).0).0),
            (step.run w).1 ∷ (run_steps steps (step.run w).0).1,
          ))
          (omega arith)
