-- ===== src/RedisQueueTest.antt =====
-- internal/adapter/redisqueue/redisqueuetest and httphandlertest/valkey.go: the Valkey of the tests, as
-- the events that they cause. What the container and go-redis answer is the parameter `out`.
use overload_party_matchmaki.Prelude.{
  ℕ, Text, codes, List, [], ◌∷◌, ◌++◌, Option, none, some, Result, Result-cases, ok, err, inl, inr,
}

pub data ContainerError : Type 0 where
  start_failed host_failed port_failed terminate_failed : Text → ContainerError

pub data Event : Type 0 where
  container_started container_terminated client_opened client_closed tests_run : Event

pub record Valkey : Type 1 where
  pub Handle : Type 0
  -- testcontainers.GenericContainer
  pub start : Result Text Handle
  pub host : Handle → Result Text Text
  pub mapped_port : Handle → Result Text Text
  pub terminate : Handle → Option Text
  -- redis.ParseURL, with the address of the options
  pub parse_url : Text → Result Text Text
  -- m.Run
  pub run_tests : ℕ

module _ (out : Valkey) where
  open out use {Handle}

  pub record Container : Type 0 where
    pub container : Handle
    pub url : Text

  abbrev pub Started : Type 0
  Started = List Event × Result (List ContainerError) Container

  abbrev pub terminate_error : Handle → List ContainerError
  terminate_error h = elim (out.terminate h) [ none ↦ [] | some e ↦ terminate_failed e ∷ [] ]

  abbrev pub give_up : Handle → ContainerError → Started
  give_up h e = (container_started ∷ container_terminated ∷ [], err (e ∷ terminate_error h))

  unfoldable pub find_port : Handle → Text → Started
  find_port h host = elim (out.mapped_port h) [
    | err e ↦ give_up h (port_failed e)
    | ok mapped ↦ (
      container_started ∷ [],
      ok (record { container = h; url = codes "redis://" ++ (host ++ b':' ∷ mapped) }),
    )
  ]

  unfoldable pub find_host : Handle → Started
  unfolding find_port
  find_host h = elim (out.host h) [ err e ↦ give_up h (host_failed e) | ok host ↦ find_port h host ]

  unfoldable pub after_start : Result Text Handle → Started
  unfolding find_host
  after_start (err e) = ([], err (start_failed e ∷ []))
  after_start (ok h) = find_host h

  -- New
  unfoldable pub new : Started
  unfolding after_start
  new = after_start out.start

  -- What RunWithValkey does with a container; the deferred calls come behind the tests.
  unfoldable pub run_against : List Event → Container → List Event × ℕ
  run_against before c = elim (out.parse_url c.url) [
    | err e ↦ (before ++ container_terminated ∷ [], 1)
    | ok addr ↦ (
      before ++ client_opened ∷ tests_run ∷ client_closed ∷ container_terminated ∷ [],
      out.run_tests,
    )
  ]

  unfoldable pub run_started : Started → List Event × ℕ
  unfolding run_against
  run_started (events, err es) = (events, 1)
  run_started (events, ok c) = run_against events c

  -- RunWithValkey
  unfoldable pub run_with_valkey : List Event × ℕ
  unfolding run_started
  run_with_valkey = run_started new

  -- The three ways in which RunWithValkey may end: nothing was started; the container was taken away again
  -- without a test; or the tests ran with a client, and both were taken away behind them.
  pub data Ends : List Event × ℕ → Type 0 where
    no_container : Ends ([], 1)
    no_tests : Ends (container_started ∷ container_terminated ∷ [], 1)
    tested : Ends (
      container_started ∷ client_opened ∷ tests_run ∷ client_closed ∷ container_terminated ∷ [],
      out.run_tests,
    )

  -- The three answers of New: nothing was started; the container was taken away again; or it runs.
  pub data Shape : Started → Type 0 where
    not_started : (es : List ContainerError) → Shape ([], err es)
    given_up :
        (es : List ContainerError) → Shape (container_started ∷ container_terminated ∷ [], err es)
    running : (c : Container) → Shape (container_started ∷ [], ok c)

  find_host-Shape : (h : Handle) → Shape (find_host h)
  unfolding find_host find_port
  find_host-Shape h = elim (Result-cases (out.host h)) [
    | inl (e, bad) ↦ rw (bad, find_host) (given_up (host_failed e ∷ terminate_error h))
    | inr (host, good) ↦ elim (Result-cases (out.mapped_port h)) [
      | inl (e, bad) ↦
          rw (good, find_host) (rw (bad, find_port) (given_up (port_failed e ∷ terminate_error h)))
      | inr (mapped, there) ↦
          rw (good, find_host)
            (rw (there, find_port)
              (running
                (record { container = h; url = codes "redis://" ++ (host ++ b':' ∷ mapped) })))
    ]
  ]

  after_start-Shape : (r : Result Text Handle) → Shape (after_start r)
  unfolding after_start
  after_start-Shape (err e) = not_started (start_failed e ∷ [])
  after_start-Shape (ok h) = find_host-Shape h

  -- New gives a container that runs, or leaves none behind.
  pub new-Shape : Shape new
  unfolding new
  new-Shape = after_start-Shape out.start

  run_started-Ends : {started : Started} → Shape started → Ends (run_started started)
  unfolding run_started run_against
  run_started-Ends (not_started es) = no_container
  run_started-Ends (given_up es) = no_tests
  run_started-Ends (running c) = elim (Result-cases (out.parse_url c.url)) [
    | inl (e, bad) ↦ rw (bad, run_against) no_tests
    | inr (addr, fine) ↦ rw (fine, run_against) tested
  ]

  -- Whatever the container and go-redis answer, RunWithValkey leaves no container and no client behind, and
  -- gives the exit code of the tests exactly if they ran.
  pub run_with_valkey-Ends : Ends run_with_valkey
  unfolding run_with_valkey
  run_with_valkey-Ends = run_started-Ends new-Shape

  -- What Start leaves: what it caused, its cleanups, the latest first, and the address of its client, if
  -- it did not fail the test.
  pub record Prepared : Type 0 where
    pub events : List Event
    pub cleanups : List Event
    pub client : Option Text

  unfoldable pub connect_to : List Event → Container → Prepared
  connect_to before c = elim (out.parse_url c.url) [
    | err e ↦ record { events = before; cleanups = container_terminated ∷ []; client = none }
    | ok addr ↦ record {
      events = before ++ client_opened ∷ [];
      cleanups = client_closed ∷ container_terminated ∷ [];
      client = some addr;
    }
  ]

  unfoldable pub prepare : Started → Prepared
  unfolding connect_to
  prepare (events, err es) = record { events = events; cleanups = []; client = none }
  prepare (events, ok c) = connect_to events c

  -- Start
  unfoldable pub start_for_test : Prepared
  unfolding prepare
  start_for_test = prepare new

  -- The whole life of what Start started: a client only while its container runs.
  pub data IsCleaned : Prepared → Type 0 where
    nothing : IsCleaned (record { events = []; cleanups = []; client = none })
    gone : IsCleaned (record {
      events = container_started ∷ container_terminated ∷ [];
      cleanups = [];
      client = none;
    })
    unreadable_url : IsCleaned (record {
      events = container_started ∷ [];
      cleanups = container_terminated ∷ [];
      client = none;
    })
    connected :
        (addr : Text)
        → IsCleaned (record {
          events = container_started ∷ client_opened ∷ [];
          cleanups = client_closed ∷ container_terminated ∷ [];
          client = some addr;
        })

  prepare-IsCleaned : {started : Started} → Shape started → IsCleaned (prepare started)
  unfolding prepare connect_to
  prepare-IsCleaned (not_started es) = nothing
  prepare-IsCleaned (given_up es) = gone
  prepare-IsCleaned (running c) = elim (Result-cases (out.parse_url c.url)) [
    | inl (e, bad) ↦ rw (bad, connect_to) unreadable_url
    | inr (addr, fine) ↦ rw (fine, connect_to) (connected addr)
  ]

  -- Start and its cleanups leave no container and no client behind, also where Start fails the test, and
  -- the client is closed before its container goes.
  pub start_for_test-IsCleaned : IsCleaned start_for_test
  unfolding start_for_test
  start_for_test-IsCleaned = prepare-IsCleaned new-Shape

-- UnreachableStore: its client dials the target, whatever address it was made with.
pub record UnreachableStore : Type 0 where
  pub target : Text

-- NewUnreachableStore, at the address of a listener that is closed again.
unfoldable pub new_unreachable_store : Text → UnreachableStore
new_unreachable_store closed_addr = record { target = closed_addr }

-- The Dialer
unfoldable pub dial {ℓ} : {A : Type ℓ} → (Text → A) → UnreachableStore → Text → A
dial connect store addr = connect store.target

-- StartStore, with the address of the Valkey that it starts.
unfoldable pub start_store : Text → UnreachableStore → UnreachableStore
start_store addr store = record store { target = addr }
