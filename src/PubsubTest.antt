-- ===== src/PubsubTest.antt =====
-- internal/adapter/pubsub/pubsubtest/emulator.go: the Pub/Sub emulator of the tests, as the events that
-- its start and its close cause, and the wait for messages. What the container, the environment and
-- the Pub/Sub client answer is the parameter `out`.
pub mod Admin
pub mod Receive
pub mod Release
pub mod Wait
use overload_party_matchmaki.Prelude.{
  ℕ, ltb, length, take, Text, codes, List, [], ◌∷◌, ◌++◌, Option, none, some, Result, ok, err,
  if◌then◌else◌,
}

-- The errors, with the texts of their causes.
pub data EmulatorError : Type 0 where
  start_failed host_failed port_failed setenv_failed client_failed close_failed terminate_failed
        unsetenv_failed :
      Text → EmulatorError

pub data Event : Type 0 where
  container_started env_set client_opened client_closed container_terminated env_unset : Event

pub record Emulation : Type 1 where
  pub Container : Type 0
  pub Client : Type 0
  -- testcontainers.GenericContainer, for a project
  pub start : Text → Result Text Container
  pub host : Container → Result Text Text
  pub mapped_port : Container → Result Text Text
  -- os.Setenv and os.Unsetenv of PUBSUB_EMULATOR_HOST, with their error
  pub set_env : Text → Option Text
  pub unset_env : Option Text
  -- gpubsub.NewClient, for a project and an endpoint
  pub new_client : Text → Text → Result Text Client
  pub close_client : Client → Option Text
  pub terminate : Container → Option Text

abbrev pub id_suffix_length : ℕ
id_suffix_length = 8

-- errors.Join leaves out what is nil.
abbrev pub wrapped : (Text → EmulatorError) → Option Text → List EmulatorError
wrapped wrap none = []
wrapped wrap (some e) = wrap e ∷ []

module _ (out : Emulation) where
  open out use {Container, Client}

  pub record Emulator : Type 0 where
    pub container : Container
    pub project_id : Text
    pub client : Client

  abbrev pub Started : Type 0
  Started = List Event × Result (List EmulatorError) Emulator

  -- An error return behind the start of the container.
  abbrev pub give_up : Container → List Event → EmulatorError → Started
  give_up c events e =
      (events ++ container_terminated ∷ [], err (e ∷ wrapped terminate_failed (out.terminate c)))

  -- newEmulatorClient, and the end of StartEmulator.
  unfoldable pub open_client : Text → Container → Text → Started
  open_client project_id c endpoint = elim (out.new_client project_id endpoint) [
    | err e ↦ give_up c (container_started ∷ env_set ∷ []) (client_failed e)
    | ok client ↦ (
      container_started ∷ env_set ∷ client_opened ∷ [],
      ok (record { container = c; project_id = project_id; client = client }),
    )
  ]

  unfoldable pub point_to : Text → Container → Text → Started
  unfolding open_client
  point_to project_id c endpoint = elim (out.set_env endpoint) [
    | some e ↦ give_up c (container_started ∷ []) (setenv_failed e)
    | none ↦ open_client project_id c endpoint
  ]

  unfoldable pub find_port : Text → Container → Text → Started
  unfolding point_to
  find_port project_id c host = elim (out.mapped_port c) [
    | err e ↦ give_up c (container_started ∷ []) (port_failed e)
    | ok mapped ↦ point_to project_id c (host ++ b':' ∷ mapped)
  ]

  unfoldable pub find_host : Text → Container → Started
  unfolding find_port
  find_host project_id c = elim (out.host c) [
    | err e ↦ give_up c (container_started ∷ []) (host_failed e)
    | ok host ↦ find_port project_id c host
  ]

  -- StartEmulator
  unfoldable pub start_emulator : Text → Started
  unfolding find_host
  start_emulator project_id = elim (out.start project_id) [
    | err e ↦ ([], err (start_failed e ∷ []))
    | ok c ↦ find_host project_id c
  ]

  -- Close, with the errors that it joins.
  unfoldable pub close : Emulator → List Event × List EmulatorError
  close e = (
    client_closed ∷ container_terminated ∷ env_unset ∷ [],
    wrapped close_failed (out.close_client e.client)
        ++ (wrapped terminate_failed (out.terminate e.container)
            ++ wrapped unsetenv_failed out.unset_env),
  )

-- GenerateTopicName; `id` is a new UUID.
unfoldable pub generate_topic_name : Text → Text → Text
generate_topic_name prefix id = prefix ++ b'-' ∷ take id_suffix_length id

unfoldable pub generate_subscription_name : Text → Text → Text
generate_subscription_name topic id = topic ++ (codes "-sub-" ++ take id_suffix_length id)

unfoldable pub topic_path : Text → Text → Text
topic_path project_id topic = codes "projects/" ++ (project_id ++ (codes "/topics/" ++ topic))

unfoldable pub subscription_path : Text → Text → Text
subscription_path project_id name =
    codes "projects/" ++ (project_id ++ (codes "/subscriptions/" ++ name))

-- The case that a `select` of WaitForN takes; a text is the data of a message.
pub data Wake : Type 0 where
  arrives : Text → Wake
  receive_stopped : Text → Wake
  timer_fired : Wake

pub data WaitError : Type 0 where
  receive_failed : Text → WaitError
  timeout : WaitError

-- The loop of WaitForN with the messages that it has, over what happens; none while it still waits.
unfoldable pub wait_loop : ℕ → List Text → List Wake → Option (List Text × Option WaitError)
wait_loop n msgs [] = if ltb (length msgs) n then none else some (msgs, none)
wait_loop n msgs (arrives m ∷ wakes) =
    let rest = wait_loop n (msgs ++ m ∷ []) wakes in
    if ltb (length msgs) n then rest else some (msgs, none)
wait_loop n msgs (receive_stopped e ∷ wakes) =
    if ltb (length msgs) n then some (msgs, some (receive_failed e)) else some (msgs, none)
wait_loop n msgs (timer_fired ∷ wakes) =
    if ltb (length msgs) n then some (msgs, some timeout) else some (msgs, none)

-- WaitForN
unfoldable pub wait_for_n : ℕ → List Wake → Option (List Text × Option WaitError)
unfolding wait_loop
wait_for_n n = wait_loop n []
