-- ===== src/PubsubTest/Release.antt =====
-- What StartEmulator and Close of internal/adapter/pubsub/pubsubtest/emulator.go leave behind.
use overload_party_matchmaki.Prelude.{
  Text, Bool, true, false, List, [], ◌∷◌, ◌++◌, Option-cases, ok, err, Result-cases, ◌≡◌, refl, inl,
  inr,
}
use overload_party_matchmaki.PubsubTest.{
  EmulatorError, Event, container_started, env_set, client_opened, client_closed,
  container_terminated, env_unset, Emulation, Started, Emulator, open_client, point_to, find_port,
  find_host, start_emulator, close,
}

-- What runs or is set after some events.
pub record Left : Type 0 where
  pub container : Bool
  pub env : Bool
  pub client : Bool

abbrev pub after_event : Event → Left → Left
after_event container_started l = record l { container = true }
after_event container_terminated l = record l { container = false }
after_event env_set l = record l { env = true }
after_event env_unset l = record l { env = false }
after_event client_opened l = record l { client = true }
after_event client_closed l = record l { client = false }

abbrev pub after_events : List Event → Left → Left
after_events [] l = l
after_events (e ∷ es) l = after_events es (after_event e l)

abbrev pub nothing : Left
nothing = record { container = false; env = false; client = false }

module _ (out : Emulation) where
  -- No container and no client is left by a start that fails; one that succeeds is undone by Close.
  pub data IsReleased : Started out → Type 0 where
    failed :
        {events : List Event} (errors : List EmulatorError)
        → (after_events events nothing).container ≡ false
        → (after_events events nothing).client ≡ false
        → IsReleased (events, err errors)
    started :
        {events : List Event} (e : Emulator out)
        → after_events events nothing ≡ record { container = true; env = true; client = true }
        → after_events (events ++ (close out e).0) nothing ≡ nothing
        → IsReleased (events, ok e)

  open_client-IsReleased :
      (project_id : Text) (c : out.Container) (endpoint : Text)
      → IsReleased (open_client out project_id c endpoint)
  unfolding open_client close
  open_client-IsReleased project_id c endpoint =
      elim (Result-cases (out.new_client project_id endpoint)) [
        | inl (e, bad) ↦ rw (bad, open_client) (failed _ refl refl)
        | inr (client, good) ↦ rw (good, open_client) (started _ refl refl)
      ]

  point_to-IsReleased :
      (project_id : Text) (c : out.Container) (endpoint : Text)
      → IsReleased (point_to out project_id c endpoint)
  unfolding point_to
  point_to-IsReleased project_id c endpoint = elim (Option-cases (out.set_env endpoint)) [
    | inl good ↦ rw (good, point_to) (open_client-IsReleased project_id c endpoint)
    | inr (e, bad) ↦ rw (bad, point_to) (failed _ refl refl)
  ]

  find_port-IsReleased :
      (project_id : Text) (c : out.Container) (host : Text)
      → IsReleased (find_port out project_id c host)
  unfolding find_port
  find_port-IsReleased project_id c host = elim (Result-cases (out.mapped_port c)) [
    | inl (e, bad) ↦ rw (bad, find_port) (failed _ refl refl)
    | inr (mapped, good) ↦ rw (good, find_port) (point_to-IsReleased project_id c _)
  ]

  find_host-IsReleased :
      (project_id : Text) (c : out.Container) → IsReleased (find_host out project_id c)
  unfolding find_host
  find_host-IsReleased project_id c = elim (Result-cases (out.host c)) [
    | inl (e, bad) ↦ rw (bad, find_host) (failed _ refl refl)
    | inr (host, good) ↦ rw (good, find_host) (find_port-IsReleased project_id c host)
  ]

  -- Whatever the container, the environment and the client answer, StartEmulator leaves no container and
  -- no client behind when it fails; when it succeeds, all three are there, and Close takes them all
  -- away again, also if one of its steps fails.
  pub start_emulator-IsReleased : (project_id : Text) → IsReleased (start_emulator out project_id)
  unfolding start_emulator
  start_emulator-IsReleased project_id = elim (Result-cases (out.start project_id)) [
    | inl (e, bad) ↦ rw (bad, start_emulator) (failed _ refl refl)
    | inr (c, good) ↦ rw (good, start_emulator) (find_host-IsReleased project_id c)
  ]
