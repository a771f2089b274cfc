-- ===== src/Port.antt =====
-- internal/port: what the use cases take from outside, as one record over the state of the world, and
-- internal/domain's part of it. A port that blocks or fails does so through its answer. `json.Marshal`
-- of the presenter stands here too. `World` is whatever the ports act on.
pub mod Traced
pub mod Kept
use overload_party_matchmaki.Prelude.{ℕ, ℤ, Text, Bool, List, Option, Result}
use overload_party_matchmaki.Domain.{QueueEntry}

-- The context of a call: the one that a shutdown cancels, or the fresh one with its own time limit
-- that the last write-back of a shutdown uses.
pub data Context : Type 0 where
  request background : Context

-- What a `select` of `ctx.Done()` and a timer wakes on.
pub data Wake : Type 0 where
  ctx_done elapsed : Wake

-- packages/api-matchmaking/asyncapi_gen.go: the event as it is sent.
pub record WirePlayer : Type 0 where
  pub player_id : Text
  pub deck_id : ℤ
  pub name : Text
  pub level : ℤ

pub record WireEvent : Type 0 where
  pub event_type : Text
  pub match_id : Text
  pub players : List WirePlayer

pub record Ports : Type 1 where
  pub World : Type 0
  pub Error : Type 0
  -- port.Queue
  pub enqueue : Text → ℤ → Text → ℤ → Text → World → World × Result Error ℕ
  pub cancel : Text → World → World × Result Error Bool
  pub size : World → World × Result Error ℕ
  pub pop_pair : World → World × Result Error (List QueueEntry × Text)
  pub reenqueue : Context → List QueueEntry → Text → World → World × Result Error Bool
  -- port.RawEventPublisher; `none` is success
  pub publish : Text → Text → World → World × Option Error
  -- port.Clock: the time in nanoseconds, and a wait in milliseconds that a shutdown may end
  pub now : World → World × ℕ
  pub wait : ℕ → World → World × Wake
  -- whether `ctx.Err()` is set
  pub ctx_err : World → World × Bool
  -- port.MatchIDGenerator
  pub new_match_id : World → World × Text
  pub marshal : WireEvent → Result Error Text
