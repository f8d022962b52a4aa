-- ===== src/Program.antt =====
-- The addon with its transport: the callbacks that `Addon::Addon` gives to `Io` (addon.cpp), and the
-- methods of `Io` as the transport of the addon.
pub mod Opening
pub mod Ready
pub mod Texts
pub mod Sound
pub mod Executions
pub mod Sessions
pub mod Delivery
pub mod Going
pub mod Delivered
pub mod Liveness
mod Example
mod Tests
use fcitx5_scribe.Common.{ℕ, ◌≡◌, Bool, String, Option, some, List, [], ◌∷◌, ◌++◌}
use fcitx5_scribe.Proto.{Bytes}
use fcitx5_scribe.Error.{Result}
use fcitx5_scribe.Protocol.{Crypto, Codec}
use fcitx5_scribe.Config.{Config}
use fcitx5_scribe.Engine.Event.{Event}
use fcitx5_scribe.Engine.State.{SessionId}
use fcitx5_scribe.Io.State.{
  Shared, Publication, authenticated, closed, failure, commit_text, vad_timeout, protocol_error,
  Task, Wakeup, init,
}
use fcitx5_scribe.Io.Commands.{connect, disconnect, send}
use fcitx5_scribe.Io.Tasks.{resume}
use fcitx5_scribe.Io.System.{taken}
use fcitx5_scribe.Io.Orderly.Runs.{IsDue}
use fcitx5_scribe.Addon.State.{Addon, Transport}
use fcitx5_scribe.Addon.History.{Moment, initial, world, perform, from_transport}
use fcitx5_scribe.Addon.Preserving.{IsFcitx}

-- What the callback of a publication dispatches.
abbrev pub event_of : Publication → Event
event_of authenticated = Event.connection_authenticated
event_of closed = Event.connection_closed
event_of (failure e) = Event.connection_failed e
event_of (commit_text m) = Event.connection_commit_text m
event_of (vad_timeout m) = Event.connection_vad_timeout m
event_of (protocol_error m) = Event.connection_error_message m

-- `room` is whether the channel of commands has room.
abbrev pub io_transport : Codec → (Shared → Bool) → Transport Shared
io_transport codec room = record {
  connect = λ config s. connect (room s) config s;
  disconnect = λ s. disconnect (room s) s;
  send = λ envelope s. send codec (room s) envelope s;
}

-- The addon over the actor's state, and the publications whose callbacks have run.
pub record Program : Type 0 where
  pub addon : Addon Shared
  pub heard : List Publication

abbrev pub start : (ℕ → Result SessionId) → Config → Program
start generator config = record { addon = initial generator config init; heard = [] }

-- The surroundings stay the same but for the objects that are alive and the environment.
pub record Outside : Type 0 where
  pub crypto : Crypto
  pub codec : Codec
  pub uuid_to_string : Bytes → String

module _ (o : Outside) where
  abbrev pub call : (Shared → Bool) → Moment → Addon Shared → Option (Addon Shared)
  call room m a =
      let transport = io_transport o.codec room in
      perform o.uuid_to_string transport (world o.uuid_to_string transport m) m.call a

  -- A call of fcitx; the callback of the oldest publication that was not heard; or a coroutine that
  -- resumes in turn.
  pub data Step (p : Program) : Program → Type 0 where
    called :
        (room : Shared → Bool) (m : Moment) {b : Addon Shared}
        → IsFcitx m.call
        → call room m p.addon ≡ some b
        → Step p (record p { addon = b })
    told :
        (room : Shared → Bool) (m : Moment) (q : Publication) (rest : List Publication)
        {b : Addon Shared}
        → p.addon.io.published ≡ p.heard ++ (q ∷ rest)
        → m.call ≡ from_transport (event_of q)
        → call room m p.addon ≡ some b
        → Step p (record { addon = b; heard = p.heard ++ (q ∷ []) })
    ran :
        (before after : List Task) (t : Task) (w : Wakeup) {u : Shared}
        → IsDue o.crypto o.codec t w before after p.addon.io
        → resume o.crypto o.codec t w (taken (before ++ after) w p.addon.io) ≡ some u
        → Step p (record p { addon = record p.addon { io = u } })

  pub data Reach (generator : ℕ → Result SessionId) (config : Config) : Program → Type 0 where
    begins : Reach generator config (start generator config)
    later : {p q : Program} → Reach generator config p → Step p q → Reach generator config q
