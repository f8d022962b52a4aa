-- ===== src/Addon/State.antt =====
-- The fields of `Addon`, and what it calls.
use fcitx5_scribe.Common.{ℕ, Bool, String, List, [], ◌∷◌, ◌++◌}
use fcitx5_scribe.Common.Map.{Map}
use fcitx5_scribe.Error.{Result, ConnectionConfig, ContextId}
use fcitx5_scribe.Proto.{Bytes, Envelope}
use fcitx5_scribe.Config.{Config, Platform}
use fcitx5_scribe.Engine.Event.{Event, LogLevel}
use fcitx5_scribe.Engine.State.{Engine}

-- What the addon uses of `Io`, over its state `T`.
pub record Transport (T : Type 0) : Type 0 where
  pub connect : ConnectionConfig → T → Result (Unit {0}) × T
  pub disconnect : T → Result (Unit {0}) × T
  pub send : Envelope → T → Result (Unit {0}) × T

-- An `fcitx::InputContext`: the pointer's value, and which object it is, since an address may be used
-- again.
pub record InputContext : Type 0 where
  pub address : ℕ
  pub object : ℕ

-- The surroundings of a call: the environment, the library for UUIDs, the transport, and the objects
-- that are alive, so that a tracked reference to them is not null.
pub record World (T : Type 0) : Type 0 where
  pub platform : Platform
  pub uuid_to_string : Bytes → String
  pub transport : Transport T
  pub live : ℕ → Bool

-- `contexts` is the bimap, by address. `contexts_by_id` holds the tracked objects. `committed` lists
-- the calls of `commitString`, `logged` the log lines.
pub record Addon (T : Type 0) : Type 0 where
  pub config : Config
  pub engine : Engine
  pub io : T
  pub next_context_id : ContextId
  pub contexts : Map ContextId
  pub contexts_by_id : Map ℕ
  pub committed : List (ℕ × String)
  pub logged : List (LogLevel × String)

-- The local variables of `dispatch`.
pub record Loop (T : Type 0) : Type 0 where
  pub addon : Addon T
  pub accepted : Bool
  pub queue : List Event

abbrev pub add_log : {T : Type 0} → LogLevel → String → Addon T → Addon T
add_log level message a = record a { logged = a.logged ++ ((level, message) ∷ []) }
