-- ===== src/Engine/Event.antt =====
-- The events that the engine consumes and the effects that it asks for (engine.hpp).
use fcitx5_scribe.Common.{String, Bool}
use fcitx5_scribe.Error.{Error, ConnectionConfig, ContextId}
use fcitx5_scribe.Proto.{CommitText, VadTimeout, ProtoError, Envelope}

pub data LogLevel : Type 0 where
  debug info : LogLevel

-- The `variant` that `ConnectionConfigured` carries: `std::monostate`, a configuration or an error.
pub data Configured : Type 0 where
  unconfigured : Configured
  configured : ConnectionConfig → Configured
  misconfigured : Error → Configured

pub data Event : Type 0 where
  connection_configured : Configured → Event
  toggle : ContextId → Bool → Event
  focus_in : ContextId → Event
  focus_out : ContextId → Event
  context_destroyed : ContextId → Event
  connection_authenticated : Event
  connection_closed : Event
  connection_failed : Error → Event
  connection_commit_text : CommitText → Event
  connection_vad_timeout : VadTimeout → Event
  connection_error_message : ProtoError → Event

pub data Effect : Type 0 where
  accept_key : Effect
  connect : Effect
  disconnect : Effect
  send_envelope : Envelope → Effect
  commit_text : ContextId → String → Effect
  log : LogLevel → String → Effect
