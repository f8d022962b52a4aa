-- ===== src/Engine/Handlers.antt =====
-- `Engine::handle` and the `handleEvent` overloads (engine.cpp).
use Prim.Native.String.{◌++◌}
use fcitx5_scribe.Common.{
  Bool, true, false, not, Option, none, some, String, if◌then◌else◌, ◌==◌, holds, has_value,
}
use fcitx5_scribe.Error.{Error, ContextId, error_kind_name}
use fcitx5_scribe.Proto.{InterruptReason}
use fcitx5_scribe.Engine.Event.{
  Configured, unconfigured, configured, misconfigured, Event, debug, info, accept_key, connect,
  disconnect,
}
use fcitx5_scribe.Engine.State.{
  Engine, SessionId, SessionState, ConnectionState, disconnected, connecting, ready, Action, ◌>>◌,
  ◌>>=◌, current, return, modify, emplace_back, push_log, transcribing, ensure_context, set_alive,
  set_focused_context, clear_pending, reset_connection, set_connection_state,
}
use fcitx5_scribe.Engine.Session.{
  quiet, connection_failed, abort_interaction, interrupt_session, try_start_pending,
  handle_commit_text, handle_vad_timeout, handle_error_envelope,
}

abbrev pub is_disconnected : ConnectionState → Bool
is_disconnected disconnected = true
is_disconnected connecting = false
is_disconnected ready = false

-- The session, if it belongs to this context.
abbrev pub session_in : ContextId → Option SessionState → Bool
session_in context none = false
session_in context (some session) = session.context == context

-- A context is there, and it is not this one.
abbrev pub elsewhere : Option ContextId → ContextId → Bool
elsewhere none context = false
elsewhere (some other) context = not (other == context)

abbrev pub session_elsewhere : ContextId → Option SessionState → Bool
session_elsewhere context none = false
session_elsewhere context (some session) = not (session.context == context)

-- The two assignments after `reset()`.
abbrev store_configuration : Configured → Engine → Engine
store_configuration unconfigured s = record s {
  connection_config = none;
  connection_config_error = none;
}
store_configuration (configured config) s = record s {
  connection_config = some config;
  connection_config_error = none;
}
store_configuration (misconfigured error) s = record s {
  connection_config = none;
  connection_config_error = some error;
}

unfoldable pub handle_configured : Configured → Action
unfolding abort_interaction transcribing
handle_configured result = do
  s ← current
  if (if is_disconnected s.connection_state then transcribing s else true)
      then (do abort_interaction "connection configuration changed" quiet; emplace_back disconnect)
      else return
  modify (store_configuration result)

abbrev config_error_text : Option Error → String
config_error_text none = "Cannot start transcription: connection is not configured"
config_error_text (some error) = error.message

abbrev follow_focus : ContextId → Bool → Action
follow_focus context true = set_focused_context (some context)
follow_focus context false = do
  s ← current
  if holds s.focused_context context then set_focused_context none else return

unfoldable pub handle_focus_in : ContextId → Action
unfolding ensure_context set_alive set_focused_context clear_pending interrupt_session
handle_focus_in context = do
  ensure_context context
  set_alive context true
  set_focused_context (some context)
  s ← current
  if elsewhere s.pending_context context then clear_pending else return
  t ← current
  if session_elsewhere context t.session
      then interrupt_session InterruptReason.focus_changed "focus changed"
      else return

-- The common part of focus loss and destruction.
leave_context : ContextId → Bool → InterruptReason → String → Action
unfolding ensure_context set_alive set_focused_context clear_pending interrupt_session
leave_context context alive reason log_reason = do
  ensure_context context
  set_alive context alive
  follow_focus context false
  s ← current
  if holds s.pending_context context then clear_pending else return
  t ← current
  if session_in context t.session then interrupt_session reason log_reason else return

unfoldable pub handle_focus_out : ContextId → Action
unfolding leave_context
handle_focus_out context = leave_context context true InterruptReason.focus_lost "focus lost"

unfoldable pub handle_context_destroyed : ContextId → Action
unfolding leave_context
handle_context_destroyed context =
    leave_context context false InterruptReason.input_context_destroyed "input context destroyed"

unfoldable pub handle_connection_closed : Action
unfolding transcribing abort_interaction reset_connection push_log
handle_connection_closed = do
  s ← current
  let active = transcribing s
  elim s.connection_state [
    | ready ↦
        if active
        then abort_interaction "transport disconnected" connection_failed
        else (do reset_connection; push_log debug "Transcriber connection closed")
    | disconnected ↦
        if active then abort_interaction "transport disconnected" connection_failed else return
    | connecting ↦ abort_interaction "transport disconnected" connection_failed
  ]

unfoldable pub handle_connection_failed : Error → Action
unfolding push_log abort_interaction
handle_connection_failed error = do
  push_log info ("Transport failure (" ++ (error_kind_name error.kind ++ ("): " ++ error.message)))
  abort_interaction "transport failure" connection_failed

module _ (uuid_to_string : SessionId → String) where
  -- The `switch` at the end of the handler of `Toggle`.
  open_connection : ConnectionState → Action
  unfolding try_start_pending
  open_connection disconnected = do set_connection_state connecting; emplace_back connect
  open_connection connecting = return
  open_connection ready = try_start_pending uuid_to_string

  start_toggle : ContextId → Action
  unfolding push_log open_connection
  start_toggle context = do
    s ← current
    if not (has_value s.connection_config)
        then push_log info (config_error_text s.connection_config_error)
        else (do
          modify λ s. record s { pending_context = some context }
          emplace_back accept_key
          open_connection s.connection_state)

  unfoldable pub handle_toggle : ContextId → Bool → Action
  unfolding ensure_context set_alive set_focused_context clear_pending interrupt_session
      start_toggle
  handle_toggle context focused = do
    ensure_context context
    set_alive context true
    follow_focus context focused
    s ← current
    if has_value s.session
        then (do interrupt_session InterruptReason.toggle "toggle"; emplace_back accept_key)
        else if holds s.pending_context context
        then (do clear_pending; emplace_back accept_key)
        else if not focused
        then return
        else start_toggle context

  unfoldable pub handle_connection_authenticated : Action
  unfolding push_log try_start_pending
  handle_connection_authenticated = do
    s ← current
    elim s.connection_state [
      | connecting ↦ do
        set_connection_state ready
        push_log info "Transcriber connection ready"
        try_start_pending uuid_to_string
      | _ ↦ emplace_back disconnect
    ]

  unfoldable pub handle : Event → Action
  unfolding handle_configured handle_toggle handle_focus_in handle_focus_out
      handle_context_destroyed handle_connection_authenticated handle_connection_closed
      handle_connection_failed handle_commit_text handle_vad_timeout handle_error_envelope
  handle (Event.connection_configured result) = handle_configured result
  handle (Event.toggle context focused) = handle_toggle context focused
  handle (Event.focus_in context) = handle_focus_in context
  handle (Event.focus_out context) = handle_focus_out context
  handle (Event.context_destroyed context) = handle_context_destroyed context
  handle Event.connection_authenticated = handle_connection_authenticated
  handle Event.connection_closed = handle_connection_closed
  handle (Event.connection_failed error) = handle_connection_failed error
  handle (Event.connection_commit_text message) = handle_commit_text uuid_to_string message
  handle (Event.connection_vad_timeout message) = handle_vad_timeout uuid_to_string message
  handle (Event.connection_error_message message) = handle_error_envelope uuid_to_string message
