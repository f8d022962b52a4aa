-- ===== src/Engine/Refinement.antt =====
-- The engine implements the abstract protocol.
use fcitx5_scribe.Common.{ℕ, ◌≡◌, Bool, true, Option, none, some, String, arith}
use fcitx5_scribe.Common.Map
use fcitx5_scribe.Error.{Error, Result, ConnectionConfig, ContextId}
use fcitx5_scribe.Engine.Event.{Configured, configured, misconfigured, Event}
use fcitx5_scribe.Engine.State.{
  Engine, SessionId, SessionState, ConnectionState, disconnected, connecting, ready, is_alive,
  Action, context_can_commit,
}
use fcitx5_scribe.Proto.{CommitText, VadTimeout, ProtoError}
use fcitx5_scribe.Engine.Session.{handle_commit_text, handle_vad_timeout, handle_error_envelope}
use fcitx5_scribe.Engine.Handlers.{
  handle_configured, handle_focus_in, handle_focus_out, handle_context_destroyed,
  handle_connection_closed, handle_connection_failed, handle_connection_authenticated,
  handle_toggle, handle,
}
use fcitx5_scribe.Engine.Spec
use fcitx5_scribe.Engine.Spec.{
  Phase, idle, opening, waiting, open_idle, active, View, visible, has_settings,
}

abbrev pub state_of : Phase → ConnectionState
state_of idle = disconnected
state_of opening = connecting
state_of (waiting c) = connecting
state_of open_idle = ready
state_of (active x) = ready

abbrev pub pending_of : Phase → Option ContextId
pending_of (waiting c) = some c
pending_of _ = none

abbrev pub session_of : Phase → Option SessionState
session_of (active x) = some x
session_of _ = none

-- The context that transcription is or will be for.
abbrev pub target_of : Phase → Option ContextId
target_of (waiting c) = some c
target_of (active x) = some x.context
target_of _ = none

abbrev pub config_of : Configured → Option ConnectionConfig
config_of (configured c) = some c
config_of _ = none

abbrev pub error_of : Configured → Option Error
error_of (misconfigured e) = some e
error_of _ = none

-- The target is alive and has the focus; one that waits has a configuration.
abbrev pub Targets : Engine → Option ContextId → Type 0
Targets s none = Unit
Targets s (some c) = (s.focused_context ≡ some c) × (is_alive (Map.find c s.contexts) ≡ true)

abbrev pub Waits : Phase → Configured → Type 0
Waits (waiting c) settings = has_settings settings ≡ true
Waits _ settings = Unit

pub record Represents (generator : ℕ → Result SessionId) (s : Engine) (v : View) : Type 0 where
  pub draws : s.session_id_generator ≡ generator
  pub drawn : s.generated ≡ v.drawn
  pub focus : s.focused_context ≡ v.focus
  pub config : s.connection_config ≡ config_of v.settings
  pub config_error : s.connection_config_error ≡ error_of v.settings
  pub state : s.connection_state ≡ state_of v.phase
  pub pending : s.pending_context ≡ pending_of v.phase
  pub session : s.session ≡ session_of v.phase
  pub targets : Targets s (target_of v.phase)
  pub waits : Waits v.phase v.settings

-- A handler carries a represented state to a represented state, with the same effects but for
-- log lines.
abbrev pub Simulates : (ℕ → Result SessionId) → Event → Action → Type 0
Simulates generator e handler =
    (s : Engine) (v : View)
    → Represents generator s v
    → Represents generator (handler s).0 (Spec.step generator e v).0
      × (visible (handler s).1 ≡ (Spec.step generator e v).1)

module _ (generator : ℕ → Result SessionId) where
  configured_lem :
      (r : Configured) → Simulates generator (Event.connection_configured r) (handle_configured r)
  unfolding handle_configured Spec.step
  configured_lem r s v h = ground arith

  focus_in_lem : (c : ContextId) → Simulates generator (Event.focus_in c) (handle_focus_in c)
  unfolding handle_focus_in Spec.step
  focus_in_lem c s v h = grind (arith, Map.find-set, Map.find-emplace)

  focus_out_lem : (c : ContextId) → Simulates generator (Event.focus_out c) (handle_focus_out c)
  unfolding handle_focus_out Spec.step
  focus_out_lem c s v h = grind (arith, Map.find-set, Map.find-emplace)

  destroyed_lem :
      (c : ContextId) → Simulates generator (Event.context_destroyed c) (handle_context_destroyed c)
  unfolding handle_context_destroyed Spec.step
  destroyed_lem c s v h = grind (arith, Map.find-set, Map.find-emplace)

  closed_lem : Simulates generator Event.connection_closed handle_connection_closed
  unfolding handle_connection_closed Spec.step
  closed_lem s v h = ground arith

  failed_lem :
      (e : Error) → Simulates generator (Event.connection_failed e) (handle_connection_failed e)
  unfolding handle_connection_failed Spec.step
  failed_lem e s v h = ground arith

  module _ (uuid_to_string : SessionId → String) where
    authenticated_lem :
        Simulates generator Event.connection_authenticated
          (handle_connection_authenticated uuid_to_string)
    unfolding handle_connection_authenticated Spec.step context_can_commit
    authenticated_lem s v h = ground arith

    commit_text_lem :
        (m : CommitText)
        → Simulates generator (Event.connection_commit_text m) (handle_commit_text uuid_to_string m)
    unfolding handle_commit_text Spec.step
    commit_text_lem m s v h = ground arith

    vad_timeout_lem :
        (m : VadTimeout)
        → Simulates generator (Event.connection_vad_timeout m) (handle_vad_timeout uuid_to_string m)
    unfolding handle_vad_timeout Spec.step
    vad_timeout_lem m s v h = ground arith

    error_message_lem :
        (m : ProtoError)
        → Simulates generator
            (Event.connection_error_message m)
            (handle_error_envelope uuid_to_string m)
    unfolding handle_error_envelope Spec.step
    error_message_lem m s v h = ground arith

    toggle_lem :
        (c : ContextId) (focused : Bool)
        → Simulates generator (Event.toggle c focused) (handle_toggle uuid_to_string c focused)
    unfolding handle_toggle Spec.step context_can_commit
    toggle_lem c focused s v h = grind (arith, Map.find-set, Map.find-emplace)

    -- One event, whichever it is.
    pub handle-Represents : (e : Event) → Simulates generator e (handle uuid_to_string e)
    unfolding handle
    handle-Represents (Event.connection_configured r) = configured_lem r
    handle-Represents (Event.toggle c focused) = toggle_lem c focused
    handle-Represents (Event.focus_in c) = focus_in_lem c
    handle-Represents (Event.focus_out c) = focus_out_lem c
    handle-Represents (Event.context_destroyed c) = destroyed_lem c
    handle-Represents Event.connection_authenticated = authenticated_lem
    handle-Represents Event.connection_closed = closed_lem
    handle-Represents (Event.connection_failed e) = failed_lem e
    handle-Represents (Event.connection_commit_text m) = commit_text_lem m
    handle-Represents (Event.connection_vad_timeout m) = vad_timeout_lem m
    handle-Represents (Event.connection_error_message m) = error_message_lem m
