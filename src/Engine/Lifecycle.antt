-- ===== src/Engine/Lifecycle.antt =====
-- How transcription starts and stops.
use fcitx5_scribe.Common.{
  ◌≡◌, Bool, true, false, ◌&&◌, ◌||◌, none, some, String, List, [], ◌∷◌, arith, has_value, holds,
}
use fcitx5_scribe.Common.Map
use fcitx5_scribe.Error.{ok, ConnectionConfig, ContextId}
use fcitx5_scribe.Proto.{Envelope, InterruptReason}
use fcitx5_scribe.Engine.Event.{Event, Effect, send_envelope, accept_key, connect}
use fcitx5_scribe.Engine.State.{
  Engine, SessionId, SessionState, disconnected, ready, transcribing, context_can_commit,
}
use fcitx5_scribe.Engine.Handlers.{handle}
use fcitx5_scribe.Engine.Spec.{visible}
use fcitx5_scribe.Engine.Run.{run}

abbrev pub accepts : List Effect → Bool
accepts [] = false
accepts (accept_key ∷ es) = true
accepts (_ ∷ es) = accepts es

-- The events after which the authenticated connection is gone.
abbrev pub drops_connection : Event → Bool
drops_connection (Event.connection_configured r) = true
drops_connection Event.connection_closed = true
drops_connection (Event.connection_failed e) = true
drops_connection _ = false

module _ (uuid_to_string : SessionId → String) where
  -- The toggle key is accepted exactly when there is a session to stop, a pending start of the same
  -- context to withdraw, or a start that may be tried: the context has the focus and the connection
  -- is configured.
  pub accepts-toggle :
      (c : ContextId) (focused : Bool) (s : Engine)
      → accepts (handle uuid_to_string (Event.toggle c focused) s).1 ≡ (
          has_value s.session
          || (holds s.pending_context c || (focused && has_value s.connection_config)))
  unfolding handle context_can_commit
  accepts-toggle c focused s = ground arith

  -- A configured, disconnected engine without activity starts a session for the focused context in
  -- which the key is toggled, as soon as the connection is authenticated and an identifier is
  -- generated.
  pub toggle_starts_session :
      (c : ContextId) (id : SessionId) (config : ConnectionConfig) (s : Engine)
      → s.session ≡ none
      → s.pending_context ≡ none
      → s.connection_state ≡ disconnected
      → s.connection_config ≡ some config
      → s.session_id_generator s.generated ≡ ok id
      → let (t, effects) =
          run uuid_to_string (Event.toggle c true ∷ Event.connection_authenticated ∷ []) s in
        (t.session ≡ some (record { context = c; id = id; next_sequence_no = 1 }))
        × (t.connection_state ≡ ready)
        × (t.pending_context ≡ none)
        × (visible effects
            ≡ accept_key
              ∷ connect
              ∷ send_envelope (Envelope.start_session (record { session_id = id }))
              ∷ [])
  unfolding run handle context_can_commit
  toggle_starts_session c id config s a b d e g = grind (arith, Map.find-set, Map.find-emplace)

  -- A toggle during a session on a ready connection ends it and starts no other, wherever the key is
  -- pressed; the connection is kept, the transcriber is told, and the key is accepted.
  pub toggle_stops_session :
      (c : ContextId) (focused : Bool) (x : SessionState) (s : Engine)
      → s.session ≡ some x
      → s.connection_state ≡ ready
      → let (t, effects) = handle uuid_to_string (Event.toggle c focused) s in
        (transcribing t ≡ false)
        × (t.connection_state ≡ ready)
        × (visible effects
            ≡ send_envelope (
                Envelope.interrupt_session
                  (record { session_id = x.id; reason = InterruptReason.toggle }))
              ∷ accept_key
              ∷ [])
  unfolding handle transcribing
  toggle_stops_session c focused x s a b = ground arith

  -- After a new configuration, a close or a failure the engine is disconnected and transcribes
  -- nothing, whatever it did before; contexts and focus stay as they were.
  pub connection_loss_stops :
      (e : Event) (s : Engine)
      → drops_connection e ≡ true
      → let t = (handle uuid_to_string e s).0 in
        (t.connection_state ≡ disconnected)
        × (transcribing t ≡ false)
        × (t.contexts ≡ s.contexts)
        × (t.focused_context ≡ s.focused_context)
  unfolding handle transcribing
  connection_loss_stops (Event.connection_configured r) s h = ground arith
  connection_loss_stops _ s h = ground arith
