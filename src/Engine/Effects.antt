-- ===== src/Engine/Effects.antt =====
-- When the engine asks for an effect, from any state, reachable or not.
use fcitx5_scribe.Common.{◌≡◌, true, Option, none, some, String, All, arith, has_value}
use fcitx5_scribe.Error.{ContextId}
use fcitx5_scribe.Proto.{Bytes, Envelope, CommitText}
use fcitx5_scribe.Engine.Event.{
  Event, Effect, accept_key, connect, disconnect, send_envelope, commit_text, log,
}
use fcitx5_scribe.Engine.State.{
  Engine, SessionId, SessionState, disconnected, connecting, ready, context_can_commit,
}
use fcitx5_scribe.Engine.Session.{bytes_equal}
use fcitx5_scribe.Engine.Handlers.{handle}

-- The message is for this session, is the next one, and its text goes to the session's context,
-- which may be written to.
abbrev pub MayCommit : Engine → CommitText → ContextId → String → Option SessionState → Type 0
MayCommit s m c text none = ⊥
MayCommit s m c text (some x) =
    (bytes_equal m.session_id x.id ≡ true)
    × (m.sequence_no ≡ x.next_sequence_no)
    × (m.text ≡ text)
    × (x.context ≡ c)
    × (context_can_commit s c ≡ true)

abbrev pub IsSession : Bytes → Option SessionState → Type 0
IsSession id none = ⊥
IsSession id (some x) = x.id ≡ id

-- Why an event may have an effect in a state, before (`s`) and after (`t`).
abbrev pub IsJustified : Engine → Event → Engine → Effect → Type 0
IsJustified s (Event.connection_commit_text m) t (commit_text c text) =
    MayCommit s m c text s.session
IsJustified s _ t (commit_text c text) = ⊥
IsJustified s (Event.toggle c focused) t connect =
    (focused ≡ true)
    × (s.connection_state ≡ disconnected)
    × (t.connection_state ≡ connecting)
    × (has_value s.connection_config ≡ true)
    × (t.pending_context ≡ some c)
IsJustified s _ t connect = ⊥
IsJustified s (Event.toggle c focused) t accept_key = Unit
IsJustified s _ t accept_key = ⊥
IsJustified s e t (send_envelope (Envelope.start_session m)) =
    (t.connection_state ≡ ready) × IsSession m.session_id t.session × (t.pending_context ≡ none)
IsJustified s e t (send_envelope (Envelope.interrupt_session m)) =
    (s.connection_state ≡ ready) × IsSession m.session_id s.session × (t.session ≡ none)
IsJustified s e t (send_envelope _) = ⊥
IsJustified s e t disconnect = Unit
IsJustified s e t (log level message) = Unit

module _ (uuid_to_string : SessionId → String) where
  -- Whatever the state, reachable or not, an event asks only for justified effects. Text is written
  -- only for a message of the session that is the next in its sequence, with its text and to its
  -- context, which may be written to. A connection is opened only for a focused toggle while there is
  -- none and a configuration is known. A session is started only on a ready connection, and an
  -- interruption sent only on a ready one, for the session that ends. A key is accepted only for a
  -- toggle. Disconnecting and log lines are free.
  pub handle-IsJustified :
      (e : Event) (s : Engine)
      → All (IsJustified s e (handle uuid_to_string e s).0) (handle uuid_to_string e s).1
  unfolding handle context_can_commit
  handle-IsJustified (Event.toggle c focused) s = ground arith
  handle-IsJustified _ s = ground arith
