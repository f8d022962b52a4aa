-- ===== src/Engine/Opening.antt =====
-- A toggle opens the connection, and its authentication starts the session.
use fcitx5_scribe.Common.{suc, ◌≡◌, true, none, some, String, [], ◌∷◌, arith}
use fcitx5_scribe.Common.Map
use fcitx5_scribe.Error.{ok, ContextId, ConnectionConfig}
use fcitx5_scribe.Proto.{Envelope}
use fcitx5_scribe.Engine.Event.{Event, accept_key, connect, send_envelope, log, info}
use fcitx5_scribe.Engine.State.{
  Engine, SessionId, disconnected, connecting, ready, context_can_commit,
}
use fcitx5_scribe.Util.{session_id_to_log_string}
use Prim.Native.String.{◌++◌}
use fcitx5_scribe.Engine.Handlers.{handle}

abbrev pub started : ContextId → SessionId → Engine → Engine
started c id s = record s {
  generated = suc s.generated;
  pending_context = none;
  session = some (record { context = c; id = id; next_sequence_no = 1 });
  connection_state = ready;
}

module _ (uuid_to_string : SessionId → String) where
  -- The engine waits for the connection, on behalf of a context.
  abbrev pub opening : ContextId → Engine → Engine
  opening c s = record s {
    contexts = (handle uuid_to_string (Event.toggle c true) s).0.contexts;
    focused_context = some c;
    pending_context = some c;
    connection_state = connecting;
  }

  pub toggle_opens :
      (c : ContextId) (config : ConnectionConfig) (s : Engine)
      → s.session ≡ none
      → s.pending_context ≡ none
      → s.connection_state ≡ disconnected
      → s.connection_config ≡ some config
      → handle uuid_to_string (Event.toggle c true) s ≡ (opening c s, accept_key ∷ connect ∷ [])
  unfolding handle
  toggle_opens c config s a b d e = ground arith

  pub toggle_can_commit :
      (c : ContextId) (config : ConnectionConfig) (s : Engine)
      → s.session ≡ none
      → s.pending_context ≡ none
      → s.connection_state ≡ disconnected
      → s.connection_config ≡ some config
      → context_can_commit (opening c s) c ≡ true
  unfolding handle context_can_commit
  toggle_can_commit c config s a b d e = grind (arith, Map.find-set, Map.find-emplace)

  abbrev pub started_text : SessionId → String
  started_text id =
      "Transcription started for session " ++ session_id_to_log_string uuid_to_string id

  pub authenticated_starts :
      (c : ContextId) (id : SessionId) (s : Engine)
      → s.session ≡ none
      → s.pending_context ≡ some c
      → s.connection_state ≡ connecting
      → s.session_id_generator s.generated ≡ ok id
      → context_can_commit s c ≡ true
      → handle uuid_to_string Event.connection_authenticated s ≡ (
        started c id s,
        log info "Transcriber connection ready"
            ∷ send_envelope (Envelope.start_session (record { session_id = id }))
            ∷ log info (started_text id)
            ∷ [],
      )
  unfolding handle context_can_commit
  authenticated_starts c id s a b d g k = ground arith
