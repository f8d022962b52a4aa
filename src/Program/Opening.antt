-- ===== src/Program/Opening.antt =====
-- An idle program and a toggle key, for the start of a session.
pub mod Session
use mathlib.Core.Option
use fcitx5_scribe.Common.{
  ℕ, ◌≡◌, refl, sym, ap, ◌∙◌, Bool, true, false, Option, none, some, List, [], ◌∷◌, ◌++◌, arith,
  map, if◌then◌else◌, not,
}
use fcitx5_scribe.Error.{ok, ContextId, ConnectionConfig}
use fcitx5_scribe.Proto.{Bytes, Envelope, ServerHello}
use fcitx5_scribe.Protocol.{encode_frame, nonce_size}
use fcitx5_scribe.Config.{Config, Platform, ResolvedConnectionConfig, connection_config}
use fcitx5_scribe.Engine.Event.{Event}
use fcitx5_scribe.Engine.State.{Engine, SessionId, disconnected, connecting, context_can_commit}
use fcitx5_scribe.Engine.Opening.{toggle_can_commit}
use fcitx5_scribe.Io.State.{
  Shared, Publication, authenticated, connect_command, send_command, Task, Wakeup,
}
use fcitx5_scribe.Io.Handshake.{client_hello, frame_size, bad_frame_size}
use fcitx5_scribe.Io.Validation.{IsGenuine}
use fcitx5_scribe.Io.Commands.{connect, send, send_encoded, try_send}
use fcitx5_scribe.Io.Connecting.{worker, fresh, establishes, established, establish_authenticates}
use fcitx5_scribe.Io.Orderly.Going.{Goes as IoGoes, stays as io_stays, goes as io_goes}
use fcitx5_scribe.Addon.State.{Addon, InputContext}
use fcitx5_scribe.Addon.Contexts.{ensure_context_id}
use fcitx5_scribe.Addon.Handlers.{KeyEvent, handle_key_event, toggle_context}
use fcitx5_scribe.Addon.History.{Moment, key_event, from_transport, world, perform}
use fcitx5_scribe.Addon.Opening.{
  with_opening, dispatch_toggle, with_started, dispatch_authenticated,
}
use fcitx5_scribe.Program.{Program, Outside, event_of, io_transport, call, called, told, ran}
use fcitx5_scribe.Program.Going.{Goes, stays, StepOn, StepOn-Goes}

-- The channel of commands has room.
abbrev pub has_room : Shared → Bool
has_room s = true

abbrev pub with_io : Program → Shared → Program
with_io p io = record p { addon = record p.addon { io = io } }

-- The addon is configured and the actor idle; nothing was toggled.
pub record IsIdle (config : ConnectionConfig) (p : Program) : Type 0 where
  pub no_session : p.addon.engine.session ≡ none
  pub no_pending : p.addon.engine.pending_context ≡ none
  pub is_disconnected : p.addon.engine.connection_state ≡ disconnected
  pub configured : p.addon.engine.connection_config ≡ some config
  pub waits : p.addon.io.tasks ≡ worker
  pub no_commands : p.addon.io.commands ≡ []
  pub running : p.addon.io.stopping ≡ false
  pub runs : p.addon.io.context_stopped ≡ false
  pub is_inactive : p.addon.io.connection_active ≡ false
  pub all_heard : p.addon.io.published ≡ p.heard

-- A toggle key is pressed in a focused input context.
pub record IsPressed (k : KeyEvent) (c : InputContext) (config : Config) : Type 0 where
  pub is_press : k.is_release ≡ false
  pub is_listed : k.check_key_list config.values.toggle_transcription_key ≡ true
  pub is_in : k.input_context ≡ some c
  pub is_focused : k.has_focus ≡ true

-- OpenSSL and the peer let the handshake end well.
pub record IsAnswered (o : Outside) (config : ConnectionConfig) (nonce frame header payload : Bytes)
    (hello : ServerHello) : Type 0 where
  pub drawn : o.crypto.rand_bytes nonce_size ≡ some nonce
  pub encoded : encode_frame o.codec (client_hello o.crypto o.codec nonce) ≡ ok frame
  pub announced : bad_frame_size (frame_size header) ≡ false
  pub parsed : o.codec.parse_from_array payload ≡ some (Envelope.server_hello hello)
  pub genuine : IsGenuine o.crypto config nonce hello

pub ensure-fields :
    {T : Type 0} (c : InputContext) (a : Addon T)
    → let b = (ensure_context_id c a).1 in
      (b.engine ≡ a.engine) × (b.config ≡ a.config) × (b.io ≡ a.io)
unfolding ensure_context_id
ensure-fields c a = ground arith

module _ (o : Outside) where
  -- The coroutines of the actor resume in the program.
  pub IoGoes-Goes :
      {s u : Shared} {ws : List (Task × Wakeup)} {q : Program} {vs : List (Task × Wakeup)}
      (p : Program)
      → IoGoes o.crypto o.codec s ws u
      → Goes o (with_io p u) vs q
      → Goes o (with_io p s) (ws ++ vs) q
  IoGoes-Goes p io_stays k = k
  IoGoes-Goes p (io_goes before after t w d e more) k =
      StepOn-Goes o (ran before after t w d e, refl) (IoGoes-Goes p more k)
