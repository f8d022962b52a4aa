-- ===== src/Program/Opening/Session.antt =====
-- From the toggle key to the session.
use mathlib.Core.Option
use fcitx5_scribe.Common.{ℕ, Bool, [], ◌∷◌, ◌++◌}
use fcitx5_scribe.Error.{ContextId, ConnectionConfig}
use fcitx5_scribe.Proto.{Bytes}
use fcitx5_scribe.Config.{Platform}
use fcitx5_scribe.Engine.State.{SessionId}
use fcitx5_scribe.Io.State.{Shared, authenticated, connect_command, send_command}
use fcitx5_scribe.Io.Connecting.{established}
use fcitx5_scribe.Addon.State.{Addon, InputContext}
use fcitx5_scribe.Addon.Contexts.{ensure_context_id}
use fcitx5_scribe.Addon.Handlers.{KeyEvent}
use fcitx5_scribe.Addon.History.{Moment, key_event, from_transport}
use fcitx5_scribe.Addon.Opening.{with_opening, with_started}
use fcitx5_scribe.Program.{Program, Outside, event_of, call}

module _ (o : Outside) (platform : Platform) (live : ℕ → Bool) where
  abbrev key_moment : KeyEvent → Moment
  key_moment k = record { platform = platform; live = live; call = key_event k }

  -- The connect command is in the channel, and the engine waits for the connection.
  abbrev asked : ConnectionConfig → InputContext → Addon Shared → Addon Shared
  asked config c a =
      let (id, b) = ensure_context_id c a in
      with_opening o.uuid_to_string id (record a.io { commands = connect_command config ∷ [] }) b

  abbrev told_moment : Moment
  told_moment = record {
    platform = platform;
    live = live;
    call = from_transport (event_of authenticated);
  }

  -- The session has begun, and its first message is in the channel.
  abbrev greeting : ContextId → SessionId → Bytes → Addon Shared → Addon Shared
  greeting c id frame a =
      with_started o.uuid_to_string c id
        (record a.io { commands = a.io.commands ++ (send_command frame ∷ []) }) a

  abbrev connected_addon : ConnectionConfig → InputContext → Addon Shared → Addon Shared
  connected_addon config c a =
      let b = asked config c a in record b { io = established [] config b.io }
