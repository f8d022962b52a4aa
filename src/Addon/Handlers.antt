-- ===== src/Addon/Handlers.antt =====
-- The entry points of `Addon`: events of fcitx, and changes of the configuration (addon.cpp).
use Prim.Native.String.{◌++◌}
use mathlib.Core.Option
use fcitx5_scribe.Common.{Bool, false, not, Option, none, some, String, List, if◌then◌else◌}
use fcitx5_scribe.Error.{Result, ok, unexpected, ContextId}
use fcitx5_scribe.Config.{Key, ConfigData, ResolvedConnectionConfig, connection_config, load, set}
use fcitx5_scribe.Engine.Event.{Event, info, configured, misconfigured}
use fcitx5_scribe.Addon.State.{Addon, World, InputContext, add_log}
use fcitx5_scribe.Addon.Contexts.{ensure_context_id, find_context_id, erase_context}
use fcitx5_scribe.Addon.Dispatch.{dispatch}

-- A key event, with the answers that fcitx gives about it: `check_key_list` is whether the key is
-- in a list.
pub record KeyEvent : Type 0 where
  pub is_release : Bool
  pub check_key_list : List Key → Bool
  pub input_context : Option InputContext
  pub has_focus : Bool

module _ {T : Type 0} (w : World T) where
  -- `dispatch`, without its result.
  abbrev dispatch_only : Event → Addon T → Option (Addon T)
  dispatch_only e a = Option.map (λ r. r.1) (dispatch w e a)

  unfoldable pub toggle_context : Bool → Option InputContext → Addon T → Option (Bool × Addon T)
  unfolding ensure_context_id dispatch
  toggle_context focused none a = some (false, a)
  toggle_context focused (some c) a =
      let (id, b) = ensure_context_id c a in dispatch w (Event.toggle id focused) b

  -- Whether the event is filtered and accepted.
  unfoldable pub handle_key_event : KeyEvent → Addon T → Option (Bool × Addon T)
  unfolding toggle_context
  handle_key_event k a =
      if k.is_release
      then some (false, a)
      else if not (k.check_key_list a.config.values.toggle_transcription_key)
      then some (false, a)
      else toggle_context k.has_focus k.input_context a

  unfoldable pub handle_focus_in_event : Option InputContext → Addon T → Option (Addon T)
  unfolding ensure_context_id dispatch
  handle_focus_in_event none a = some a
  handle_focus_in_event (some c) a =
      let (id, b) = ensure_context_id c a in dispatch_only (Event.focus_in id) b

  unfoldable pub handle_focus_out_event : Option InputContext → Addon T → Option (Addon T)
  unfolding ensure_context_id dispatch
  handle_focus_out_event none a = some a
  handle_focus_out_event (some c) a =
      let (id, b) = ensure_context_id c a in dispatch_only (Event.focus_out id) b

  abbrev pub destroy : Option ContextId → Addon T → Option (Addon T)
  destroy none a = some a
  destroy (some id) a = Option.map (erase_context id) (dispatch_only (Event.context_destroyed id) a)

  unfoldable pub handle_destroyed_event : Option InputContext → Addon T → Option (Addon T)
  unfolding find_context_id dispatch erase_context
  handle_destroyed_event none a = some a
  handle_destroyed_event (some c) a = destroy (find_context_id c a) a

  -- The line that tells where the connection's parameters come from; it does not name the token.
  configured_text : ResolvedConnectionConfig → String
  configured_text r =
      "Transcriber connection configured: socket "
      ++ (r.connection.socket_path
          ++ (" from " ++ (r.socket_path_source ++ (", auth token from " ++ r.auth_token_source))))

  unfoldable pub reload_with : Result ResolvedConnectionConfig → Addon T → Option (Addon T)
  unfolding configured_text dispatch
  reload_with (ok r) a =
      dispatch_only (Event.connection_configured (configured r.connection))
        (add_log info (configured_text r) a)
  reload_with (unexpected e) a = dispatch_only (Event.connection_configured (misconfigured e)) a

  unfoldable pub reload_resolved_config : Addon T → Option (Addon T)
  unfolding reload_with
  reload_resolved_config a = reload_with (connection_config w.platform a.config) a

  unfoldable pub reload_config : (ConfigData → ConfigData) → Addon T → Option (Addon T)
  unfolding reload_resolved_config
  reload_config read a =
      reload_resolved_config (record a { config = load w.platform read a.config })

  -- The saved settings are the second result of `set`.
  unfoldable pub set_config : (ConfigData → ConfigData) → Addon T → ConfigData × Option (Addon T)
  unfolding reload_resolved_config
  set_config assign a =
      let (config, saved) = set w.platform assign a.config in
      (saved, reload_resolved_config (record a { config = config }))
