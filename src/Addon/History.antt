-- ===== src/Addon/History.antt =====
-- Sequences of calls of the addon by fcitx and by the transport (addon.cpp).
use mathlib.Core.Option
use fcitx5_scribe.Common.{ℕ, Bool, Option, some, String, List, [], ◌∷◌}
use fcitx5_scribe.Error.{Result}
use fcitx5_scribe.Config.{default_config, Config, ConfigData, Platform}
use fcitx5_scribe.Engine.Event.{Event}
use fcitx5_scribe.Engine.State.{SessionId, init}
use fcitx5_scribe.Addon.State.{Addon, World, Transport, InputContext}
use fcitx5_scribe.Addon.Dispatch.{dispatch}
use fcitx5_scribe.Addon.Handlers.{
  KeyEvent, handle_key_event, handle_focus_in_event, handle_focus_out_event, handle_destroyed_event,
  reload_config, set_config,
}

-- The callbacks: those of fcitx, with the configuration file or settings as a function, and those of
-- `Io::Callbacks`, each of which dispatches its event.
pub data Call : Type 0 where
  key_event : KeyEvent → Call
  focus_in focus_out destroyed : Option InputContext → Call
  reload set : (ConfigData → ConfigData) → Call
  from_transport : Event → Call

-- A call, and what the environment and the objects are at that time.
pub record Moment : Type 0 where
  pub platform : Platform
  pub live : ℕ → Bool
  pub call : Call

-- The addon before the constructor's call of `reloadConfig`.
unfoldable pub initial : {T : Type 0} → (ℕ → Result SessionId) → Config → T → Addon T
initial generator config io = record {
  config = config;
  engine = init generator;
  io = io;
  next_context_id = 1;
  contexts = [];
  contexts_by_id = [];
  committed = [];
  logged = [];
}

-- The constructor: a new addon loads its configuration.
unfoldable pub construct :
    {T : Type 0} (w : World T) (read : ConfigData → ConfigData) (generator : ℕ → Result SessionId)
    (io : T)
    → Option (Addon T)
unfolding initial reload_config
construct w read generator io = reload_config w read (initial generator default_config io)

module _ {T : Type 0} (uuid_to_string : SessionId → String) (transport : Transport T) where
  abbrev pub world : Moment → World T
  world m = record {
    platform = m.platform;
    uuid_to_string = uuid_to_string;
    transport = transport;
    live = m.live;
  }

  unfoldable pub perform : World T → Call → Addon T → Option (Addon T)
  unfolding handle_key_event handle_focus_in_event handle_focus_out_event handle_destroyed_event
      reload_config set_config dispatch
  perform w (key_event k) a = Option.map (λ r. r.1) (handle_key_event w k a)
  perform w (focus_in c) a = handle_focus_in_event w c a
  perform w (focus_out c) a = handle_focus_out_event w c a
  perform w (destroyed c) a = handle_destroyed_event w c a
  perform w (reload read) a = reload_config w read a
  perform w (set assign) a = (set_config w assign a).1
  perform w (from_transport e) a = Option.map (λ r. r.1) (dispatch w e a)

  unfoldable pub perform_all : List Moment → Addon T → Option (Addon T)
  perform_all [] a = some a
  perform_all (m ∷ ms) a = Option.bind (perform (world m) m.call a) (perform_all ms)
