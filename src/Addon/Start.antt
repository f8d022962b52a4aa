-- ===== src/Addon/Start.antt =====
-- What the constructor leaves (addon.cpp).
use fcitx5_scribe.Common.{ℕ, ◌≡◌, refl, Option, none, some, []}
use fcitx5_scribe.Error.{Error, Result, ok, unexpected, ConnectionConfig}
use fcitx5_scribe.Config.{
  Config, ConfigData, ResolvedConnectionConfig, default_config, load, connection_config,
}
use fcitx5_scribe.Engine.State.{Engine, SessionId, init}
use fcitx5_scribe.Engine.Handlers.{handle}
use fcitx5_scribe.Addon.State.{Addon, World}
use fcitx5_scribe.Addon.Dispatch.{dispatch, run_queue, process, apply_all, apply}
use fcitx5_scribe.Addon.Handlers.{reload_with, reload_resolved_config, reload_config}
use fcitx5_scribe.Addon.History.{initial, construct}

abbrev config_in : Result ResolvedConnectionConfig → Option ConnectionConfig
config_in (ok r) = some r.connection
config_in (unexpected e) = none

abbrev error_in : Result ResolvedConnectionConfig → Option Error
error_in (ok r) = none
error_in (unexpected e) = some e

-- A new engine that knows the outcome of the configuration.
abbrev pub configured_engine : (ℕ → Result SessionId) → Result ResolvedConnectionConfig → Engine
configured_engine generator r = record (init generator) {
  connection_config = config_in r;
  connection_config_error = error_in r;
}

-- An addon that only holds its configuration: no context is known, nothing is written, and the
-- transport was not called.
pub record IsNew {T : Type 0} (engine : Engine) (io : T) (b : Addon T) : Type 0 where
  pub configured : b.engine ≡ engine
  pub not_called : b.io ≡ io
  pub no_context : b.contexts ≡ []
  pub no_tracked : b.contexts_by_id ≡ []
  pub nothing_written : b.committed ≡ []

module _ {T : Type 0} (w : World T) (generator : ℕ → Result SessionId) (io : T) where
  reload_with-IsNew :
      (r : Result ResolvedConnectionConfig) (config : Config)
      → (b : Addon T) × (reload_with w r (initial generator config io) ≡ some b)
        × IsNew (configured_engine generator r) io b
  unfolding reload_with dispatch run_queue process apply_all apply handle init initial
  reload_with-IsNew (ok r) config = (
    _,
    refl,
    record {
      configured = refl;
      not_called = refl;
      no_context = refl;
      no_tracked = refl;
      nothing_written = refl;
    },
  )
  reload_with-IsNew (unexpected e) config = (
    _,
    refl,
    record {
      configured = refl;
      not_called = refl;
      no_context = refl;
      no_tracked = refl;
      nothing_written = refl;
    },
  )

  -- The constructor returns an addon that holds its configuration, or the error that it has none, and
  -- has done nothing else: the engine is disconnected, and neither `Io` nor an input context was
  -- called.
  pub construct-IsNew :
      (read : ConfigData → ConfigData)
      → let r = connection_config w.platform (load w.platform read default_config) in
        (b : Addon T) × (construct w read generator io ≡ some b)
        × IsNew (configured_engine generator r) io b
  unfolding construct reload_config reload_resolved_config initial
  construct-IsNew read =
      let config = load w.platform read default_config in
      reload_with-IsNew (connection_config w.platform config) config
