-- ===== src/Engine/Consistency.antt =====
-- What holds of the engine's fields between two events.
use fcitx5_scribe.Common.{ℕ, ◌≡◌, true, Option, none, some, String, List, arith, has_value}
use fcitx5_scribe.Error.{Error, Result, ConnectionConfig, ContextId}
use fcitx5_scribe.Engine.Event.{Event}
use fcitx5_scribe.Engine.State.{
  Engine, SessionId, SessionState, connecting, ready, context_can_commit, init,
}
use fcitx5_scribe.Engine.Spec.{View}
use fcitx5_scribe.Engine.Refinement.{Represents}
use fcitx5_scribe.Engine.Run.{run, run_implements_protocol}

-- A session has an open connection, nothing waits beside it, and its context may be written to.
abbrev pub SessionHolds : Engine → Option SessionState → Type 0
SessionHolds s none = Unit
SessionHolds s (some x) =
    (s.connection_state ≡ ready)
    × (s.pending_context ≡ none)
    × (context_can_commit s x.context ≡ true)

-- A pending context waits for a connection that is being opened, with a configuration, and may be
-- written to.
abbrev pub PendingHolds : Engine → Option ContextId → Type 0
PendingHolds s none = Unit
PendingHolds s (some c) =
    (s.connection_state ≡ connecting)
    × (has_value s.connection_config ≡ true)
    × (context_can_commit s c ≡ true)

abbrev pub NotBoth : Option ConnectionConfig → Option Error → Type 0
NotBoth none e = Unit
NotBoth (some c) none = Unit
NotBoth (some c) (some e) = ⊥

pub record IsConsistent (s : Engine) : Type 0 where
  pub session_holds : SessionHolds s s.session
  pub pending_holds : PendingHolds s s.pending_context
  pub one_result : NotBoth s.connection_config s.connection_config_error

module _ (uuid_to_string : SessionId → String) (generator : ℕ → Result SessionId) where
  pub Represents-IsConsistent : (s : Engine) (v : View) → Represents generator s v → IsConsistent s
  unfolding context_can_commit
  Represents-IsConsistent s v h = ground arith

  -- Whatever events come, between two of them: a session has a ready connection, no pending context
  -- beside it, and a living, focused context; a pending context has a connection that is being
  -- opened, a configuration, and is alive and focused; and a configuration excludes an error.
  pub run-IsConsistent : (es : List Event) → IsConsistent (run uuid_to_string es (init generator)).0
  run-IsConsistent es =
      Represents-IsConsistent _ _ (run_implements_protocol uuid_to_string generator es).0
