-- ===== src/Engine/State.antt =====
-- The fields of `Engine`, and its methods as actions: from a state to the next one and the effects
-- that the method appends.
use fcitx5_scribe.Common.{
  ℕ, Bool, true, false, ◌&&◌, Option, none, some, List, [], ◌∷◌, ◌++◌, String, holds, has_value,
  if◌then◌else◌,
}
use fcitx5_scribe.Common.Map
use fcitx5_scribe.Common.Map.{Map}
use fcitx5_scribe.Error.{Error, Result, ConnectionConfig, ContextId}
use fcitx5_scribe.Proto.{Bytes}
use fcitx5_scribe.Engine.Event.{Effect, LogLevel, log}

pub data ConnectionState : Type 0 where
  disconnected connecting ready : ConnectionState

pub record ContextState : Type 0 where
  pub alive : Bool

-- Sixteen bytes.
abbrev pub SessionId : Type 0
SessionId = Bytes

pub record SessionState : Type 0 where
  pub context : ContextId
  pub id : SessionId
  pub next_sequence_no : ℕ

-- The generator is a function with a hidden state: `session_id_generator n` is the result of its
-- call number `n`, and `generated` counts the calls.
pub record Engine : Type 0 where
  pub session_id_generator : ℕ → Result SessionId
  pub generated : ℕ
  pub contexts : Map ContextState
  pub connection_config : Option ConnectionConfig
  pub connection_config_error : Option Error
  pub focused_context : Option ContextId
  pub pending_context : Option ContextId
  pub session : Option SessionState
  pub connection_state : ConnectionState

unfoldable pub init : (ℕ → Result SessionId) → Engine
init generator = record {
  session_id_generator = generator;
  generated = 0;
  contexts = [];
  connection_config = none;
  connection_config_error = none;
  focused_context = none;
  pending_context = none;
  session = none;
  connection_state = disconnected;
}

-- A method with the parameter `effects`: the next state, and what it appends to `effects`.
abbrev pub Action : Type 0
Action = Engine → Engine × List Effect

-- `m; k`, and `x = r(); f`.
infixl 5 ◌>>=◌ ◌>>◌
abbrev pub ◌>>◌ : Action → Action → Action
◌>>◌ m k s = let (s1, effects) = m s in let (s2, more) = k s1 in (s2, effects ++ more)

abbrev pub ◌>>=◌ {ℓ} : {A : Type ℓ} → (Engine → A) → (A → Action) → Action
◌>>=◌ r f s = f (r s) s

abbrev pub current : Engine → Engine
current s = s

abbrev pub return : Action
return s = (s, [])

abbrev pub modify : (Engine → Engine) → Action
modify f s = (f s, [])

abbrev pub emplace_back : Effect → Action
emplace_back e s = (s, e ∷ [])

unfoldable pub transcribing : Engine → Bool
transcribing s = if has_value s.pending_context then true else has_value s.session

-- `push_log(level, message)`.
unfoldable pub push_log : LogLevel → String → Action
push_log level message = emplace_back (log level message)

unfoldable pub ensure_context : ContextId → Action
ensure_context context =
    modify λ s. record s { contexts = Map.emplace context (record { alive = true }) s.contexts }

-- The assignment to `alive` through the reference that `ensure_context` returns.
unfoldable pub set_alive : ContextId → Bool → Action
set_alive context alive =
    modify λ s. record s { contexts = Map.set context (record { alive = alive }) s.contexts }

unfoldable pub context_focused : Engine → ContextId → Bool
context_focused s context = holds s.focused_context context

abbrev pub is_alive : Option ContextState → Bool
is_alive none = false
is_alive (some c) = c.alive

unfoldable pub context_can_commit : Engine → ContextId → Bool
unfolding context_focused
context_can_commit s context = is_alive (Map.find context s.contexts) && context_focused s context

unfoldable pub set_focused_context : Option ContextId → Action
set_focused_context context = modify λ s. record s { focused_context = context }

unfoldable pub clear_pending : Action
clear_pending = modify λ s. record s { pending_context = none }

unfoldable pub reset_connection : Action
reset_connection = modify λ s. record s { connection_state = disconnected }

abbrev pub set_connection_state : ConnectionState → Action
set_connection_state state = modify λ s. record s { connection_state = state }

abbrev pub reset_session : Action
reset_session = modify λ s. record s { session = none }
