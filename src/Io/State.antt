-- ===== src/Io/State.antt =====
-- The fields of `Io::SharedState`, the suspended coroutines, and the closing of a connection.
use fcitx5_scribe.Common.{
  ℕ, ◌+◌, ◌%◌, ◌^◌, Bool, true, false, not, ◌||◌, Option, none, some, String, List, [], ◌∷◌, ◌++◌,
  if◌then◌else◌, ◌≡◌, arith,
}
use fcitx5_scribe.Error.{Error, ConnectionConfig}
use fcitx5_scribe.Proto.{Bytes, CommitText, VadTimeout, ProtoError}

pub data Command : Type 0 where
  connect_command : ConnectionConfig → Command
  disconnect_command : Command
  send_command : Bytes → Command

-- What is scheduled on the dispatcher of fcitx, that is, which callback is called.
pub data Publication : Type 0 where
  authenticated closed : Publication
  failure : Error → Publication
  commit_text : CommitText → Publication
  vad_timeout : VadTimeout → Publication
  protocol_error : ProtoError → Publication

-- The coroutines, each at the point where it waits; the first number is its generation, the second of
-- a wait for a payload the size of the buffer that is read into. The first waits in
-- `run`; a `start` was spawned and has not run yet; then `runConnection` with `authenticate`,
-- `readLoop` and `writeLoop`.
pub data Task : Type 0 where
  await_command : Task
  start_connection : ℕ → ConnectionConfig → Task
  await_connect : ℕ → ConnectionConfig → Task
  await_hello_written : ℕ → Task
  await_hello_header : ℕ → Task
  await_hello_payload : ℕ → ℕ → Task
  start_read : ℕ → Task
  await_header : ℕ → Task
  await_payload : ℕ → ℕ → Task
  start_write : ℕ → Task
  await_written : ℕ → Bytes → Task

-- `boost::system::error_code`, if it is set.
pub record ErrorCode : Type 0 where
  pub is_eof : Bool
  pub message : String

-- How a wait ends: with an error or not, and the bytes that were read; with an exception; or with a
-- command, or none if the channel was closed.
pub data Wakeup : Type 0 where
  returned : Option ErrorCode → Bytes → Wakeup
  threw : String → Wakeup
  received : Option Command → Wakeup

-- `commands` is the buffer of the channel. `socket_open` is `socket.is_open()`. The counters are
-- `uint64_t`. `tasks` and `published` grow at the end.
pub record Shared : Type 0 where
  pub commands : List Command
  pub channel_closed : Bool
  pub context_stopped : Bool
  pub socket_open : Bool
  pub connected : Bool
  pub stopping : Bool
  pub connection_active : Bool
  pub writer_running : Bool
  pub generation_counter : ℕ
  pub active_generation : ℕ
  pub outgoing_frames : List Bytes
  pub current_config : Option ConnectionConfig
  pub client_nonce : Option Bytes
  pub tasks : List Task
  pub published : List Publication

-- The state after `Io::Io`: the worker waits for a command.
unfoldable pub init : Shared
init = record {
  commands = [];
  channel_closed = false;
  context_stopped = false;
  socket_open = false;
  connected = false;
  stopping = false;
  connection_active = false;
  writer_running = false;
  generation_counter = 0;
  active_generation = 0;
  outgoing_frames = [];
  current_config = none;
  client_nonce = none;
  tasks = await_command ∷ [];
  published = [];
}

-- `none` is undefined behaviour, such as reading an empty `optional`.
abbrev pub Action : Type 0
Action = Shared → Option Shared

infixl 5 ◌>>=◌ ◌>>◌
abbrev pub ◌>>◌ : Action → Action → Action
◌>>◌ m k s = elim (m s) [ none ↦ none | some t ↦ k t ]

pub >>-some : (m k : Action) (s : Shared) {t : Shared} → m s ≡ some t → (m >> k) s ≡ k t
>>-some m k s h = ground arith

abbrev pub ◌>>=◌ {ℓ} : {A : Type ℓ} → (Shared → A) → (A → Action) → Action
◌>>=◌ r f s = f (r s) s

abbrev pub current : Shared → Shared
current s = s

abbrev pub return : Action
return s = some s

abbrev pub modify : (Shared → Shared) → Action
modify f s = some (f s)

abbrev pub fault : Action
fault s = none

abbrev pub publish : Publication → Action
publish p = modify λ s. record s { published = s.published ++ (p ∷ []) }

-- A command goes into the buffer of the channel.
abbrev pub enqueue : Command → Shared → Shared
enqueue command s = record s { commands = s.commands ++ (command ∷ []) }

-- A frame goes into the queue of the writer.
abbrev pub push_back : Bytes → Action
push_back frame = modify λ s. record s { outgoing_frames = s.outgoing_frames ++ (frame ∷ []) }

-- `co_spawn`, and also a coroutine that waits again.
abbrev pub spawn : Task → Action
spawn t = modify λ s. record s { tasks = s.tasks ++ (t ∷ []) }

unfoldable pub had_connection : Shared → Bool
had_connection s = s.connection_active || (s.connected || (s.socket_open || s.writer_running))

-- The fields that `close_connection` resets; cancelling a socket ends the waits on it, which is up
-- to the environment.
unfoldable pub reset_generation : Shared → Shared
reset_generation s = record s {
  connected = false;
  connection_active = false;
  writer_running = false;
  active_generation = (s.active_generation + 1) % 2 ^ 64;
  outgoing_frames = [];
  current_config = none;
  client_nonce = none;
  socket_open = false;
}

-- The event that a close reports: of an error, whether to report it, whether the connection was
-- authenticated, and whether the actor stops.
abbrev pub terminal : Option Error → Bool → Bool → Bool → Action
terminal (some e) true was_connected false = publish (failure e)
terminal _ _ true _ = publish closed
terminal _ _ false _ = return

unfoldable pub close_connection : Option Error → Bool → Action
unfolding had_connection reset_generation
close_connection error report_failure = do
  s ← current
  if not (had_connection s)
      then return
      else (do modify reset_generation; terminal error report_failure s.connected s.stopping)

-- A failure is closed with and reported.
abbrev pub fail : Error → Action
fail e = close_connection (some e) true
