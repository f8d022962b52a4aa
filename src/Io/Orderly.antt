-- ===== src/Io/Orderly.antt =====
-- A scheduler that ends cancelled waits before it hands out the next command, and what the actor of
-- io.cpp keeps to under it.
pub mod AnyOrder
pub mod Picking
pub mod Steps
pub mod Down
pub mod Opening
pub mod Up
pub mod Sending
pub mod Turns
pub mod Fronts
pub mod Frames
pub mod Runs
pub mod Going
pub mod Order
mod Example
mod Tests
use fcitx5_scribe.Common.{
  ℕ, ◌≡◌, ◌≢◌, ◌⊎◌, Bool, true, false, Option, none, some, List, [], ◌∷◌, All, if◌then◌else◌,
  has_value,
}
use fcitx5_scribe.Error.{ConnectionConfig}
use fcitx5_scribe.Proto.{Bytes}
use fcitx5_scribe.Io.State.{
  Shared, Publication, authenticated, closed, failure, commit_text, vad_timeout, protocol_error,
  Task, await_command, start_connection, await_connect, await_hello_written, await_hello_header,
  await_hello_payload, start_read, await_header, await_payload, start_write, await_written, Wakeup,
  returned, threw, received,
}

abbrev pub is_worker : Task → Bool
is_worker await_command = true
is_worker _ = false

-- The coroutines of connections.
abbrev pub others : List Task → List Task
others [] = []
others (t ∷ ts) = if is_worker t then others ts else t ∷ others ts

-- The generation that a coroutine works for; one that has not begun works for none.
abbrev pub generation_of : Task → Option ℕ
generation_of await_command = none
generation_of (start_connection g config) = none
generation_of (await_connect g config) = some g
generation_of (await_hello_written g) = some g
generation_of (await_hello_header g) = some g
generation_of (await_hello_payload g n) = some g
generation_of (start_read g) = some g
generation_of (await_header g) = some g
generation_of (await_payload g n) = some g
generation_of (start_write g) = some g
generation_of (await_written g frame) = some g

abbrev pub IsCurrent : ℕ → Task → Type 0
IsCurrent a t = generation_of t ≡ some a

abbrev pub IsStale : ℕ → Task → Type 0
IsStale a t = (g : ℕ) × (generation_of t ≡ some g) × (g ≢ a)

abbrev pub IsError : Wakeup → Type 0
IsError (returned (some code) bytes) = Unit
IsError (threw reason) = Unit
IsError _ = ⊥

-- The wait ends in a way that it can end in.
abbrev pub Fits : Task → Wakeup → Type 0
Fits await_command (received command) = Unit
Fits await_command _ = ⊥
Fits t (received command) = ⊥
Fits t (returned code bytes) = Unit
Fits (start_connection g config) (threw reason) = Unit
Fits (await_connect g config) (threw reason) = Unit
Fits t (threw reason) = ⊥

-- A command is handed out only when the coroutines of earlier connections have ended and the new ones
-- have begun; and a wait that a close has cancelled ends with an error. `s` is the state without the
-- coroutine that resumes.
abbrev pub InTurn : Task → Wakeup → Shared → Type 0
InTurn await_command w s = All (IsCurrent s.active_generation) (others s.tasks)
InTurn (start_connection g config) w s = Unit
InTurn (start_read g) w s = Unit
InTurn (start_write g) w s = Unit
InTurn t w s = IsCurrent s.active_generation t ⊎ IsError w

-- What the engine may be told, connected or not: the end of a connection only while there is one,
-- messages only between its authentication and its end.
abbrev pub hear : Publication → Bool → Option Bool
hear authenticated false = some true
hear authenticated true = none
hear closed true = some false
hear closed false = none
hear (failure e) connected = some false
hear _ true = some true
hear _ false = none

abbrev pub hear_next : Publication → Option Bool → Option Bool
hear_next p none = none
hear_next p (some connected) = hear p connected

-- Whether the engine takes the actor for connected after these publications; `none` if one of them
-- was out of place.
abbrev pub talk : Option Bool → List Publication → Option Bool
talk connected [] = connected
talk connected (p ∷ ps) = talk (hear_next p connected) ps

abbrev pub IsHandshake : ℕ → Task → Type 0
IsHandshake a (await_connect g config) = g ≡ a
IsHandshake a (await_hello_written g) = g ≡ a
IsHandshake a (await_hello_header g) = g ≡ a
IsHandshake a (await_hello_payload g n) = g ≡ a
IsHandshake a _ = ⊥

abbrev pub IsReader : ℕ → Task → Type 0
IsReader a (start_read g) = g ≡ a
IsReader a (await_header g) = g ≡ a
IsReader a (await_payload g n) = g ≡ a
IsReader a _ = ⊥

abbrev pub IsFront : Bytes → List Bytes → Type 0
IsFront frame [] = ⊥
IsFront frame (first ∷ rest) = frame ≡ first

-- The writer of these frames writes the first.
abbrev pub IsWriter : ℕ → List Bytes → Task → Type 0
IsWriter a frames (start_write g) = g ≡ a
IsWriter a frames (await_written g frame) = (g ≡ a) × IsFront frame frames
IsWriter a frames _ = ⊥

-- No connection: the coroutines that are left have lost theirs.
abbrev pub IsDown : Shared → Type 0
IsDown s =
    (s.connection_active ≡ false)
    × (s.connected ≡ false)
    × (s.socket_open ≡ false)
    × (s.writer_running ≡ false)
    × (s.outgoing_frames ≡ [])
    × All (IsStale s.active_generation) (others s.tasks)

-- A connect command was handled.
abbrev pub IsStarting : Shared → Type 0
IsStarting s =
    (s.connection_active ≡ true)
    × (s.connected ≡ false)
    × (s.writer_running ≡ false)
    × (s.outgoing_frames ≡ [])
    × (g : ℕ) × (config : ConnectionConfig) × (others s.tasks ≡ start_connection g config ∷ [])

-- One coroutine connects or authenticates.
abbrev pub IsOpening : Shared → Type 0
IsOpening s =
    (s.connection_active ≡ true)
    × (s.connected ≡ false)
    × (s.socket_open ≡ true)
    × (s.writer_running ≡ false)
    × (s.outgoing_frames ≡ [])
    × (has_value s.current_config ≡ true)
    × (t : Task) × (others s.tasks ≡ t ∷ [])
    × IsHandshake s.active_generation t

-- The writer beside a reader, if frames wait: these are the coroutines of the connection, in the order
-- in which they wait.
abbrev pub Serves : Shared → Task → List Task → Type 0
Serves s r [] = (s.writer_running ≡ false) × (s.outgoing_frames ≡ []) × (others s.tasks ≡ r ∷ [])
Serves s r (w ∷ []) =
    (s.writer_running ≡ true)
    × IsWriter s.active_generation s.outgoing_frames w
    × ((others s.tasks ≡ r ∷ w ∷ []) ⊎ (others s.tasks ≡ w ∷ r ∷ []))
Serves s r _ = ⊥

-- One coroutine reads, and at most one writes.
abbrev pub IsUp : Shared → Type 0
IsUp s =
    (s.connection_active ≡ true)
    × (s.connected ≡ true)
    × (s.socket_open ≡ true)
    × (has_value s.current_config ≡ true)
    × (r : Task) × IsReader s.active_generation r
    × (ws : List Task) × Serves s r ws

pub data Situation (s : Shared) : Type 0 where
  down : IsDown s → Situation s
  starting : IsStarting s → Situation s
  opening : IsOpening s → Situation s
  up : IsUp s → Situation s

-- An actor that runs is in one of the situations; what it has published is well-formed.
abbrev pub IsOrderly : Shared → Type 0
IsOrderly s =
    (talk (some false) s.published ≡ some s.connected)
    × ((s.context_stopped ≡ true) ⊎ ((s.stopping ≡ false) × Situation s))
