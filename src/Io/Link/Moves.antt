-- ===== src/Io/Link/Moves.antt =====
-- Each resumption of a coroutine of the actor is a move of the link.
use mathlib.Core.List.{append-nil}
use fcitx5_scribe.Common.{◌≡◌, Bool, true, false, none, some, List, [], ◌∷◌, ◌++◌, arith}
use fcitx5_scribe.Proto.{Bytes}
use fcitx5_scribe.Protocol.{Crypto, Codec}
use fcitx5_scribe.Io.State.{
  Shared, Publication, authenticated, closed, failure, Task, await_command, start_connection,
  await_connect, await_hello_written, await_hello_header, await_hello_payload, await_payload,
  await_written, Wakeup, returned, close_connection,
}
use fcitx5_scribe.Io.Tasks.{resume}
use fcitx5_scribe.Io.Orderly.Frames.{written, handed, WritesFront}
use fcitx5_scribe.Io.Link.{Phase, idle, opening, serving, IsMessage, phase_of}

-- The moves as a function of both phases and of what is published.
abbrev pub Moves : Phase → List Bytes → List Bytes → List Publication → Phase → Type 0
Moves idle hd wr [] idle = wr ≡ []
Moves idle hd wr [] opening = (hd ≡ []) × (wr ≡ [])
Moves opening hd wr [] opening = wr ≡ []
Moves opening hd wr [] idle = (hd ≡ []) × (wr ≡ [])
Moves opening hd wr (failure e ∷ []) idle = (hd ≡ []) × (wr ≡ [])
Moves opening hd wr (authenticated ∷ []) (serving []) = (hd ≡ []) × (wr ≡ [])
Moves (serving frames) hd wr [] (serving others) = wr ++ others ≡ frames ++ hd
Moves (serving frames) hd wr (p ∷ []) (serving others) =
    IsMessage p × (others ≡ frames) × (hd ≡ []) × (wr ≡ [])
Moves (serving frames) hd wr (failure e ∷ []) idle = (hd ≡ []) × (wr ≡ [])
Moves (serving frames) hd wr (closed ∷ []) idle = (hd ≡ []) × (wr ≡ [])
Moves _ hd wr ps _ = ⊥

-- The flags of the actor agree.
pub record Agrees (s : Shared) : Type 0 where
  pub up_active : s.connected ≡ true → s.connection_active ≡ true
  pub up_open : s.connected ≡ true → s.socket_open ≡ true
  pub up_only : s.connected ≡ false → s.outgoing_frames ≡ []
  pub down_closed : s.connection_active ≡ false → s.socket_open ≡ false
  pub down_quiet : s.connection_active ≡ false → s.writer_running ≡ false

-- Where the connection stands when this coroutine resumes.
abbrev pub Stands : Task → Wakeup → Bool → Bool → Type 0
Stands await_command w connected active = Unit
Stands (start_connection g config) w connected active = (connected ≡ false) × (active ≡ true)
Stands (await_connect g config) w connected active = connected ≡ false
Stands (await_hello_written g) w connected active = connected ≡ false
Stands (await_hello_header g) w connected active = connected ≡ false
Stands (await_hello_payload g n) w connected active = connected ≡ false
Stands (await_payload g n) (returned none bytes) connected active = connected ≡ true
Stands (await_written g frame) (returned none bytes) connected active = connected ≡ true
Stands t w connected active = connected ≡ active

module _ (crypto : Crypto) (codec : Codec) where
  pub resume-Moves :
      (t : Task) (w : Wakeup) (s u : Shared)
      → s.published ≡ []
      → Agrees s
      → Stands t w s.connected s.connection_active
      → WritesFront t w s.outgoing_frames
      → resume crypto codec t w s ≡ some u
      → Moves (phase_of s) (handed t w) (written t w) u.published (phase_of u)
  unfolding resume close_connection
  resume-Moves await_command w s u q a st f h = ground (arith, append-nil s.outgoing_frames)
  resume-Moves (start_connection g config) w s u q a st f h =
      ground (arith, append-nil s.outgoing_frames)
  resume-Moves (await_connect g config) w s u q a st f h =
      ground (arith, append-nil s.outgoing_frames)
  resume-Moves (await_hello_written g) w s u q a st f h =
      ground (arith, append-nil s.outgoing_frames)
  resume-Moves (await_hello_header g) w s u q a st f h =
      ground (arith, append-nil s.outgoing_frames)
  resume-Moves (await_hello_payload g n) w s u q a st f h =
      ground (arith, append-nil s.outgoing_frames)
  resume-Moves (await_payload g n) w s u q a st f h = ground (arith, append-nil s.outgoing_frames)
  resume-Moves (await_written g frame) w s u q a st f h =
      ground (arith, append-nil s.outgoing_frames)
  resume-Moves _ w s u q a st f h = ground (arith, append-nil s.outgoing_frames)
