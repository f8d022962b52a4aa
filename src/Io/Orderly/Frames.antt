-- ===== src/Io/Orderly/Frames.antt =====
-- The frames of a connection, from the commands to the socket, along an orderly execution.
use mathlib.Core.List.{append-nil}
use fcitx5_scribe.Common.{ℕ, ◌≡◌, true, none, some, List, [], ◌∷◌, ◌++◌, arith}
use fcitx5_scribe.Error.{Result, ok}
use fcitx5_scribe.Proto.{Bytes, Envelope}
use fcitx5_scribe.Protocol.{Crypto, Codec}
use fcitx5_scribe.Io.State.{
  Shared, Task, await_command, await_hello_payload, await_written, send_command, Wakeup, returned,
  received, close_connection,
}
use fcitx5_scribe.Io.Handshake.{check_hello, hello_payload}
use fcitx5_scribe.Io.Tasks.{resume}
use fcitx5_scribe.Io.Orderly.{IsFront}

-- The frame that a completed wait has written.
abbrev pub written : Task → Wakeup → List Bytes
written (await_written g frame) (returned none bytes) = frame ∷ []
written _ _ = []

-- The frame of the command that the worker was handed.
abbrev pub handed : Task → Wakeup → List Bytes
handed await_command (received (some (send_command frame))) = frame ∷ []
handed _ _ = []

-- What is written is the oldest frame.
abbrev pub WritesFront : Task → Wakeup → List Bytes → Type 0
WritesFront (await_written g frame) (returned none bytes) frames = IsFront frame frames
WritesFront _ _ frames = Unit

module _ (crypto : Crypto) (codec : Codec) where
  -- While the connection is up, nothing is lost, doubled or overtaken.
  abbrev pub Passes : Task → Wakeup → Shared → Shared → Type 0
  Passes t w s u =
      u.connected ≡ true → written t w ++ u.outgoing_frames ≡ s.outgoing_frames ++ handed t w

  check_hello-Passes :
      (g : ℕ) (r : Result Envelope) (s u : Shared)
      → check_hello crypto codec g r s ≡ some u
      → u.connected ≡ true
      → u.outgoing_frames ≡ s.outgoing_frames ++ []
  unfolding check_hello close_connection
  check_hello-Passes g (ok (Envelope.server_hello hello)) s u h c =
      ground (arith, append-nil s.outgoing_frames)
  check_hello-Passes g _ s u h c = ground (arith, append-nil s.outgoing_frames)

  pub resume-Passes :
      (t : Task) (w : Wakeup) (s u : Shared)
      → (s.connected ≡ true → s.socket_open ≡ true)
      → WritesFront t w s.outgoing_frames
      → resume crypto codec t w s ≡ some u
      → Passes t w s u
  unfolding resume close_connection hello_payload
  resume-Passes await_command w s u o f h c = ground (arith, append-nil s.outgoing_frames)
  resume-Passes (await_hello_payload g n) (returned none payload) s u o f h c =
      check_hello-Passes g _ s u h c
  resume-Passes (await_written g frame) (returned none bytes) s u o f h c =
      ground (arith, append-nil s.outgoing_frames)
  resume-Passes _ w s u o f h c = ground (arith, append-nil s.outgoing_frames)
