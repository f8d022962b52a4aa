-- ===== src/Io/Races.antt =====
-- Waits that end successfully after their connection was closed. Nothing checks the generation
-- between the wait and the use of what the close has reset.
use fcitx5_scribe.Common.{◌≡◌, Bool, true, false, Option, none, some, arith}
use fcitx5_scribe.Error.{Error}
use fcitx5_scribe.Protocol.{Crypto, Codec}
use fcitx5_scribe.Io.State.{
  Shared, Task, Wakeup, await_hello_written, await_hello_header, await_written, returned,
  had_connection, close_connection,
}
use fcitx5_scribe.Io.Handshake.{frame_size, bad_frame_size}
use fcitx5_scribe.Io.Tasks.{resume}

-- The coroutine goes on to use state that a close empties.
abbrev pub UsesConnection : Task → Wakeup → Type 0
UsesConnection (await_hello_written g) (returned none bytes) = Unit
UsesConnection (await_hello_header g) (returned none bytes) =
    bad_frame_size (frame_size bytes) ≡ false
UsesConnection (await_written g frame) (returned none bytes) = Unit
UsesConnection _ w = ⊥

-- If a connection is closed, for any reason, while the completed write of a frame, the completed
-- write of the hello or the completed read of a good header waits to be resumed, the resumed
-- coroutine has undefined behaviour: it takes the front of an empty queue, or reads a configuration
-- that is not there.
pub resumed_after_close :
    (crypto : Crypto) (codec : Codec) (t : Task) (w : Wakeup) (error : Option Error) (wanted : Bool)
    (s u : Shared)
    → UsesConnection t w
    → had_connection s ≡ true
    → close_connection error wanted s ≡ some u
    → resume crypto codec t w u ≡ none
unfolding resume close_connection
resumed_after_close crypto codec (await_hello_written g) w error wanted s u c h e = ground arith
resumed_after_close crypto codec _ w error wanted s u c h e = ground arith
