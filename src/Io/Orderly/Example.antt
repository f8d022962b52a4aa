-- ===== src/Io/Orderly/Example.antt =====
-- The states of an execution that opens a connection, writes a frame and reads a message.
use fcitx5_scribe.Common.{true, none, some, [], ◌∷◌}
use fcitx5_scribe.Proto.{Bytes, Envelope}
use fcitx5_scribe.Io.State.{
  Shared, Command, connect_command, send_command, Task, await_command, start_connection,
  await_connect, await_hello_written, await_hello_header, await_hello_payload, start_read,
  await_header, await_payload, commit_text, start_write, await_written, Wakeup, returned, received,
  authenticated, init,
}
use fcitx5_scribe.Io.Example.{test_nonce, test_config, test_commit}

abbrev pub read_of : Bytes → Wakeup
read_of bytes = returned none bytes

abbrev pub handed_out : Command → Wakeup
handed_out command = received (some command)

abbrev pub interrupt : Envelope
interrupt = Envelope.start_session (record { session_id = [] })

abbrev pub frame : Bytes
frame = 0 ∷ 0 ∷ 0 ∷ 1 ∷ 9 ∷ []

-- The worker and another coroutine wait.
abbrev pub waits_in : Task → Shared → Shared
waits_in t s = record s { tasks = await_command ∷ t ∷ [] }

abbrev pub s1 : Shared
s1 = record init { commands = connect_command test_config ∷ [] }

abbrev pub s2 : Shared
s2 = record init {
  connection_active = true;
  generation_counter = 1;
  tasks = start_connection 1 test_config ∷ await_command ∷ [];
}

abbrev pub s3 : Shared
s3 =
    waits_in (await_connect 1 test_config)
      (record s2 { socket_open = true; active_generation = 1; current_config = some test_config })

abbrev pub s4 : Shared
s4 = waits_in (await_hello_written 1) (record s3 { client_nonce = some test_nonce })

abbrev pub s5 : Shared
s5 = waits_in (await_hello_header 1) s4

abbrev pub s6 : Shared
s6 = waits_in (await_hello_payload 1 1) s5

abbrev pub s7 : Shared
s7 = waits_in (start_read 1) (record s3 { connected = true; published = authenticated ∷ [] })

-- Two frames are sent, and handed out one after the other.
abbrev pub s9 : Shared
s9 = record s7 { commands = send_command frame ∷ send_command frame ∷ [] }

abbrev pub s10 : Shared
s10 = record s7 {
  commands = send_command frame ∷ [];
  writer_running = true;
  outgoing_frames = frame ∷ [];
  tasks = start_read 1 ∷ start_write 1 ∷ await_command ∷ [];
}

abbrev pub s11 : Shared
s11 = record s10 { commands = []; outgoing_frames = frame ∷ frame ∷ [] }

abbrev pub s12 : Shared
s12 = record s11 { tasks = start_read 1 ∷ await_command ∷ await_written 1 frame ∷ [] }

-- The first is written.
abbrev pub s13 : Shared
s13 = record s12 { outgoing_frames = frame ∷ [] }

-- A message of the transcriber is read.
abbrev pub s14 : Shared
s14 = waits_in (await_header 1) s7

abbrev pub s15 : Shared
s15 = waits_in (await_payload 1 1) s14

abbrev pub s16 : Shared
s16 = record s14 { published = authenticated ∷ commit_text test_commit ∷ [] }
