-- ===== src/Io/Tasks.antt =====
-- `run`, `runConnection`, `readLoop` and `writeLoop`: what a coroutine does from one wait to the
-- next (io.cpp).
use Prim.Native.String.{◌++◌}
use fcitx5_scribe.Common.{
  ℕ, ◌+◌, ◌%◌, ◌^◌, true, false, not, ◌&&◌, ◌||◌, Option, none, some, String, List, [], ◌∷◌,
  if◌then◌else◌, ◌==◌,
}
use fcitx5_scribe.Error.{Error, Result, ok, unexpected, make_error, transport, ConnectionConfig}
use fcitx5_scribe.Proto.{Bytes, Envelope}
use fcitx5_scribe.Protocol.{Crypto, Codec, decode_frame}
use fcitx5_scribe.Io.State.{
  Action, ◌>>◌, ◌>>=◌, current, return, modify, fault, publish, push_back, spawn, close_connection,
  fail, ErrorCode, Command, connect_command, disconnect_command, send_command, commit_text,
  vad_timeout, protocol_error, Task, await_command, start_connection, await_connect,
  await_hello_written, await_hello_header, await_hello_payload, start_read, await_header,
  await_payload, start_write, await_written, Wakeup, returned, threw, received,
}
use fcitx5_scribe.Io.Handshake.{
  describe_error, violation, frame_size, bad_frame_size, authenticate, hello_written, hello_header,
  hello_payload,
}

-- `handleCommand`.
unfoldable pub handle_command : Command → Action
unfolding close_connection
handle_command (connect_command config) = do
  s ← current
  if s.stopping || s.connection_active then return else (do
    modify λ t. record t {
      connection_active = true;
      generation_counter = (t.generation_counter + 1) % 2 ^ 64;
    }
    t ← current
    spawn (start_connection t.generation_counter config))
handle_command disconnect_command = close_connection none false
handle_command (send_command frame) = do
  s ← current
  if not s.connected || not s.socket_open then return else (do
    push_back frame
    if s.writer_running then return else (do
      modify λ t. record t { writer_running = true }
      spawn (start_write s.active_generation)))

-- The head of the loop of `run`.
unfoldable pub next_command : Action
next_command = do s ← current; if s.stopping then return else spawn await_command

unfoldable pub command_received : Option Command → Action
unfolding handle_command next_command
command_received none = next_command
command_received (some command) = do handle_command command; next_command

unfoldable pub connect_failure : ConnectionConfig → String → Error
connect_failure config reason =
    make_error transport
      ("failed to connect to transcriber at " ++ (config.socket_path ++ (": " ++ reason)))

-- The head of the loop of `readLoop`.
unfoldable pub next_read : ℕ → Action
next_read generation = do
  s ← current
  if not s.stopping && (generation == s.active_generation && s.socket_open)
      then spawn (await_header generation)
      else return

unfoldable pub header_read : ℕ → Option ErrorCode → Bytes → Action
unfolding close_connection describe_error violation frame_size bad_frame_size
header_read generation (some code) header =
    if code.is_eof
    then close_connection none false
    else fail (describe_error transport "failed to read frame length" code)
header_read generation none header =
    if bad_frame_size (frame_size header)
    then fail (violation "invalid inbound frame size")
    else spawn (await_payload generation (frame_size header))

unfoldable pub dispatch_envelope : ℕ → Result Envelope → Action
unfolding violation next_read
dispatch_envelope generation (unexpected e) = fail e
dispatch_envelope generation (ok (Envelope.commit_text m)) = do
  publish (commit_text m)
  next_read generation
dispatch_envelope generation (ok (Envelope.vad_timeout m)) = do
  publish (vad_timeout m)
  next_read generation
dispatch_envelope generation (ok (Envelope.error m)) = do
  publish (protocol_error m)
  next_read generation
dispatch_envelope generation (ok _) = fail (violation "unexpected message from authenticated peer")

-- The head of the loop of `writeLoop`.
abbrev write_front : ℕ → List Bytes → Action
write_front generation [] = modify λ s. record s { writer_running = false }
write_front generation (frame ∷ rest) = spawn (await_written generation frame)

unfoldable pub next_write : ℕ → Action
next_write generation = do
  s ← current
  if not s.stopping && (generation == s.active_generation && s.socket_open)
      then write_front generation s.outgoing_frames
      else modify λ t. record t { writer_running = false }

-- `outgoingFrames.pop_front()`, which is undefined on an empty deque.
abbrev pop_front : List Bytes → Action
pop_front [] = fault
pop_front (frame ∷ rest) = modify λ s. record s { outgoing_frames = rest }

unfoldable pub frame_written : ℕ → Option ErrorCode → Action
unfolding close_connection describe_error next_write
frame_written generation (some code) = do
  modify λ s. record s { writer_running = false }
  fail (describe_error transport "failed to write to transcriber" code)
frame_written generation none = do s ← current; pop_front s.outgoing_frames; next_write generation

module _ (crypto : Crypto) (codec : Codec) where
  -- `runConnection` up to the first wait: the new socket is open once connecting has begun.
  unfoldable pub connection_started : ℕ → ConnectionConfig → Wakeup → Action
  unfolding connect_failure close_connection
  connection_started generation config (threw reason) = do
    modify λ s. record s {
      active_generation = generation;
      current_config = some config;
      socket_open = false;
    }
    fail (connect_failure config reason)
  connection_started generation config _ = do
    modify λ s. record s {
      active_generation = generation;
      current_config = some config;
      socket_open = true;
    }
    spawn (await_connect generation config)

  unfoldable pub connection_made : ℕ → ConnectionConfig → Wakeup → Action
  unfolding connect_failure close_connection authenticate
  connection_made generation config (threw reason) = fail (connect_failure config reason)
  connection_made generation config (returned (some code) bytes) =
      fail (connect_failure config code.message)
  connection_made generation config _ = authenticate crypto codec generation

  unfoldable pub payload_read : ℕ → Option ErrorCode → Bytes → Action
  unfolding describe_error close_connection dispatch_envelope
  payload_read generation (some code) payload =
      fail (describe_error transport "failed to read inbound frame" code)
  payload_read generation none payload = dispatch_envelope generation (decode_frame codec payload)

  -- A coroutine resumes; a wakeup of another kind than it waits for does not occur.
  unfoldable pub resume : Task → Wakeup → Action
  unfolding command_received connection_started connection_made hello_written hello_header
      hello_payload next_read header_read payload_read next_write frame_written
  resume await_command (received command) = command_received command
  resume (start_connection g config) w = connection_started g config w
  resume (await_connect g config) w = connection_made g config w
  resume (await_hello_written g) (returned code bytes) = hello_written crypto codec g code
  resume (await_hello_header g) (returned code bytes) = hello_header crypto codec g code bytes
  resume (await_hello_payload g n) (returned code bytes) = hello_payload crypto codec g code bytes
  resume (start_read g) w = next_read g
  resume (await_header g) (returned code bytes) = header_read g code bytes
  resume (await_payload g n) (returned code bytes) = payload_read g code bytes
  resume (start_write g) w = next_write g
  resume (await_written g frame) (returned code bytes) = frame_written g code
  resume _ _ = return
