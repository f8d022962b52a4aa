-- ===== src/Io/Tests.antt =====
-- The theorems about the transport at concrete inputs.
use fcitx5_scribe.Common.{
  ◌≡◌, ◌↔◌, refl, true, false, Option, none, some, List, [], ◌∷◌, ◌++◌, All, arith,
}
use fcitx5_scribe.Error.{ok, transport, protocol_violation}
use fcitx5_scribe.Protocol.{
  proof_message, compute_server_proof, network_bytes, encode_frame, decode_frame,
}
use fcitx5_scribe.Io.State.{
  Shared, Task, Wakeup, ErrorCode, init, returned, authenticated, closed, commit_text,
  connect_command, await_header, await_hello_payload, await_payload, start_write, await_written,
  had_connection, close_connection,
}
use fcitx5_scribe.Io.Handshake.{validate_server_hello, frame_size, bad_frame_size, client_hello}
use fcitx5_scribe.Io.Commands.{connect}
use fcitx5_scribe.Io.Tasks.{resume}
use fcitx5_scribe.Io.Validation.{IsGenuine, validate_server_hello-eq-ok}
use fcitx5_scribe.Io.Closing.{IsClosed, close_connection_once}
use fcitx5_scribe.Io.Publications.{IsJustified, resume-IsJustified}
use fcitx5_scribe.Io.Races.{resumed_after_close}
use fcitx5_scribe.Io.Failures.{IsFailure, IsForged, lost_ends, violation_ends}
use fcitx5_scribe.Io.System.{Reach, start, later, connects, IsSafe, Reach-IsSafe}
use fcitx5_scribe.Io.Reading.{Sent, commit, IsServing, Reads, IsReading, stream, read_frames-stream}
use fcitx5_scribe.Io.Connecting.{worker, establishes, established, establish_authenticates}
use fcitx5_scribe.Io.Writing.{writes, drained, writer-drains}
use fcitx5_scribe.Io.Orderly.Going.{Goes}
use fcitx5_scribe.Io.Example.{
  forged_hello, test_digest, test_nonce, test_crypto, test_config, test_hello, test_commit,
  test_codec,
}

-- The worker is about to be handed a connect command.
abbrev connecting : Shared
connecting = record init { commands = connect_command test_config ∷ [] }

abbrev handshaking : Shared
handshaking = record init {
  connection_active = true;
  socket_open = true;
  generation_counter = 1;
  active_generation = 1;
  current_config = some test_config;
  client_nonce = some test_nonce;
  tasks = [];
}

abbrev serving : Shared
serving = record init {
  connection_active = true;
  connected = true;
  socket_open = true;
  writer_running = true;
  generation_counter = 1;
  active_generation = 1;
  current_config = some test_config;
  outgoing_frames = (10 ∷ []) ∷ (11 ∷ []) ∷ [];
  tasks = [];
}

abbrev broken : ErrorCode
broken = record { is_eof = false; message = "Connection reset by peer" }

program : Unit {0}
unfolding init had_connection close_connection resume network_bytes frame_size bad_frame_size stream
    validate_server_hello proof_message compute_server_proof client_hello encode_frame connect
    decode_frame
program = tt

test_hello-IsGenuine : IsGenuine test_crypto test_config test_nonce test_hello
unfolding compute_server_proof
test_hello-IsGenuine = record { accepted = refl; version = refl; nonce_length = refl; proof = refl }

serving-IsServing : IsServing 1 serving
unfolding init
serving-IsServing = record { running = refl; is_current = refl; is_open = refl }

validate_server_hello-eq-ok_example :
    (validate_server_hello test_crypto test_hello handshaking ≡ ok tt)
    ↔ IsGenuine test_crypto test_config test_nonce test_hello
unfolding init
validate_server_hello-eq-ok_example =
    validate_server_hello-eq-ok test_crypto test_config test_nonce test_hello handshaking refl refl

close_connection_once_example :
    (t : Shared) × (close_connection none false serving ≡ some t)
    × IsClosed t
    × (t.published ≡ closed ∷ [])
    × (t.active_generation ≡ 2)
    × (close_connection none true t ≡ some t)
unfolding init had_connection
close_connection_once_example = close_connection_once none none false true serving refl

abbrev state_of : Option Shared → Shared
state_of none = init
state_of (some s) = s

abbrev step : Task → Wakeup → Shared → Shared
step t w s = state_of (resume test_crypto test_codec t w s)

abbrev hello_read : Wakeup
hello_read = returned none (1 ∷ [])

answer_authenticates :
    (step (await_hello_payload 1 1) hello_read handshaking).published ≡ authenticated ∷ []
unfolding program
answer_authenticates = refl

resume-IsJustified_example :
    All
      (IsJustified test_crypto test_codec
        (await_hello_payload 1 1)
        hello_read
        handshaking
        (step (await_hello_payload 1 1) hello_read handshaking))
      (step (await_hello_payload 1 1) hello_read handshaking).published
unfolding program
resume-IsJustified_example =
    resume-IsJustified test_crypto test_codec (await_hello_payload 1 1) hello_read handshaking
      (step (await_hello_payload 1 1) hello_read handshaking) refl refl

abbrev after_close : Shared
after_close = record init {
  generation_counter = 1;
  active_generation = 2;
  published = closed ∷ [];
  tasks = [];
}

resumed_after_close_example :
    resume test_crypto test_codec (await_written 1 (10 ∷ [])) (returned none []) after_close ≡ none
unfolding program
resumed_after_close_example =
    resumed_after_close test_crypto test_codec (await_written 1 (10 ∷ [])) (returned none []) none
      false serving after_close tt refl refl

lost_ends_example :
    (had_connection (step (await_payload 1 1) (returned (some broken) []) serving) ≡ false)
    × IsFailure transport (step (await_payload 1 1) (returned (some broken) []) serving).published
unfolding program
lost_ends_example =
    lost_ends test_crypto test_codec (await_payload 1 1) broken [] serving
      (step (await_payload 1 1) (returned (some broken) []) serving) tt refl refl refl refl

forged_hello-IsForged : IsForged test_crypto forged_hello handshaking
unfolding init compute_server_proof
forged_hello-IsForged = record {
  config = test_config;
  nonce = test_nonce;
  has_config = refl;
  has_nonce = refl;
  can_sign = record { small = omega arith; signs = λ message. (test_digest, refl) };
  not_genuine =
      λ (h : IsGenuine test_crypto test_config test_nonce forged_hello). ground (arith, h.proof);
}

violation_ends_example :
    (had_connection (step (await_hello_payload 1 1) (returned none (4 ∷ [])) handshaking) ≡ false)
    × IsFailure protocol_violation
        (step (await_hello_payload 1 1) (returned none (4 ∷ [])) handshaking).published
unfolding program
violation_ends_example =
    violation_ends test_crypto test_codec (await_hello_payload 1 1) (4 ∷ []) handshaking
      (step (await_hello_payload 1 1) (returned none (4 ∷ [])) handshaking) forged_hello-IsForged
      refl refl refl refl

connect_reached : Reach test_crypto test_codec (connect true test_config init).1
connect_reached = later start (connects true test_config)

Reach-IsSafe_example : IsSafe test_crypto test_codec (connect true test_config init).1
Reach-IsSafe_example = Reach-IsSafe test_crypto test_codec connect_reached

abbrev two_commits : List Sent
two_commits = (commit test_commit, 2 ∷ []) ∷ (commit test_commit, 2 ∷ 0 ∷ []) ∷ []

-- The reader waits for a header, and behind it the worker.
abbrev reading : Shared
reading = record serving { tasks = await_header 1 ∷ worker }

read_frames-stream_example :
    (u : Shared) × Reads test_crypto test_codec reading (stream two_commits ++ (9 ∷ [])) u (9 ∷ [])
    × IsServing 1 u
    × IsReading 1 worker u.tasks
    × (u.published ≡ commit_text test_commit ∷ commit_text test_commit ∷ [])
unfolding init
read_frames-stream_example =
    read_frames-stream test_crypto test_codec 1 worker two_commits (9 ∷ []) reading
      (record { before = []; after = worker; waits = refl; beside = refl }) refl
      (record { running = refl; is_current = refl; is_open = refl })
      ((omega arith, omega arith, refl), ((omega arith, omega arith, refl), tt))

establish_authenticates_example :
    Goes test_crypto test_codec connecting
      (establishes 1 test_config (network_bytes 1) (1 ∷ []))
      (established [] test_config connecting)
unfolding program
establish_authenticates_example =
    establish_authenticates test_crypto test_codec test_config test_nonce (network_bytes 1) (1 ∷ [])
      (0 ∷ 0 ∷ 0 ∷ 1 ∷ 9 ∷ []) test_hello [] connecting refl refl refl refl refl refl refl refl refl
      test_hello-IsGenuine

-- A writer starts beside the worker.
abbrev starting : Shared
starting = record serving { tasks = start_write 1 ∷ worker }

writer-drains_example :
    Goes test_crypto test_codec starting
      ((start_write 1, returned none []) ∷ writes 1 ((10 ∷ []) ∷ (11 ∷ []) ∷ []))
      (drained worker starting)
unfolding init
writer-drains_example =
    writer-drains test_crypto test_codec 1 [] worker (10 ∷ []) ((11 ∷ []) ∷ []) starting refl refl
      (record { running = refl; is_current = refl; is_open = refl }) refl
