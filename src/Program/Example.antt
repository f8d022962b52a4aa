-- ===== src/Program/Example.antt =====
-- A configuration, a transcriber and the states of a session, for the tests.
use fcitx5_scribe.Common.{
  ℕ, Bool, true, false, Option, none, some, String, List, [], ◌∷◌, ◌++◌, if◌then◌else◌, replicate,
  get_or, ◌==◌,
}
use fcitx5_scribe.Error.{Result, ok, ConnectionConfig}
use fcitx5_scribe.Proto.{Bytes, Envelope, ServerHello, CommitText}
use fcitx5_scribe.Config.{Config}
use fcitx5_scribe.Engine.State.{Engine, SessionId, init, connecting, ready}
use fcitx5_scribe.Engine.Event.{LogLevel, info}
use fcitx5_scribe.Io.State.{
  Shared, init as shared_init, authenticated, commit_text, Task, await_command, start_connection,
  await_connect, await_hello_written, await_hello_header, await_hello_payload, start_read,
  await_header, await_payload, Wakeup, returned, connect_command, send_command,
}
use fcitx5_scribe.Addon.State.{Addon, InputContext}
use fcitx5_scribe.Addon.Handlers.{KeyEvent}
use fcitx5_scribe.Addon.History.{Call, Moment}
use fcitx5_scribe.Program.{Program, Outside}

abbrev pub test_nonce : Bytes
test_nonce = replicate 32 5

abbrev pub test_digest : Bytes
test_digest = 7 ∷ 8 ∷ []

abbrev pub test_session_id : Bytes
test_session_id = replicate 16 3

abbrev pub test_hello : ServerHello
test_hello = record {
  accepted = true;
  protocol_version = "scribe.v0";
  error_message = "";
  server_nonce = test_nonce;
  proof = test_digest;
}

abbrev pub test_commit : CommitText
test_commit = record { session_id = test_session_id; sequence_no = 1; text = "hello" }

-- Payloads 1 and 2 are a hello and a commit.
abbrev pub test_parse : Bytes → Option Envelope
test_parse bytes =
    if get_or bytes 0 0 == 1
    then some (Envelope.server_hello test_hello)
    else if get_or bytes 0 0 == 2
    then some (Envelope.commit_text test_commit)
    else none

abbrev pub test_outside : Outside
test_outside = record {
  crypto = record {
    rand_bytes = λ n. if n == 32 then some test_nonce else none;
    hmac_sha256 = λ key message. some test_digest;
  };
  codec = record {
    byte_size_long = λ e. 1;
    serialize_to_array = λ e n. some (9 ∷ []);
    parse_from_array = λ bytes. test_parse bytes;
  };
  uuid_to_string = λ id. "03030303-0303-4303-8303-030303030303";
}

abbrev pub test_generator : ℕ → Result SessionId
test_generator n = ok test_session_id

abbrev pub test_config : Config
test_config = record {
  values = record {
    toggle_transcription_key = [];
    socket_path = "";
    auth_token_env = "";
    connect_timeout_ms = 1000;
  };
  resolved_socket_path = "";
  socket_path_valid = true;
}

abbrev pub test_context : InputContext
test_context = record { address = 4096; object = 7 }

abbrev pub toggle_key : KeyEvent
toggle_key = record {
  is_release = false;
  check_key_list = λ keys. true;
  input_context = some test_context;
  has_focus = true;
}

abbrev pub at_once : Call → Moment
at_once c = record {
  platform = record { getenv = λ name. some "secret"; wordexp = λ text. some (text ∷ []) };
  live = λ n. true;
  call = c;
}

abbrev pub roomy : Shared → Bool
roomy s = true

-- The settings that the test uses.
abbrev pub connection : ConnectionConfig
connection = record { socket_path = "secret"; auth_token = "secret"; connect_timeout = 1000 }

abbrev pub read_of : Bytes → Wakeup
read_of bytes = returned none bytes

abbrev pub opening_engine : Engine
opening_engine = record (init test_generator) {
  contexts = (1, record { alive = true }) ∷ [];
  connection_config = some connection;
  focused_context = some 1;
  pending_context = some 1;
  connection_state = connecting;
}

-- The session expects this number.
abbrev pub engine_expecting : ℕ → Engine
engine_expecting n = record opening_engine {
  generated = 1;
  pending_context = none;
  session = some (record { context = 1; id = test_session_id; next_sequence_no = n });
  connection_state = ready;
}

abbrev pub log_2 : List (LogLevel × String)
log_2 =
    (
      info,
      "Transcriber connection configured: socket secret from FCITX5_SCRIBE_DEBUG_SOCKET_PATH, auth token from FCITX5_SCRIBE_DEBUG_AUTH_TOKEN",
    )
    ∷ []

abbrev pub log_9 : List (LogLevel × String)
log_9 =
    log_2
    ++ ((info, "Transcriber connection ready")
        ∷ (info, "Transcription started for session 03030303-0303-4303-8303-030303030303")
        ∷ [])

abbrev pub addon_2 : Shared → Addon Shared
addon_2 io = record {
  config = test_config;
  engine = opening_engine;
  io = io;
  next_context_id = 2;
  contexts = (4096, 1) ∷ [];
  contexts_by_id = (1, 7) ∷ [];
  committed = [];
  logged = log_2;
}

-- The addon is configured, and nothing has happened.
abbrev pub p1 : Program
p1 = record {
  addon = record {
    config = test_config;
    engine = record (init test_generator) { connection_config = some connection };
    io = shared_init;
    next_context_id = 1;
    contexts = [];
    contexts_by_id = [];
    committed = [];
    logged = log_2;
  };
  heard = [];
}

abbrev pub p2 : Program
p2 = record {
  addon = addon_2 (record shared_init { commands = connect_command connection ∷ [] });
  heard = [];
}

abbrev pub worker : List Task
worker = await_command ∷ []

-- The actor is in this state.
abbrev pub with_io : Program → Shared → Program
with_io p io = record p { addon = record p.addon { io = io } }

-- The worker and another coroutine wait.
abbrev pub waits_in : Task → Program → Program
waits_in t p = with_io p (record p.addon.io { tasks = await_command ∷ t ∷ [] })

abbrev pub p3 : Program
p3 = with_io p2 (record shared_init {
  connection_active = true;
  generation_counter = 1;
  tasks = start_connection 1 connection ∷ await_command ∷ [];
})

abbrev pub p4 : Program
p4 = waits_in (await_connect 1 connection) (
    with_io p3 (record p3.addon.io {
      socket_open = true;
      active_generation = 1;
      current_config = some connection;
    }))

abbrev pub p5 : Program
p5 =
    waits_in (await_hello_written 1)
      (with_io p4 (record p4.addon.io { client_nonce = some test_nonce }))

abbrev pub p6 : Program
p6 = waits_in (await_hello_header 1) p5

abbrev pub p7 : Program
p7 = waits_in (await_hello_payload 1 1) p6

abbrev pub p8 : Program
p8 =
    waits_in (start_read 1)
      (with_io p4 (record p4.addon.io { connected = true; published = authenticated ∷ [] }))

abbrev pub addon_9 : ℕ → List (ℕ × String) → Shared → Addon Shared
addon_9 n committed io = record (addon_2 io) {
  engine = engine_expecting n;
  committed = committed;
  logged = log_9;
}

abbrev pub p9 : Program
p9 = record {
  addon =
      addon_9 1 [] (record p8.addon.io { commands = send_command (0 ∷ 0 ∷ 0 ∷ 1 ∷ 9 ∷ []) ∷ [] });
  heard = authenticated ∷ [];
}

abbrev pub p10 : Program
p10 = waits_in (await_header 1) p9

abbrev pub p11 : Program
p11 = waits_in (await_payload 1 1) p10

abbrev pub p12 : Program
p12 = with_io p10 (record p10.addon.io { published = authenticated ∷ commit_text test_commit ∷ [] })

abbrev pub p13 : Program
p13 = record {
  addon = addon_9 2 ((7, "hello") ∷ []) p12.addon.io;
  heard = authenticated ∷ commit_text test_commit ∷ [];
}
