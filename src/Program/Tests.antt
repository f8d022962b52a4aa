-- ===== src/Program/Tests.antt =====
-- A session from the key to the text, through the addon and the actor.
use fcitx5_scribe.Common.{ℕ, Bool, ◌≡◌, refl, true, false, some, List, [], ◌∷◌, ◌++◌, inl}
use mathlib.Core.Option
use fcitx5_scribe.Proto.{Bytes}
use fcitx5_scribe.Common.Map
use fcitx5_scribe.Protocol.{
  generate_nonce, proof_message, compute_server_proof, network_bytes, encode_frame, decode_frame,
}
use fcitx5_scribe.Config.{Platform, load, connection_config}
use fcitx5_scribe.Engine.State.{init, context_can_commit}
use fcitx5_scribe.Engine.Session.{bytes_equal}
use fcitx5_scribe.Engine.Handlers.{handle}
use fcitx5_scribe.Io.State.{
  init as shared_init, authenticated, commit_text, await_command, start_connection, await_connect,
  await_hello_written, await_hello_header, await_hello_payload, start_read, await_header,
  await_payload, received, connect_command, had_connection, close_connection,
}
use fcitx5_scribe.Io.Handshake.{validate_server_hello, frame_size, bad_frame_size, client_hello}
use fcitx5_scribe.Io.Tasks.{resume}
use fcitx5_scribe.Io.Commands.{connect, disconnect, send}
use fcitx5_scribe.Io.Orderly.{talk}
use fcitx5_scribe.Addon.Contexts.{ensure_context_id, find_context_id, find_right, insert_pair}
use fcitx5_scribe.Util.{session_id_to_log_string}
use fcitx5_scribe.Addon.Dispatch.{dispatch, process, run_queue, apply_all, apply}
use fcitx5_scribe.Addon.History.{reload, key_event, from_transport, initial, perform}
use fcitx5_scribe.Program.{event_of, Program, called, told, ran, Reach, begins, later}
use fcitx5_scribe.Program.Texts.{Selected}
use fcitx5_scribe.Io.Reads.{commits_of}
use fcitx5_scribe.Io.State.{Publication}
use fcitx5_scribe.Program.Executions.{all_read}
use fcitx5_scribe.Program.Sessions.{texts_were_heard, session_authenticated}
use fcitx5_scribe.Engine.State.{SessionState}
use fcitx5_scribe.Config.{ResolvedConnectionConfig, socket_path_env, auth_token_env}
use fcitx5_scribe.Program.Example.{
  test_session_id, test_commit, test_outside, test_generator, test_config, toggle_key, at_once,
  roomy, with_io, connection, read_of, p2, worker, p3, p4, p5, p6, p7, p8, p9, p10, p11, p12, p13,
}

program : Unit {0}
unfolding perform initial init shared_init dispatch run_queue apply_all apply process handle load
    connection_config ensure_context_id find_context_id find_right Map.find Map.set Map.emplace
    connect disconnect send had_connection close_connection resume network_bytes frame_size
    bad_frame_size validate_server_hello proof_message compute_server_proof client_hello
    encode_frame decode_frame generate_nonce insert_pair session_id_to_log_string context_can_commit
    bytes_equal Option.bind
program = tt

abbrev Reached : Program → Type 0
Reached p = Reach test_outside test_generator test_config p

reached_2 : Reached p2
unfolding program
reached_2 =
    later (later begins (called roomy (at_once (reload (λ d. d))) tt refl))
      (called roomy (at_once (key_event toggle_key)) tt refl)

reached_3 : Reached p3
unfolding program
reached_3 = later reached_2 (
    ran [] [] await_command (received (some (connect_command connection)))
      (record { waits = refl; runs = refl; may = refl; fits = tt; turn = tt }) refl)

reached_4 : Reached p4
unfolding program
reached_4 = later reached_3 (
    ran [] worker (start_connection 1 connection) (read_of [])
      (record { waits = refl; runs = refl; may = tt; fits = tt; turn = tt }) refl)

reached_5 : Reached p5
unfolding program
reached_5 = later reached_4 (
    ran worker [] (await_connect 1 connection) (read_of [])
      (record { waits = refl; runs = refl; may = tt; fits = tt; turn = inl refl }) refl)

reached_6 : Reached p6
unfolding program
reached_6 = later reached_5 (
    ran worker [] (await_hello_written 1) (read_of [])
      (record { waits = refl; runs = refl; may = tt; fits = tt; turn = inl refl }) refl)

reached_7 : Reached p7
unfolding program
reached_7 = later reached_6 (
    ran worker [] (await_hello_header 1) (read_of (network_bytes 1))
      (record { waits = refl; runs = refl; may = tt; fits = tt; turn = inl refl }) refl)

reached_8 : Reached p8
unfolding program
reached_8 = later reached_7 (
    ran worker [] (await_hello_payload 1 1) (read_of (1 ∷ []))
      (record { waits = refl; runs = refl; may = tt; fits = tt; turn = inl refl }) refl)

reached_9 : Reached p9
unfolding program
reached_9 =
    later reached_8 (
      told roomy (at_once (from_transport (event_of authenticated))) authenticated [] refl refl
        refl)

reached_10 : Reached p10
unfolding program
reached_10 = later reached_9 (
    ran worker [] (start_read 1) (read_of [])
      (record { waits = refl; runs = refl; may = tt; fits = tt; turn = tt }) refl)

reached_11 : Reached p11
unfolding program
reached_11 = later reached_10 (
    ran worker [] (await_header 1) (read_of (network_bytes 1))
      (record { waits = refl; runs = refl; may = tt; fits = tt; turn = inl refl }) refl)

reached_12 : Reached p12
unfolding program
reached_12 = later reached_11 (
    ran worker [] (await_payload 1 1) (read_of (2 ∷ []))
      (record { waits = refl; runs = refl; may = tt; fits = tt; turn = inl refl }) refl)

reached_13 : Reached p13
unfolding program
reached_13 = later reached_12 (
    told roomy (at_once (from_transport (event_of (commit_text test_commit))))
      (commit_text test_commit) [] refl refl refl)

texts_were_heard_example :
    (commits_of p13.addon.io.published ≡ all_read test_outside test_generator reached_13)
    × ((waiting : List Publication) × (p13.addon.io.published ≡ p13.heard ++ waiting))
    × Selected p13.addon.committed p13.heard
texts_were_heard_example = texts_were_heard test_outside test_generator reached_13

session_authenticated_example : talk (some false) p13.heard ≡ some true
session_authenticated_example =
    session_authenticated test_outside test_generator
      (record { context = 1; id = test_session_id; next_sequence_no = 2 }) reached_13 refl

-- The session of the example expects its first message.
abbrev session_10 : SessionState
session_10 = record { context = 1; id = test_session_id; next_sequence_no = 1 }

abbrev platform_10 : Platform
platform_10 = (at_once (reload (λ d. d))).platform

abbrev always : ℕ → Bool
always object = true

-- The start message was written, and the worker waits behind the reader.
abbrev p10_written : Program
p10_written =
    with_io p10 (record p10.addon.io { commands = []; tasks = await_header 1 ∷ await_command ∷ [] })

abbrev resolved_1 : ResolvedConnectionConfig
resolved_1 = record {
  connection = connection;
  socket_path_source = socket_path_env;
  auth_token_source = auth_token_env;
}

abbrev frame_1 : Bytes
frame_1 = 0 ∷ 0 ∷ 0 ∷ 1 ∷ 9 ∷ []
