-- ===== src/Io/Orderly/Tests.antt =====
-- The theorems about orderly executions, on one that opens a connection and writes a frame.
use fcitx5_scribe.Common.{ℕ, All, ◌≡◌, inl, refl, true, some, [], ◌∷◌, ◌++◌}
use fcitx5_scribe.Protocol.{
  generate_nonce, proof_message, compute_server_proof, network_bytes, encode_frame, decode_frame,
}
use fcitx5_scribe.Io.State.{
  Shared, connect_command, send_command, await_command, start_connection, await_connect,
  await_hello_written, await_hello_header, await_hello_payload, start_read, await_header,
  await_payload, commit_text, start_write, await_written, Publication, authenticated, init,
  had_connection, close_connection,
}
use fcitx5_scribe.Io.Handshake.{validate_server_hello, frame_size, bad_frame_size, client_hello}
use fcitx5_scribe.Io.Commands.{connect, send}
use fcitx5_scribe.Io.Tasks.{resume}
use fcitx5_scribe.Io.System.{taken}
use fcitx5_scribe.Io.Example.{test_crypto, test_codec, test_config, test_commit}
use fcitx5_scribe.Io.Orderly.{IsOrderly}
use fcitx5_scribe.Io.Orderly.Runs.{TurnReach, connects, sends, resumes, no_fault}
use fcitx5_scribe.Io.Orderly.Order.{all_written, all_handed, frames_in_order}
use mathlib.Core.List.{Sublist, Mem}
use fcitx5_scribe.Io.Authenticity.{messages_of}
use fcitx5_scribe.Io.Authenticity.Executions.{validated, messages_authentic}
use fcitx5_scribe.Io.System.{Step}
use fcitx5_scribe.Io.Orderly.AnyOrder.{TurnReach-Reach}
use fcitx5_scribe.Io.Link.{Run, serving}
use fcitx5_scribe.Io.Link.Refinement.{ever_handed, ever_written, runs_the_link}
use fcitx5_scribe.Io.Link.Promises.{written_from_handed}
use fcitx5_scribe.Io.Orderly.Example.{
  read_of, handed_out, interrupt, frame, s1, s2, s3, s4, s5, s6, s7, s9, s10, s11, s12, s13, s14,
  s15, s16,
}

program : Unit {0}
unfolding init had_connection close_connection resume network_bytes frame_size bad_frame_size
    validate_server_hello proof_message compute_server_proof client_hello encode_frame connect send
    decode_frame generate_nonce
program = tt

abbrev Reached : Shared → Type 0
Reached s = TurnReach test_crypto test_codec s

reached_1 : Reached s1
unfolding program
reached_1 = TurnReach.later TurnReach.start (connects true test_config)

reached_2 : Reached s2
unfolding program
reached_2 = TurnReach.later reached_1 (
    resumes [] [] await_command (handed_out (connect_command test_config))
      (record { waits = refl; runs = refl; may = refl; fits = tt; turn = tt }) refl)

reached_3 : Reached s3
unfolding program
reached_3 = TurnReach.later reached_2 (
    resumes [] (await_command ∷ []) (start_connection 1 test_config) (read_of [])
      (record { waits = refl; runs = refl; may = tt; fits = tt; turn = tt }) refl)

reached_4 : Reached s4
unfolding program
reached_4 = TurnReach.later reached_3 (
    resumes (await_command ∷ []) [] (await_connect 1 test_config) (read_of [])
      (record { waits = refl; runs = refl; may = tt; fits = tt; turn = inl refl }) refl)

reached_5 : Reached s5
unfolding program
reached_5 = TurnReach.later reached_4 (
    resumes (await_command ∷ []) [] (await_hello_written 1) (read_of [])
      (record { waits = refl; runs = refl; may = tt; fits = tt; turn = inl refl }) refl)

reached_6 : Reached s6
unfolding program
reached_6 = TurnReach.later reached_5 (
    resumes (await_command ∷ []) [] (await_hello_header 1) (read_of (network_bytes 1))
      (record { waits = refl; runs = refl; may = tt; fits = tt; turn = inl refl }) refl)

reached_7 : Reached s7
unfolding program
reached_7 = TurnReach.later reached_6 (
    resumes (await_command ∷ []) [] (await_hello_payload 1 1) (read_of (1 ∷ []))
      (record { waits = refl; runs = refl; may = tt; fits = tt; turn = inl refl }) refl)

reached_9 : Reached s9
unfolding program
reached_9 =
    TurnReach.later (TurnReach.later reached_7 (sends true interrupt)) (sends true interrupt)

reached_10 : Reached s10
unfolding program
reached_10 = TurnReach.later reached_9 (
    resumes [] (start_read 1 ∷ []) await_command (handed_out (send_command frame))
      (record { waits = refl; runs = refl; may = refl; fits = tt; turn = (refl, tt) }) refl)

reached_11 : Reached s11
unfolding program
reached_11 = TurnReach.later reached_10 (
    resumes (start_read 1 ∷ start_write 1 ∷ []) [] await_command (handed_out (send_command frame))
      (record { waits = refl; runs = refl; may = refl; fits = tt; turn = (refl, (refl, tt)) }) refl)

reached_12 : Reached s12
unfolding program
reached_12 = TurnReach.later reached_11 (
    resumes (start_read 1 ∷ []) (await_command ∷ []) (start_write 1) (read_of [])
      (record { waits = refl; runs = refl; may = tt; fits = tt; turn = tt }) refl)

reached_13 : Reached s13
unfolding program
reached_13 = TurnReach.later reached_12 (
    resumes (start_read 1 ∷ await_command ∷ []) [] (await_written 1 frame) (read_of [])
      (record { waits = refl; runs = refl; may = tt; fits = tt; turn = inl refl }) refl)

-- The frame that was written, then the one that waits, are the two that were handed over.
frames_in_order_example :
    all_written test_crypto test_codec reached_13 ++ (frame ∷ [])
    ≡ all_handed test_crypto test_codec reached_13
frames_in_order_example = frames_in_order test_crypto test_codec reached_13 refl

no_fault_example :
    (u : Shared) × (resume test_crypto test_codec
        (await_written 1 frame)
        (read_of [])
        (taken ((start_read 1 ∷ await_command ∷ []) ++ []) (read_of []) s13)
      ≡ some u)
    × IsOrderly u
unfolding init
no_fault_example =
    no_fault test_crypto test_codec (await_written 1 frame) (read_of [])
      (start_read 1 ∷ await_command ∷ []) [] reached_13
      (record { waits = refl; runs = refl; may = tt; fits = tt; turn = inl refl })

-- Two frames were handed over, one is written, and the other waits.
runs_the_link_example :
    Run
      (ever_handed test_crypto test_codec reached_13)
      (ever_written test_crypto test_codec reached_13)
      (authenticated ∷ [])
      (serving (frame ∷ []))
unfolding init
runs_the_link_example = runs_the_link test_crypto test_codec reached_13

written_from_handed_example :
    Sublist
      (ever_written test_crypto test_codec reached_13 ++ (frame ∷ []))
      (ever_handed test_crypto test_codec reached_13)
unfolding init
written_from_handed_example = written_from_handed test_crypto test_codec reached_13

reached_14 : Reached s14
unfolding program
reached_14 = TurnReach.later reached_7 (
    resumes (await_command ∷ []) [] (start_read 1) (read_of [])
      (record { waits = refl; runs = refl; may = tt; fits = tt; turn = tt }) refl)

reached_15 : Reached s15
unfolding program
reached_15 = TurnReach.later reached_14 (
    resumes (await_command ∷ []) [] (await_header 1) (read_of (network_bytes 1))
      (record { waits = refl; runs = refl; may = tt; fits = tt; turn = inl refl }) refl)

abbrev read_commit : Step test_crypto test_codec s15 s16
unfolding program
read_commit =
    Step.resumes (await_command ∷ []) [] (await_payload 1 1) (read_of (2 ∷ [])) refl refl tt refl

messages_authentic_example :
    (messages_of s16.published ≡ commit_text test_commit ∷ [])
    × All
        (λ (x : ℕ × Publication).
          Mem x.0
            (validated test_crypto test_codec (TurnReach-Reach test_crypto test_codec reached_15)))
        ((1, commit_text test_commit) ∷ [])
unfolding program
messages_authentic_example =
    messages_authentic test_crypto test_codec (TurnReach-Reach test_crypto test_codec reached_15)
      read_commit
