-- ===== src/Protocol/Tests.antt =====
-- The theorems about the protocol at concrete inputs.
use fcitx5_scribe.Io.Handshake.{frame_size}
use fcitx5_scribe.Common.{
  ◌++◌, codes, replicate, take, drop, ℕ, ◌≤◌, ◌<◌, ◌≡◌, refl, Option, none, some, [], ◌∷◌, arith,
  length, ◌==◌, if◌then◌else◌,
}
use fcitx5_scribe.Error.{ok, unexpected, make_error, protocol_violation}
use fcitx5_scribe.Proto.{Bytes, Envelope}
use fcitx5_scribe.Protocol.{
  Crypto, Codec, generate_session_id, compute_server_proof, encode_frame, decode_frame,
  network_bytes,
}
use fcitx5_scribe.Protocol.SessionIds.{IsUuidOf, generate_session_id-IsUuidOf}
use fcitx5_scribe.Protocol.Proof.{compute_server_proof-eq-ok}
use fcitx5_scribe.Protocol.Frame.{decode-encode_frame, encode_frame-bounded}

abbrev random_bytes : Bytes
random_bytes = 255 ∷ 0 ∷ 1 ∷ 2 ∷ 3 ∷ 4 ∷ 255 ∷ 6 ∷ 255 ∷ 8 ∷ 9 ∷ 10 ∷ 11 ∷ 12 ∷ 13 ∷ 14 ∷ []

abbrev test_crypto : Crypto
test_crypto = record {
  rand_bytes = λ n. if n == 16 then some random_bytes else none;
  hmac_sha256 = λ key message. some (length message ∷ []);
}

abbrev test_id : Bytes
test_id = 1 ∷ 2 ∷ []

abbrev test_envelope : Envelope
test_envelope = Envelope.start_session (record { session_id = test_id })

-- It knows one envelope, which it writes as in protobuf.
abbrev test_payload : Bytes
test_payload = 0x1a ∷ 4 ∷ 0x0a ∷ 2 ∷ 1 ∷ 2 ∷ []

abbrev serialize_exactly : ℕ → Option Bytes
serialize_exactly n = if n == 6 then some test_payload else none

abbrev test_codec : Codec
test_codec = record {
  byte_size_long = λ e. 6;
  serialize_to_array = λ e n. serialize_exactly n;
  parse_from_array = λ payload. some test_envelope;
}

serialize_exactly-length :
    (n : ℕ) (bytes : Bytes) → serialize_exactly n ≡ some bytes → length bytes ≡ n
serialize_exactly-length n bytes h = ground arith

generate_session_id-IsUuidOf_example :
    (id : Bytes) × (generate_session_id test_crypto ≡ ok id) × IsUuidOf random_bytes id
generate_session_id-IsUuidOf_example =
    generate_session_id-IsUuidOf test_crypto random_bytes refl refl (omega arith)

-- The digest is the whole message, so that it tells the nonces apart.
abbrev plain_crypto : Crypto
plain_crypto = record { rand_bytes = λ n. none; hmac_sha256 = λ key message. some message }

abbrev test_message : Bytes
test_message = codes "fcitx5-scribe/v0/server" ++ (replicate 32 1 ++ replicate 32 2)

compute_server_proof-eq-ok_example :
    compute_server_proof plain_crypto "secret" (replicate 32 1) (replicate 32 2) ≡ ok test_message
compute_server_proof-eq-ok_example =
    (compute_server_proof-eq-ok plain_crypto "secret" (replicate 32 1) (replicate 32 2) test_message
        refl).1
      (
        omega arith,
        (test_message, record { label = refl; client_part = refl; server_part = refl }, refl),
      )

decode-encode_frame_example :
    (frame : Bytes) × (encode_frame test_codec test_envelope ≡ ok frame)
    × (frame_size (take 4 frame) ≡ length (drop 4 frame))
    × (decode_frame test_codec (drop 4 frame) ≡ ok test_envelope)
decode-encode_frame_example =
    decode-encode_frame test_codec test_envelope test_payload
      (record { serializes = refl; sized = refl; parses = refl }) (omega arith)

-- The length comes first, its highest byte in front.
test_frame : encode_frame test_codec test_envelope ≡ ok (0 ∷ 0 ∷ 0 ∷ 6 ∷ test_payload)
unfolding encode_frame network_bytes
test_frame = refl

encode_frame-bounded_example :
    ((frame : Bytes) → encode_frame test_codec test_envelope ≡ ok frame → length frame ≤ 65540)
    × (65536 < 6
        → encode_frame test_codec test_envelope
          ≡ unexpected (make_error protocol_violation "protobuf frame too large"))
encode_frame-bounded_example =
    encode_frame-bounded test_codec test_envelope (λ n bytes h. serialize_exactly-length n bytes h)
