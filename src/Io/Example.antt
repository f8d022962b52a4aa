-- ===== src/Io/Example.antt =====
-- A transcriber and settings, for the tests of the transport.
use fcitx5_scribe.Common.{true, Option, none, some, [], ◌∷◌, replicate, get_or, ◌==◌, if◌then◌else◌}
use fcitx5_scribe.Error.{ConnectionConfig}
use fcitx5_scribe.Proto.{Bytes, Envelope, ServerHello, CommitText}
use fcitx5_scribe.Protocol.{Crypto, Codec}

abbrev pub test_nonce : Bytes
test_nonce = replicate 32 5

abbrev pub test_digest : Bytes
test_digest = 7 ∷ 8 ∷ []

abbrev pub test_crypto : Crypto
test_crypto = record {
  rand_bytes = λ n. if n == 32 then some test_nonce else none;
  hmac_sha256 = λ key message. some test_digest;
}

abbrev pub test_config : ConnectionConfig
test_config = record {
  socket_path = "/tmp/scribe.sock";
  auth_token = "secret";
  connect_timeout = 250;
}

abbrev pub test_hello : ServerHello
test_hello = record {
  accepted = true;
  protocol_version = "scribe.v0";
  error_message = "";
  server_nonce = test_nonce;
  proof = test_digest;
}

abbrev pub test_commit : CommitText
test_commit = record { session_id = 1 ∷ []; sequence_no = 1; text = "hello" }

-- The proof is cut short.
abbrev pub forged_hello : ServerHello
forged_hello = record test_hello { proof = 7 ∷ [] }

-- Payloads 1, 2, 3 and 4 are a hello, a commit, an envelope that a peer must not send, and a hello
-- that is not genuine.
abbrev pub test_parse : Bytes → Option Envelope
test_parse bytes =
    if get_or bytes 0 0 == 1
    then some (Envelope.server_hello test_hello)
    else if get_or bytes 0 0 == 2
    then some (Envelope.commit_text test_commit)
    else if get_or bytes 0 0 == 3
    then some (Envelope.start_session (record { session_id = [] }))
    else if get_or bytes 0 0 == 4
    then some (Envelope.server_hello forged_hello)
    else none

abbrev pub test_codec : Codec
test_codec = record {
  byte_size_long = λ e. 1;
  serialize_to_array = λ e n. some (9 ∷ []);
  parse_from_array = λ bytes. test_parse bytes;
}
