-- ===== src/Protocol.antt =====
-- protocol.hpp and protocol.cpp: identifiers, nonces, the server's proof, and frames.
pub mod SessionIds
pub mod Proof
pub mod Frame
mod Tests
use Prim.Native.Nat.{bit_and, bit_or}
use fcitx5_scribe.Common.{
  ℕ, ◌+◌, ◌-◌, ◌*◌, ◌/◌, ◌%◌, ◌^◌, Bool, Option, none, some, String, List, [], ◌∷◌, ◌++◌, ltb,
  if◌then◌else◌, codes, byte_size, set, get_or,
}
use fcitx5_scribe.Error.{Result, ok, unexpected, make_error, openssl, protocol_violation}
use fcitx5_scribe.Proto.{Bytes, Envelope}

abbrev pub protocol_version : String
protocol_version = "scribe.v0"

abbrev pub client_name : String
client_name = "fcitx5-scribe"

abbrev pub server_proof_label : String
server_proof_label = "fcitx5-scribe/v0/server"

abbrev pub session_id_size : ℕ
session_id_size = 16

abbrev pub nonce_size : ℕ
nonce_size = 32

abbrev pub max_frame_size : ℕ
max_frame_size = 64 * 1024

-- What the program calls of OpenSSL. `rand_bytes n` is the filled buffer of a call of `RAND_bytes`
-- that returns 1; `hmac_sha256 key message` is the digest, or `none` for a null pointer.
pub record Crypto : Type 0 where
  pub rand_bytes : ℕ → Option Bytes
  pub hmac_sha256 : String → Bytes → Option Bytes

-- What the program calls of the generated protobuf classes. `serialize_to_array e n` is the array of
-- `n` bytes after a call that returns true, `parse_from_array` the message that a call fills.
pub record Codec : Type 0 where
  pub byte_size_long : Envelope → ℕ
  pub serialize_to_array : Envelope → ℕ → Option Bytes
  pub parse_from_array : Bytes → Option Envelope

-- The version and the variant of a random UUID.
unfoldable pub mark_uuid : Bytes → Bytes
mark_uuid id =
    let versioned = set id 6 (bit_or (bit_and (get_or id 6 0) 0x0f) 0x40) in
    set versioned 8 (bit_or (bit_and (get_or versioned 8 0) 0x3f) 0x80)

unfoldable pub generate_session_id : Crypto → Result Bytes
generate_session_id c = elim (c.rand_bytes session_id_size) [
  | none ↦ unexpected (make_error openssl "RAND_bytes failed for session id")
  | some id ↦ ok (mark_uuid id)
]

unfoldable pub generate_nonce : Crypto → Result Bytes
generate_nonce c = elim (c.rand_bytes nonce_size) [
  | none ↦ unexpected (make_error openssl "RAND_bytes failed for nonce")
  | some nonce ↦ ok nonce
]

-- What the server signs: the label and the two nonces.
unfoldable pub proof_message : Bytes → Bytes → Bytes
proof_message client_nonce server_nonce = codes server_proof_label ++ (client_nonce ++ server_nonce)

abbrev pub int_max : ℕ
int_max = 2 ^ 31 - 1

unfoldable pub compute_server_proof : Crypto → String → Bytes → Bytes → Result Bytes
compute_server_proof c token client_nonce server_nonce =
    if ltb int_max (byte_size token)
    then unexpected (make_error openssl "token too large for HMAC")
    else elim (c.hmac_sha256 token (proof_message client_nonce server_nonce)) [
      | none ↦ unexpected (make_error openssl "HMAC computation failed")
      | some digest ↦ ok digest
    ]

-- `htonl`, copied to memory.
unfoldable pub network_bytes : ℕ → Bytes
network_bytes n = (n / 2 ^ 24 % 256) ∷ (n / 2 ^ 16 % 256) ∷ (n / 2 ^ 8 % 256) ∷ (n % 256) ∷ []

unfoldable pub encode_frame : Codec → Envelope → Result Bytes
encode_frame c envelope =
    let payload_size = c.byte_size_long envelope in
    if ltb max_frame_size payload_size
    then unexpected (make_error protocol_violation "protobuf frame too large")
    else elim (c.serialize_to_array envelope payload_size) [
      | none ↦ unexpected (make_error protocol_violation "failed to serialize protobuf envelope")
      | some payload ↦ ok (network_bytes (payload_size % 2 ^ 32) ++ payload)
    ]

unfoldable pub decode_frame : Codec → Bytes → Result Envelope
decode_frame c frame = elim (c.parse_from_array frame) [
  | none ↦ unexpected (make_error protocol_violation "invalid protobuf payload")
  | some envelope ↦ ok envelope
]
