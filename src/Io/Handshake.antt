-- ===== src/Io/Handshake.antt =====
-- `authenticate` and `validateServerHello` (io.cpp).
use Prim.Native.String.{◌++◌}
use text.Mathlib.Text.{◌==◌ as str_eq}
use fcitx5_scribe.Common.{
  ℕ, ◌+◌, ◌*◌, ◌^◌, Bool, true, false, not, ◌&&◌, ◌||◌, Option, none, some, String, [], ◌∷◌,
  if◌then◌else◌, empty, length, ◌==◌, ltb, replicate,
}
use fcitx5_scribe.Error.{
  Error, ErrorKind, Result, ok, unexpected, make_error, protocol_violation, state, transport,
  openssl, ConnectionConfig,
}
use fcitx5_scribe.Proto.{Bytes, ServerHello, Envelope}
use fcitx5_scribe.Util.{copy_exact_bytes}
use fcitx5_scribe.Protocol.{
  Crypto, Codec, protocol_version, client_name, nonce_size, max_frame_size, generate_nonce,
  compute_server_proof, encode_frame, decode_frame,
}
use fcitx5_scribe.Io.State.{
  Shared, Action, ◌>>◌, ◌>>=◌, current, return, modify, fault, publish, spawn, fail, ErrorCode,
  authenticated, await_hello_written, await_hello_header, await_hello_payload, start_read,
}

unfoldable pub describe_error : ErrorKind → String → ErrorCode → Error
describe_error kind context code = make_error kind (context ++ (": " ++ code.message))

-- `CRYPTO_memcmp(...) == 0` over equally long inputs.
unfoldable pub memory_equal : Bytes → Bytes → Bool
memory_equal [] ys = true
memory_equal (x ∷ xs) [] = false
memory_equal (x ∷ xs) (y ∷ ys) = x == y && memory_equal xs ys

unfoldable pub proof_matches : Bytes → Bytes → Bool
unfolding memory_equal
proof_matches input proof = length input == length proof && memory_equal input proof

-- `memcpy` into a `uint32_t`, and `ntohl`.
unfoldable pub frame_size : Bytes → ℕ
frame_size (a ∷ b ∷ c ∷ d ∷ []) = a * 2 ^ 24 + (b * 2 ^ 16 + (c * 2 ^ 8 + d))
frame_size _ = 0

unfoldable pub bad_frame_size : ℕ → Bool
bad_frame_size n = n == 0 || ltb max_frame_size n

abbrev rejection_text : String → String
rejection_text message =
    if empty message
    then "transcriber rejected handshake"
    else "transcriber rejected handshake: " ++ message

unfoldable pub violation : String → Error
violation message = make_error protocol_violation message

-- `Nonce serverNonce;`: the content is overwritten before it is read.
abbrev blank_nonce : Bytes
blank_nonce = replicate nonce_size 0

-- The received proof against the expected one.
unfoldable pub check_expected : Bytes → Result Bytes → Result (Unit {0})
unfolding proof_matches violation
check_expected proof (unexpected e) = unexpected e
check_expected proof (ok expected_proof) =
    if not (proof_matches proof expected_proof)
    then unexpected (violation "transcriber authentication failed")
    else ok tt

module _ (crypto : Crypto) where
  -- What follows once the state is known to be complete.
  check_proof : ServerHello → ConnectionConfig → Bytes → Result (Unit {0})
  unfolding check_expected copy_exact_bytes violation
  check_proof hello config client_nonce =
      let (copied, server_nonce) = copy_exact_bytes hello.server_nonce blank_nonce in
      if not copied
      then unexpected (violation "transcriber returned an invalid nonce")
      else check_expected hello.proof
          (compute_server_proof crypto config.auth_token client_nonce server_nonce)

  abbrev both {ℓ κ} : {A : Type ℓ} {B : Type κ} → Option A → Option B → Option (A × B)
  both (some a) (some b) = some (a, b)
  both _ _ = none

  unfoldable pub validate_server_hello : ServerHello → Shared → Result (Unit {0})
  unfolding check_proof violation
  validate_server_hello hello s =
      if not hello.accepted
      then unexpected (violation (rejection_text hello.error_message))
      else if not (str_eq hello.protocol_version protocol_version)
      then unexpected (violation "transcriber protocol version mismatch")
      else elim (both s.current_config s.client_nonce) [
        | none ↦ unexpected (make_error state "handshake state is incomplete")
        | some (config, client_nonce) ↦ check_proof hello config client_nonce
      ]

  module _ (codec : Codec) where
    unfoldable pub client_hello : Bytes → Envelope
    client_hello nonce = Envelope.client_hello (record {
      protocol_version = protocol_version;
      client_name = client_name;
      client_nonce = nonce;
    })

    -- `authenticate`, up to its first wait. The bytes that are written do not matter to the state.
    unfoldable pub write_hello : ℕ → Result Bytes → Action
    write_hello generation (unexpected e) = fail e
    write_hello generation (ok frame) = spawn (await_hello_written generation)

    unfoldable pub begin_handshake : ℕ → Result Bytes → Action
    unfolding client_hello write_hello
    begin_handshake generation (unexpected e) =
        fail (make_error openssl "failed to generate client nonce")
    begin_handshake generation (ok nonce) = do
      modify λ s. record s { client_nonce = some nonce }
      write_hello generation (encode_frame codec (client_hello nonce))

    unfoldable pub authenticate : ℕ → Action
    unfolding begin_handshake
    authenticate generation = do
      s ← current
      elim s.current_config [
        | none ↦ fail (make_error state "handshake started without connection config")
        | some config ↦ begin_handshake generation (generate_nonce crypto)
      ]

    -- `currentConfig->connectTimeout`, the timeout of the next wait.
    abbrev with_timeout : Action → Action
    with_timeout next = do s ← current; elim s.current_config [ none ↦ fault | some config ↦ next ]

    unfoldable pub hello_written : ℕ → Option ErrorCode → Action
    unfolding describe_error
    hello_written generation (some code) =
        fail (describe_error transport "failed to write ClientHello" code)
    hello_written generation none = with_timeout (spawn (await_hello_header generation))

    unfoldable pub hello_header : ℕ → Option ErrorCode → Bytes → Action
    unfolding describe_error violation frame_size bad_frame_size
    hello_header generation (some code) header =
        fail (describe_error transport "failed to read handshake frame length" code)
    hello_header generation none header =
        if bad_frame_size (frame_size header)
        then fail (violation "invalid inbound handshake frame size")
        else with_timeout (spawn (await_hello_payload generation (frame_size header)))

    -- The end of `authenticate`, and of `runConnection` if it returns true.
    unfoldable pub finish_handshake : ℕ → Action
    finish_handshake generation = do
      s ← current
      if not (generation == s.active_generation) || (s.stopping || not s.socket_open)
          then return
          else (do
            modify λ t. record t { client_nonce = none; connected = true }
            publish authenticated
            spawn (start_read generation))

    unfoldable pub accept_hello : ℕ → Result (Unit {0}) → Action
    unfolding finish_handshake
    accept_hello generation (unexpected e) = fail e
    accept_hello generation (ok _) = finish_handshake generation

    unfoldable pub check_hello : ℕ → Result Envelope → Action
    unfolding violation accept_hello
    check_hello generation (unexpected e) = fail e
    check_hello generation (ok (Envelope.server_hello hello)) = do
      s ← current
      accept_hello generation (validate_server_hello hello s)
    check_hello generation (ok _) = fail (violation "expected ServerHello during handshake")

    unfoldable pub hello_payload : ℕ → Option ErrorCode → Bytes → Action
    unfolding describe_error check_hello
    hello_payload generation (some code) payload =
        fail (describe_error transport "failed to read handshake frame" code)
    hello_payload generation none payload = check_hello generation (decode_frame codec payload)
