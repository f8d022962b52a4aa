-- ===== src/Io/Failures.antt =====
-- What ends a connection, after the list in docs/protocol.md.
use fcitx5_scribe.Common.{ℕ, refl, ◌≡◌, true, false, none, some, List, [], ◌∷◌, arith}
use fcitx5_scribe.Error.{
  ConnectionConfig, ErrorKind, Result, ok, unexpected, transport, protocol_violation, make_error,
}
use fcitx5_scribe.Proto.{Bytes, Envelope, ServerHello}
use fcitx5_scribe.Protocol.{Crypto, Codec, decode_frame}
use fcitx5_scribe.Io.State.{
  Shared, Publication, failure, Task, await_connect, await_hello_written, await_hello_header,
  await_hello_payload, await_header, await_payload, await_written, ErrorCode, returned,
  had_connection, close_connection,
}
use fcitx5_scribe.Io.Handshake.{frame_size, bad_frame_size, violation, check_hello}
use fcitx5_scribe.Io.Validation.{IsGenuine, CanSign, validate_server_hello-rejects}
use fcitx5_scribe.Io.Tasks.{resume}

-- One failure of this kind.
abbrev pub IsFailure : ErrorKind → List Publication → Type 0
IsFailure kind (failure e ∷ []) = e.kind ≡ kind
IsFailure kind _ = ⊥

-- The waits on the socket whose errors are failures; a clean end of the stream is none where a frame
-- may begin.
abbrev pub IsLost : Task → ErrorCode → Type 0
IsLost (await_connect g config) code = Unit
IsLost (await_hello_written g) code = Unit
IsLost (await_hello_header g) code = Unit
IsLost (await_hello_payload g n) code = Unit
IsLost (await_header g) code = code.is_eof ≡ false
IsLost (await_payload g n) code = Unit
IsLost (await_written g frame) code = Unit
IsLost _ code = ⊥

-- An answer that is not genuine, for the configuration and the nonce that the actor has stored, while
-- OpenSSL signs under the token.
pub record IsForged (crypto : Crypto) (hello : ServerHello) (s : Shared) : Type 0 where
  pub config : ConnectionConfig
  pub nonce : Bytes
  pub has_config : s.current_config ≡ some config
  pub has_nonce : s.client_nonce ≡ some nonce
  pub can_sign : CanSign crypto config.auth_token
  pub not_genuine : ¬ IsGenuine crypto config nonce hello

-- An answer to the hello that is no genuine `ServerHello`, and a message that no authenticated peer
-- sends.
abbrev pub IsBadAnswer : Crypto → Shared → Result Envelope → Type 0
IsBadAnswer crypto s (ok (Envelope.server_hello hello)) = IsForged crypto hello s
IsBadAnswer crypto s (ok _) = Unit
IsBadAnswer crypto s (unexpected e) = Unit

abbrev pub IsUnexpectedMessage : Result Envelope → Type 0
IsUnexpectedMessage (ok (Envelope.commit_text m)) = ⊥
IsUnexpectedMessage (ok (Envelope.vad_timeout m)) = ⊥
IsUnexpectedMessage (ok (Envelope.error m)) = ⊥
IsUnexpectedMessage (ok _) = Unit
IsUnexpectedMessage (unexpected e) = Unit

-- What was read breaks the protocol: a length out of bounds, a payload that does not parse or that is
-- not expected at this point, or an answer to the hello that is not genuine.
abbrev pub IsViolation : Crypto → Codec → Task → Bytes → Shared → Type 0
IsViolation k c (await_hello_header g) bytes s = bad_frame_size (frame_size bytes) ≡ true
IsViolation k c (await_hello_payload g n) bytes s = IsBadAnswer k s (decode_frame c bytes)
IsViolation k c (await_header g) bytes s = bad_frame_size (frame_size bytes) ≡ true
IsViolation k c (await_payload g n) bytes s = IsUnexpectedMessage (decode_frame c bytes)
IsViolation k c _ bytes s = ⊥

module _ (crypto : Crypto) (codec : Codec) where
  -- If a wait on the socket ends with an error that counts as a failure while a connection of a
  -- running actor is active, the connection ends, of whatever generation the waiting coroutine is:
  -- nothing is left of it, and exactly one transport failure is reported.
  pub lost_ends :
      (t : Task) (code : ErrorCode) (bytes : Bytes) (s u : Shared)
      → IsLost t code
      → s.connection_active ≡ true
      → s.stopping ≡ false
      → s.published ≡ []
      → resume crypto codec t (returned (some code) bytes) s ≡ some u
      → (had_connection u ≡ false) × IsFailure transport u.published
  unfolding resume had_connection make_error
  lost_ends (await_connect g config) code bytes s u l a r q h = ground arith
  lost_ends _ code bytes s u l a r q h = ground arith

  check_hello-ends :
      (g : ℕ) (answer : Result Envelope) (bytes : Bytes) (s u : Shared)
      → decode_frame codec bytes ≡ answer
      → IsBadAnswer crypto s answer
      → s.connection_active ≡ true
      → s.stopping ≡ false
      → s.published ≡ []
      → check_hello crypto codec g answer s ≡ some u
      → (had_connection u ≡ false) × IsFailure protocol_violation u.published
  unfolding check_hello close_connection had_connection make_error decode_frame violation
  check_hello-ends g (ok (Envelope.server_hello hello)) bytes s u d k a r q h =
      let (e, rejected, breach) =
        validate_server_hello-rejects crypto k.config k.nonce hello s k.has_config k.has_nonce
          k.can_sign k.not_genuine in
      ground (arith, rejected, breach)
  check_hello-ends g _ bytes s u d k a r q h = ground arith

  -- A breach of the protocol ends the connection of a running actor: a length out of bounds, a payload
  -- that does not parse or is not expected, or an answer to the hello that breaks one of the rules of
  -- the handshake, while OpenSSL signs. Nothing is left of the connection, and exactly one failure is
  -- reported, as a protocol violation.
  pub violation_ends :
      (t : Task) (bytes : Bytes) (s u : Shared)
      → IsViolation crypto codec t bytes s
      → s.connection_active ≡ true
      → s.stopping ≡ false
      → s.published ≡ []
      → resume crypto codec t (returned none bytes) s ≡ some u
      → (had_connection u ≡ false) × IsFailure protocol_violation u.published
  unfolding resume had_connection make_error decode_frame
  violation_ends (await_hello_payload g n) bytes s u l a r q h =
      check_hello-ends g (decode_frame codec bytes) bytes s u refl l a r q h
  violation_ends (await_header g) bytes s u l a r q h = ground arith
  violation_ends _ bytes s u l a r q h = ground arith
