-- ===== src/Io/Validation.antt =====
-- The handshake accepts exactly the answers that docs/protocol.md admits.
use text.Mathlib.TextEquality.{eq_iff}
use fcitx5_scribe.Common.{
  ◌≡◌, ◌↔◌, refl, true, some, [], ◌∷◌, arith, length, has_value, Bool-cases, inl, inr, ap, sym,
  ==_refl, ◌≤◌, String, byte_size, replicate,
}
use fcitx5_scribe.Error.{
  Error, Result, ok, unexpected, make_error, protocol_violation, ConnectionConfig,
}
use fcitx5_scribe.Proto.{Bytes, ServerHello}
use fcitx5_scribe.Protocol.{
  Crypto, protocol_version, nonce_size, int_max, proof_message, compute_server_proof,
}
use fcitx5_scribe.Util.{copy_exact_bytes}
use fcitx5_scribe.Io.State.{Shared}
use fcitx5_scribe.Io.Handshake.{memory_equal, proof_matches, check_expected, validate_server_hello}

memory_equal_sound : (xs ys : Bytes) → length xs ≡ length ys → memory_equal xs ys ≡ true → xs ≡ ys
unfolding memory_equal
memory_equal_sound [] [] h e = refl
memory_equal_sound [] (y ∷ ys) h e = absurd (omega arith)
memory_equal_sound (x ∷ xs) [] h e = absurd (omega arith)
memory_equal_sound (x ∷ xs) (y ∷ ys) h e = ground (arith, memory_equal_sound xs ys)

memory_equal_refl : (xs : Bytes) → memory_equal xs xs ≡ true
unfolding memory_equal
memory_equal_refl [] = refl
memory_equal_refl (x ∷ xs) = rw (==_refl x) (memory_equal_refl xs)

pub proof_matches_refl : (xs : Bytes) → proof_matches xs xs ≡ true
unfolding proof_matches
proof_matches_refl xs = rw (==_refl (length xs)) (memory_equal_refl xs)

proof_matches_sound : (xs ys : Bytes) → proof_matches xs ys ≡ true → xs ≡ ys
unfolding proof_matches
proof_matches_sound xs ys h = memory_equal_sound xs ys (ground arith) (ground arith)

check_expected-ok :
    (proof : Bytes) (r : Result Bytes) → check_expected proof r ≡ ok tt → r ≡ ok proof
unfolding check_expected
check_expected-ok proof (unexpected e) h = ground arith
check_expected-ok proof (ok expected) h = elim (Bool-cases (proof_matches proof expected)) [
  | inl e ↦ ap ok (sym (proof_matches_sound proof expected e))
  | inr e ↦ ground arith
]

-- The four rules of the protocol's documentation, for the configuration and the nonce of a handshake.
pub record IsGenuine (crypto : Crypto) (config : ConnectionConfig) (nonce : Bytes)
    (hello : ServerHello) : Type 0 where
  pub accepted : hello.accepted ≡ true
  pub version : hello.protocol_version ≡ protocol_version
  pub nonce_length : length hello.server_nonce ≡ nonce_size
  pub proof :
      compute_server_proof crypto config.auth_token nonce hello.server_nonce ≡ ok hello.proof

module _ (crypto : Crypto) (config : ConnectionConfig) (nonce : Bytes) (hello : ServerHello)
    (s : Shared) where
  genuine :
      s.current_config ≡ some config
      → s.client_nonce ≡ some nonce
      → validate_server_hello crypto hello s ≡ ok tt
      → IsGenuine crypto config nonce hello
  unfolding validate_server_hello
  genuine c n h = ground (
    arith,
    eq_iff hello.protocol_version protocol_version,
    check_expected-ok hello.proof
        (compute_server_proof crypto config.auth_token nonce hello.server_nonce),
  )

  accepted :
      s.current_config ≡ some config
      → s.client_nonce ≡ some nonce
      → IsGenuine crypto config nonce hello
      → validate_server_hello crypto hello s ≡ ok tt
  unfolding validate_server_hello
  accepted c n h =
      ground (arith, eq_iff hello.protocol_version protocol_version, proof_matches_refl hello.proof)

  -- While a configuration and a client nonce are stored, an answer is accepted exactly if it is genuine:
  -- `accepted` is set, the version is the same, the server's nonce has 32 bytes, and the proof is the
  -- HMAC over both nonces under the configured token.
  pub validate_server_hello-eq-ok :
      s.current_config ≡ some config
      → s.client_nonce ≡ some nonce
      → (validate_server_hello crypto hello s ≡ ok tt) ↔ IsGenuine crypto config nonce hello
  validate_server_hello-eq-ok c n = (genuine c n, accepted c n)

-- OpenSSL signs under this token.
pub record CanSign (crypto : Crypto) (token : String) : Type 0 where
  pub small : byte_size token ≤ int_max
  pub signs :
      (message : Bytes) → (digest : Bytes) × (crypto.hmac_sha256 token message ≡ some digest)

module _ (crypto : Crypto) (config : ConnectionConfig) (nonce : Bytes) (hello : ServerHello)
    (s : Shared) where
  violation-kind :
      (e : Error)
      → s.current_config ≡ some config
      → s.client_nonce ≡ some nonce
      → CanSign crypto config.auth_token
      → validate_server_hello crypto hello s ≡ unexpected e
      → e.kind ≡ protocol_violation
  unfolding validate_server_hello compute_server_proof check_expected make_error
  violation-kind e c n k h =
      let message = proof_message nonce (copy_exact_bytes hello.server_nonce (replicate 32 0)).1 in
      ground (arith, k.small, (k.signs message).1)

  -- While a configuration and a client nonce are stored and OpenSSL signs, an answer that is not genuine
  -- is a breach of the protocol.
  pub validate_server_hello-rejects :
      s.current_config ≡ some config
      → s.client_nonce ≡ some nonce
      → CanSign crypto config.auth_token
      → ¬ IsGenuine crypto config nonce hello
      → (e : Error) × (validate_server_hello crypto hello s ≡ unexpected e)
        × (e.kind ≡ protocol_violation)
  validate_server_hello-rejects c n k forged = outcome (validate_server_hello crypto hello s) refl
    where
      outcome :
          (r : Result (Unit {0}))
          → validate_server_hello crypto hello s ≡ r
          → (e : Error) × (validate_server_hello crypto hello s ≡ unexpected e)
            × (e.kind ≡ protocol_violation)
      outcome (ok tt) h =
          absurd (forged ((validate_server_hello-eq-ok crypto config nonce hello s c n).0 h))
      outcome (unexpected e) h = (e, h, violation-kind e c n k h)

-- An answer is accepted only while a configuration is stored.
pub validated-config :
    (crypto : Crypto) (hello : ServerHello) (s : Shared) (r : Unit {0})
    → validate_server_hello crypto hello s ≡ ok r
    → has_value s.current_config ≡ true
unfolding validate_server_hello
validated-config crypto hello s r h = ground arith
