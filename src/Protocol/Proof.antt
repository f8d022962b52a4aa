-- ===== src/Protocol/Proof.antt =====
-- What the server's proof is computed over.
use mathlib.Core.Path.{subst}
use fcitx5_scribe.Common.{
  ◌≤◌, ◌≡◌, ◌↔◌, refl, sym, ap, ◌∙◌, take, drop, take-append-drop, take_of_length-append,
  drop_of_length-append, byte_size, some, String, ◌++◌, arith, length, codes, append_cancel,
}
use fcitx5_scribe.Error.{ok}
use fcitx5_scribe.Proto.{Bytes}
use fcitx5_scribe.Protocol.{
  Crypto, proof_message, compute_server_proof, int_max, server_proof_label,
}

-- The signed message determines both nonces, as long as the client's nonces are equally long: a
-- proof for one handshake is not made over the message of another.
pub proof_message_injective :
    (c c' s s' : Bytes)
    → length c ≡ length c'
    → proof_message c s ≡ proof_message c' s'
    → (c ≡ c') × (s ≡ s')
unfolding proof_message
proof_message_injective c c' s s' h e =
    let (_, nonces) =
      append_cancel (codes server_proof_label) (codes server_proof_label) {ys = c ++ s}
        {ys' = c' ++ s'} refl e in
    append_cancel c c' {ys = s} {ys' = s'} h nonces

-- What docs/protocol.md says that the server signs, by its parts: the label, the client's nonce, and
-- the server's.
pub record IsSigned (client server message : Bytes) : Type 0 where
  pub label : take 23 message ≡ codes "fcitx5-scribe/v0/server"
  pub client_part : take 32 (drop 23 message) ≡ client
  pub server_part : drop 32 (drop 23 message) ≡ server

proof_message-IsSigned :
    (client server : Bytes)
    → length client ≡ 32
    → IsSigned client server (proof_message client server)
unfolding proof_message
proof_message-IsSigned client server h = record {
  label = refl;
  client_part =
      subst (λ n. take n (client ++ server) ≡ client) h (take_of_length-append client server);
  server_part =
      subst (λ n. drop n (client ++ server) ≡ server) h (drop_of_length-append client server);
}

IsSigned-unique :
    (client server message : Bytes)
    → IsSigned client server message
    → message ≡ proof_message client server
unfolding proof_message
IsSigned-unique client server message h =
    let rest = drop 23 message in
    sym (take-append-drop 23 message)
    ∙ rw h.label (
        ap (λ xs. codes server_proof_label ++ xs)
          (sym (take-append-drop 32 rest) ∙ rw (h.client_part, h.server_part) refl))

-- For a nonce of the client of 32 bytes, a digest is the proof of a handshake exactly if the size of the
-- token in bytes is an `int`, and OpenSSL gives the digest as the HMAC, under the token, of the message
-- that consists of the label "fcitx5-scribe/v0/server", the client's nonce and the server's nonce.
pub compute_server_proof-eq-ok :
    (k : Crypto) (token : String) (client server digest : Bytes)
    → length client ≡ 32
    → (compute_server_proof k token client server ≡ ok digest) ↔ (
        (byte_size token ≤ int_max)
        × ((message : Bytes) × IsSigned client server message
            × (k.hmac_sha256 token message ≡ some digest)))
unfolding compute_server_proof
compute_server_proof-eq-ok k token client server digest h = (
  λ e. (
    ground arith,
    (proof_message client server, proof_message-IsSigned client server h, ground arith),
  ),
  λ signed.
      let (small, (message, parts, e)) = signed in
      let same = IsSigned-unique client server message parts in
      let made : k.hmac_sha256 token (proof_message client server) ≡ some digest = rw same at e in
      ground arith,
)
