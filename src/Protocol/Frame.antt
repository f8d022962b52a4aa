-- ===== src/Protocol/Frame.antt =====
-- Frames: what is encoded is the payload's length and the payload, and decodes to the envelope.
use fcitx5_scribe.Io.Handshake.{frame_size}
use fcitx5_scribe.Io.Framing.{frame_size-network_bytes}
use fcitx5_scribe.Common.{refl, take, drop, ℕ, ◌+◌, ◌≤◌, ◌<◌, ◌≡◌, some, ◌++◌, arith, length}
use fcitx5_scribe.Error.{ok, unexpected, make_error, protocol_violation}
use fcitx5_scribe.Proto.{Bytes, Envelope}
use fcitx5_scribe.Protocol.{Codec, encode_frame, decode_frame, network_bytes, max_frame_size}

-- What protobuf documents of an envelope whose text fields are valid UTF-8: it serializes to as many
-- bytes as it says, and these parse to it again.
pub record IsEncodable (c : Codec) (e : Envelope) (payload : Bytes) : Type 0 where
  pub serializes : c.serialize_to_array e (c.byte_size_long e) ≡ some payload
  pub sized : length payload ≡ c.byte_size_long e
  pub parses : c.parse_from_array payload ≡ some e

take-network_bytes : (n : ℕ) (xs : Bytes) → take 4 (network_bytes n ++ xs) ≡ network_bytes n
unfolding network_bytes
take-network_bytes n xs = refl

drop-network_bytes : (n : ℕ) (xs : Bytes) → drop 4 (network_bytes n ++ xs) ≡ xs
unfolding network_bytes
drop-network_bytes n xs = refl

-- An encodable envelope of at most 64 KiB becomes a frame, from which a peer reads it back: the first
-- four bytes, taken for the length in the way that the program reads lengths, are the number of the
-- bytes that follow, and these decode to the envelope.
pub decode-encode_frame :
    (c : Codec) (e : Envelope) (payload : Bytes)
    → IsEncodable c e payload
    → c.byte_size_long e ≤ max_frame_size
    → (frame : Bytes) × (encode_frame c e ≡ ok frame)
      × (frame_size (take 4 frame) ≡ length (drop 4 frame))
      × (decode_frame c (drop 4 frame) ≡ ok e)
unfolding encode_frame decode_frame
decode-encode_frame c e payload h small =
    let n = length payload in
    (
      network_bytes n ++ payload,
      ground arith,
      rw (take-network_bytes n payload, drop-network_bytes n payload)
          (frame_size-network_bytes n (omega arith)),
      rw (drop-network_bytes n payload, decode_frame, h.parses) refl,
    )

-- If protobuf fills the arrays that it is given, a frame that is made has at most 64 KiB and four bytes,
-- and an envelope of more than 64 KiB is refused as a protocol violation.
pub encode_frame-bounded :
    (c : Codec) (e : Envelope)
    → ((n : ℕ) (bytes : Bytes) → c.serialize_to_array e n ≡ some bytes → length bytes ≡ n)
    → ((frame : Bytes) → encode_frame c e ≡ ok frame → length frame ≤ 4 + max_frame_size)
      × (max_frame_size < c.byte_size_long e
          → encode_frame c e
            ≡ unexpected (make_error protocol_violation "protobuf frame too large"))
unfolding encode_frame network_bytes
encode_frame-bounded c e sized = (λ frame h. grind arith, λ h. ground arith)
