-- ===== src/Io/Framing.antt =====
-- The four bytes in front of a frame.
use fcitx5_scribe.Common.{ℕ, ◌^◌, ◌≤◌, ◌<◌, ◌≡◌, ◌↔◌, false, arith}
use fcitx5_scribe.Protocol.{network_bytes}
use fcitx5_scribe.Io.Handshake.{frame_size, bad_frame_size}

-- A 32-bit length is read back from the bytes that were written for it.
pub frame_size-network_bytes : (n : ℕ) → n < 2 ^ 32 → frame_size (network_bytes n) ≡ n
unfolding frame_size network_bytes
frame_size-network_bytes n h = omega arith

-- A length passes exactly if it is from 1 to 65536.
pub bad_frame_size_iff : (n : ℕ) → (bad_frame_size n ≡ false) ↔ ((1 ≤ n) × (n ≤ 65536))
unfolding bad_frame_size
bad_frame_size_iff n = (λ h. ground arith, λ h. ground arith)
