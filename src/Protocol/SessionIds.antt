-- ===== src/Protocol/SessionIds.antt =====
-- Session identifiers are random UUIDs of version 4, and nothing else of the random bytes changes.
use Prim.Native.Nat.{bit_and, bit_or}
use fcitx5_scribe.Common.{
  ℕ, zero, suc, ◌+◌, ◌*◌, ◌%◌, ◌≤◌, ◌<◌, ◌≡◌, ◌≢◌, refl, Bool, true, false, if◌then◌else◌, inl, inr,
  Nat-cases, some, arith, ◌==◌, ==_iff, length, get_elem?, set, get_or, length-set,
  get_elem?-set_self, get_elem?-set_ne, get_or-set_ne, All, All-get_or, sym, ap, ◌∙◌,
}
use fcitx5_scribe.Error.{ok}
use fcitx5_scribe.Proto.{Bytes}
use fcitx5_scribe.Protocol.{Crypto, mark_uuid, generate_session_id, session_id_size}

-- A test of the numbers `first`, `first + 1`, ..., `count` of them.
passes : (ℕ → Bool) → ℕ → ℕ → Bool
passes test first zero = true
passes test first (suc count) =
    let later = passes test (suc first) count in if test first then later else false

passes-at :
    (test : ℕ → Bool) (first count n : ℕ)
    → passes test first count ≡ true
    → first ≤ n
    → n < first + count
    → test n ≡ true
unfolding passes
passes-at test first zero n h low high = absurd (omega arith)
passes-at test first (suc count) n h low high = elim (Nat-cases first n) [
  | inl e ↦ ground (arith, e)
  | inr ne ↦ passes-at test (suc first) count n (ground arith) (omega (arith, ne)) (omega arith)
]

-- The bytes of the version and the variant, by evaluation on all 256 bytes.
marks_version : ℕ → Bool
marks_version b = bit_or (bit_and b 0x0f) 0x40 == 64 + b % 16

marks_variant : ℕ → Bool
marks_variant b = bit_or (bit_and b 0x3f) 0x80 == 128 + b % 64

version_bits : (b : ℕ) → b < 256 → bit_or (bit_and b 0x0f) 0x40 ≡ 64 + b % 16
unfolding passes marks_version
version_bits b h =
    let found = passes-at marks_version 0 256 b refl (omega arith) (omega (arith, h)) in
    (==_iff (bit_or (bit_and b 0x0f) 0x40) (64 + b % 16)).0 found

variant_bits : (b : ℕ) → b < 256 → bit_or (bit_and b 0x3f) 0x80 ≡ 128 + b % 64
unfolding passes marks_variant
variant_bits b h =
    let found = passes-at marks_variant 0 256 b refl (omega arith) (omega (arith, h)) in
    (==_iff (bit_or (bit_and b 0x3f) 0x80) (128 + b % 64)).0 found

-- Sixteen bytes that are a UUID of version 4 and of the variant of RFC 4122, and that differ from
-- the random bytes in those six bits only.
pub record IsUuidOf (random id : Bytes) : Type 0 where
  pub size : length id ≡ session_id_size
  pub version : get_elem? id 6 ≡ some (4 * 16 + get_or random 6 0 % 16)
  pub variant : get_elem? id 8 ≡ some (2 * 64 + get_or random 8 0 % 64)
  pub others : (i : ℕ) → i ≢ 6 → i ≢ 8 → get_elem? id i ≡ get_elem? random i

mark_uuid-IsUuidOf :
    (random : Bytes)
    → length random ≡ session_id_size
    → ((i : ℕ) → get_or random i 0 < 256)
    → IsUuidOf random (mark_uuid random)
unfolding mark_uuid
mark_uuid-IsUuidOf random size small =
    let v = bit_or (bit_and (get_or random 6 0) 0x0f) 0x40 in
    let versioned = set random 6 v in
    let w = bit_or (bit_and (get_or versioned 8 0) 0x3f) 0x80 in
    let longer : length versioned ≡ session_id_size = length-set random 6 v ∙ size in
    let old = get_or-set_ne random {i = 6} {j = 8} v 0 (λ e. omega arith) in
    record {
      size = length-set versioned 8 w ∙ longer;
      version =
          get_elem?-set_ne versioned w (λ e. omega arith)
          ∙ get_elem?-set_self random 6 v (omega arith)
          ∙ ap some (version_bits _ (small 6));
      variant =
          get_elem?-set_self versioned 8 w (omega arith)
          ∙ ap some (rw old (variant_bits _ (small 8)));
      others = λ i a b.
          get_elem?-set_ne versioned w (λ e. b (sym e))
          ∙ get_elem?-set_ne random v (λ e. a (sym e));
    }

-- If OpenSSL gives sixteen random bytes, a session identifier is made of them: a UUID of version 4
-- that keeps every other bit.
pub generate_session_id-IsUuidOf :
    (c : Crypto) (random : Bytes)
    → c.rand_bytes session_id_size ≡ some random
    → length random ≡ session_id_size
    → All (λ b. b < 256) random
    → (id : Bytes) × (generate_session_id c ≡ ok id) × IsUuidOf random id
unfolding generate_session_id
generate_session_id-IsUuidOf c random drawn size small = (
  mark_uuid random,
  rw (drawn, generate_session_id),
  mark_uuid-IsUuidOf random size (λ i. All-get_or (λ b. b < 256) random i 0 small (omega arith)),
)
