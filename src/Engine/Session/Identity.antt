-- ===== src/Engine/Session/Identity.antt =====
-- `bytesEqual` decides whether a message is for the session.
use fcitx5_scribe.Common.{
  ◌≡◌, ◌≢◌, ◌↔◌, refl, true, Option, none, some, [], ◌∷◌, arith, length, ==_refl,
}
use fcitx5_scribe.Proto.{Bytes}
use fcitx5_scribe.Engine.State.{SessionState}
use fcitx5_scribe.Engine.Session.{equal, bytes_equal, addressed}

equal_sound : (xs ys : Bytes) → length xs ≡ length ys → equal xs ys ≡ true → xs ≡ ys
unfolding equal
equal_sound [] [] h e = refl
equal_sound [] (y ∷ ys) h e = absurd (omega arith)
equal_sound (x ∷ xs) [] h e = absurd (omega arith)
equal_sound (x ∷ xs) (y ∷ ys) h e = ground (arith, equal_sound xs ys)

equal_refl : (xs : Bytes) → equal xs xs ≡ true
unfolding equal
equal_refl [] = refl
equal_refl (x ∷ xs) = rw (==_refl x) (equal_refl xs)

pub bytes_equal_refl : (xs : Bytes) → bytes_equal xs xs ≡ true
unfolding bytes_equal
bytes_equal_refl xs = rw (==_refl (length xs)) (equal_refl xs)

-- Two byte strings compare equal exactly when they are the same: neither a prefix nor an extension
-- of the session's identifier passes.
pub bytes_equal_iff : (xs ys : Bytes) → (bytes_equal xs ys ≡ true) ↔ (xs ≡ ys)
bytes_equal_iff xs ys = (
  λ h. unfold bytes_equal in equal_sound xs ys (ground arith) (ground arith),
  λ e. rw e (bytes_equal_refl ys),
)

-- No session, or one with another identifier.
abbrev pub IsNotFor : Bytes → Option SessionState → Type 0
IsNotFor id none = Unit
IsNotFor id (some x) = id ≢ x.id

pub addressed-none : (id : Bytes) (o : Option SessionState) → IsNotFor id o → addressed id o ≡ none
addressed-none id none h = refl
addressed-none id (some x) h = ground (arith, bytes_equal_iff id x.id)
