-- ===== src/Engine/Commits.antt =====
-- Which events ask for a text to be written (engine.cpp).
use fcitx5_scribe.Common.{
  ℕ, ◌≡◌, refl, ◌&&◌, ◌==◌, Bool, true, false, Option, none, some, String, List, [], ◌∷◌, All,
  arith, if◌then◌else◌,
}
use fcitx5_scribe.Proto.{Bytes, CommitText}
use fcitx5_scribe.Engine.Event.{Event, Effect, commit_text}
use fcitx5_scribe.Engine.State.{Engine, SessionState, context_can_commit}
use fcitx5_scribe.Engine.Session.{bytes_equal}
use fcitx5_scribe.Engine.Handlers.{handle}
use fcitx5_scribe.Engine.Effects.{IsJustified, handle-IsJustified}

-- The message continues the session, whose context may be written to.
abbrev pub accepts : Engine → CommitText → Option SessionState → Bool
accepts s m none = false
accepts s m (some x) =
    bytes_equal m.session_id x.id
    && (m.sequence_no == x.next_sequence_no && context_can_commit s x.context)

abbrev pub is_commit : Effect → Bool
is_commit (commit_text c text) = true
is_commit _ = false

abbrev pub no_commits : List Effect → Bool
no_commits [] = true
no_commits (e ∷ es) = if is_commit e then false else no_commits es

abbrev pub is_message : Event → Bool
is_message (Event.connection_commit_text m) = true
is_message _ = false

without_commits :
    (P : Effect → Type 0)
    → ((c : ℕ) (text : String) → ¬ P (commit_text c text))
    → (es : List Effect) → All P es
    → no_commits es ≡ true
without_commits P never [] h = refl
without_commits P never (commit_text c text ∷ es) h = absurd (never c text h.0)
without_commits P never (_ ∷ es) h = without_commits P never es h.1

unjustified :
    (s t : Engine) (e : Event)
    → is_message e ≡ false
    → (c : ℕ) (text : String) → ¬ IsJustified s e t (commit_text c text)
unjustified s t (Event.connection_commit_text m) h c text = λ _. ground arith
unjustified s t _ h c text = λ j. j

module _ (uuid_to_string : Bytes → String) where
  pub accepted_commits :
      (m : CommitText) (s : Engine) (x : SessionState)
      → s.session ≡ some x
      → accepts s m (some x) ≡ true
      → (handle uuid_to_string (Event.connection_commit_text m) s).1
        ≡ commit_text x.context m.text ∷ []
  unfolding handle context_can_commit
  accepted_commits m s x e h = ground arith

  pub refused_commits :
      (m : CommitText) (s : Engine)
      → accepts s m s.session ≡ false
      → no_commits (handle uuid_to_string (Event.connection_commit_text m) s).1 ≡ true
  unfolding handle context_can_commit
  refused_commits m s h = ground arith

  -- Only a commit message has a text written.
  pub other_commits :
      (e : Event) (s : Engine)
      → is_message e ≡ false
      → no_commits (handle uuid_to_string e s).1 ≡ true
  other_commits e s h =
      without_commits (IsJustified s e (handle uuid_to_string e s).0) (unjustified s _ e h)
        (handle uuid_to_string e s).1 (handle-IsJustified uuid_to_string e s)
