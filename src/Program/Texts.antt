-- ===== src/Program/Texts.antt =====
-- Which texts are written, of those that were heard.
use fcitx5_scribe.Common.{
  ℕ, ◌≡◌, ◌⊎◌, inl, inr, refl, Bool, true, false, Option, none, some, String, List, [], ◌∷◌, ◌++◌,
  if◌then◌else◌,
}
use mathlib.Core.List.{append-nil}
use fcitx5_scribe.Common.Map
use fcitx5_scribe.Proto.{CommitText}
use fcitx5_scribe.Engine.State.{SessionState}
use fcitx5_scribe.Engine.Commits.{accepts}
use fcitx5_scribe.Addon.State.{Addon, World}
use fcitx5_scribe.Addon.Commits.{reached, texts_in, texts_due}
use fcitx5_scribe.Io.State.{Publication, commit_text}
use fcitx5_scribe.Program.{event_of}

-- The texts, each with the object that it went to, are texts of heard messages: each of another
-- message, and in their order.
pub data Selected : List (ℕ × String) → List Publication → Type 0 where
  empty : Selected [] []
  passed :
      {ts : List (ℕ × String)} {qs : List Publication} (q : Publication)
      → Selected ts qs
      → Selected ts (qs ++ (q ∷ []))
  written :
      {ts : List (ℕ × String)} {qs : List Publication} (object : ℕ) (m : CommitText)
      → Selected ts qs
      → Selected (ts ++ ((object, m.text) ∷ [])) (qs ++ (commit_text m ∷ []))

module _ {T : Type 0} (w : World T) where
  -- No text, or one of the message.
  abbrev AtMost : String → List (ℕ × String) → Type 0
  AtMost text ts = (ts ≡ []) ⊎ ((object : ℕ) × (ts ≡ (object, text) ∷ []))

  if-AtMost :
      (b : Bool) (text : String) (ts : List (ℕ × String))
      → AtMost text ts
      → AtMost text (if b then ts else [])
  if-AtMost true text ts h = h
  if-AtMost false text ts h = inl refl

  reached-AtMost : (o : Option ℕ) (text : String) → AtMost text (reached w o text)
  reached-AtMost none text = inl refl
  reached-AtMost (some object) text =
      if-AtMost (w.live object) text ((object, text) ∷ []) (inr (object, refl))

  texts_in-AtMost :
      (o : Option SessionState) (m : CommitText) (a : Addon T) → AtMost m.text (texts_in w o m a)
  texts_in-AtMost none m a = inl refl
  texts_in-AtMost (some x) m a =
      if-AtMost (accepts a.engine m (some x)) m.text
        (reached w (Map.find x.context a.contexts_by_id) m.text)
        (reached-AtMost (Map.find x.context a.contexts_by_id) m.text)

  select_one :
      (m : CommitText) (ts due : List (ℕ × String)) (qs : List Publication)
      → AtMost m.text due
      → Selected ts qs
      → Selected (ts ++ due) (qs ++ (commit_text m ∷ []))
  select_one m ts due qs (inl e) h = rw (e, append-nil ts) (passed (commit_text m) h)
  select_one m ts due qs (inr (object, e)) h = rw e (written object m h)

  pub due-Selected :
      (q : Publication) (a : Addon T) (ts : List (ℕ × String)) (qs : List Publication)
      → Selected ts qs
      → Selected (ts ++ texts_due w (event_of q) a) (qs ++ (q ∷ []))
  due-Selected (commit_text m) a ts qs h =
      select_one m ts (texts_in w a.engine.session m a) qs (texts_in-AtMost a.engine.session m a) h
  due-Selected q a ts qs h = rw (append-nil ts) (passed q h)
