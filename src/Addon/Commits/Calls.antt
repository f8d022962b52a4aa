-- ===== src/Addon/Commits/Calls.antt =====
-- What is written into the input contexts by the calls of the addon (addon.cpp).
use mathlib.Core.List.{append-nil}
use fcitx5_scribe.Common.{ℕ, ◌≡◌, refl, sym, ap, ◌∙◌, false, some, String, List, [], ◌++◌, arith}
use fcitx5_scribe.Proto.{Bytes}
use fcitx5_scribe.Engine.Event.{Event}
use fcitx5_scribe.Engine.Commits.{is_message}
use fcitx5_scribe.Addon.State.{Addon, World, InputContext, Transport}
use fcitx5_scribe.Addon.Contexts.{ensure_context_id, allocate, erase_context}
use fcitx5_scribe.Addon.History.{Call, from_transport, perform}
use fcitx5_scribe.Addon.Preserving.{IsLocal, Preserves, call-Ends}
use fcitx5_scribe.Addon.Commits.{texts_due, dispatch-Writes}

pub local-is_message : (e : Event) → IsLocal e → is_message e ≡ false
local-is_message e h = ground arith

module _ {T : Type 0} where
  pub ensure_context_id-committed :
      (c : InputContext) (a : Addon T) → (ensure_context_id c a).1.committed ≡ a.committed
  unfolding ensure_context_id allocate
  ensure_context_id-committed c a = ground arith

  pub erase_context-committed : (c : ℕ) (a : Addon T) → (erase_context c a).committed ≡ a.committed
  unfolding erase_context
  erase_context-committed c a = ground arith

  module _ (w : World T) where
    -- What a call writes.
    abbrev pub call_texts : Call → Addon T → List (ℕ × String)
    call_texts (from_transport e) a = texts_due w e a
    call_texts _ a = []

    pub nothing_due : (e : Event) (a : Addon T) → is_message e ≡ false → texts_due w e a ≡ []
    nothing_due (Event.connection_commit_text m) a h = ground arith
    nothing_due _ a h = refl

    -- Exactly these texts are written so far.
    abbrev HasWritten : List (ℕ × String) → Addon T → Type 0
    HasWritten texts a = a.committed ≡ texts

    HasWritten-Preserves :
        (texts : List (ℕ × String)) → Preserves w (HasWritten texts) (HasWritten texts)
    HasWritten-Preserves texts = record {
      weakens = λ a q. q;
      ensures = λ c a q. ensure_context_id-committed c a ∙ q;
      erases = λ c a q. erase_context-committed c a ∙ q;
      settles = λ config logged a q. q;
      dispatches = λ e a l q.
          let (b, ended, k) = dispatch-Writes w e a in
          (
            b,
            ended,
            k
                ∙ ap (λ ts. a.committed ++ ts) (nothing_due e a (local-is_message e l))
                ∙ append-nil a.committed
                ∙ q,
          );
    }

    -- Every call returns, whatever the state and the environment, and writes no more than this into
    -- the input contexts: for a message that carries the identifier of the session and the number that
    -- is expected, its text, once, into the object of the session's context, if the engine takes the
    -- context for alive and focused and the object is alive. Keys, focus changes, other messages and
    -- new settings write nothing.
    pub call_writes :
        (uuid_to_string : Bytes → String) (transport : Transport T) (c : Call) (a : Addon T)
        → (b : Addon T) × (perform uuid_to_string transport w c a ≡ some b)
          × (b.committed ≡ a.committed ++ call_texts c a)
    unfolding perform
    call_writes u t (from_transport e) a = dispatch-Writes w e a
    call_writes u t c a =
        let (b, ended, k) =
          call-Ends w (HasWritten (a.committed ++ [])) (HasWritten (a.committed ++ []))
            (HasWritten-Preserves (a.committed ++ [])) u t c a tt (sym (append-nil a.committed)) in
        (b, ended, k)
