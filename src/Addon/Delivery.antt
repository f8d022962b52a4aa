-- ===== src/Addon/Delivery.antt =====
-- Commits that come in order are written, one after the other (addon.cpp).
use mathlib.Core.Option
use fcitx5_scribe.Common.{
  ℕ, ◌+◌, ◌%◌, ◌^◌, ◌≡◌, refl, ap, Bool, true, false, some, String, [], ◌∷◌, ◌++◌,
}
use fcitx5_scribe.Common.Map
use fcitx5_scribe.Proto.{CommitText}
use fcitx5_scribe.Engine.Event.{Event}
use fcitx5_scribe.Engine.State.{SessionState, context_can_commit}
use fcitx5_scribe.Engine.Delivery.{in_session, commit_one}
use fcitx5_scribe.Addon.State.{Addon, Loop, World}
use fcitx5_scribe.Addon.Dispatch.{dispatch, process, run_queue, apply_all, apply, apply_commit}

-- The next message of a session.
abbrev pub next_message : SessionState → String → CommitText
next_message x text = record { session_id = x.id; sequence_no = x.next_sequence_no; text = text }

abbrev pub message : SessionState → String → Event
message x text = Event.connection_commit_text (next_message x text)

module _ {T : Type 0} where
  -- The engine expects the next message, and the text is written.
  abbrev pub with_text : SessionState → ℕ → ℕ → String → Addon T → Addon T
  with_text x object n text a = record a {
    engine = in_session x n a.engine;
    committed = a.committed ++ ((object, text) ∷ []);
  }

  -- A session whose context may be written to, into a living object.
  pub record IsLive (w : World T) (x : SessionState) (object : ℕ) (a : Addon T) : Type 0 where
    pub in_progress : a.engine.session ≡ some x
    pub may : context_can_commit a.engine x.context ≡ true
    pub tracked : Map.find x.context a.contexts_by_id ≡ some object
    pub alive : w.live object ≡ true

  module _ (w : World T) where
    process_message :
        (x : SessionState) (object : ℕ) (text : String) (l : Loop T)
        → IsLive w x object l.addon
        → process w (message x text) l
          ≡ record l { addon = with_text x object ((x.next_sequence_no + 1) % 2 ^ 64) text l.addon }
    unfolding process apply_all apply apply_commit
    process_message x object text l h =
        rw
          (
            commit_one w.uuid_to_string x text l.addon.engine h.in_progress h.may,
            h.tracked,
            h.alive,
          )
          refl

    run_message :
        (x : SessionState) (object : ℕ) (text : String) (l : Loop T)
        → IsLive w x object l.addon
        → run_queue w 4 (message x text ∷ []) l
          ≡ some (record l {
            addon = with_text x object ((x.next_sequence_no + 1) % 2 ^ 64) text l.addon;
            queue = [];
          })
    unfolding run_queue
    run_message x object text l h =
        ap (λ t. run_queue w 3 t.queue t)
          (process_message x object text (record l { queue = [] }) h)

    pub dispatch_message :
        (x : SessionState) (object : ℕ) (text : String) (a : Addon T)
        → IsLive w x object a
        → dispatch w (message x text) a
          ≡ some (false, with_text x object ((x.next_sequence_no + 1) % 2 ^ 64) text a)
    unfolding dispatch
    dispatch_message x object text a h =
        ap (Option.map {B = Bool × Addon T} (λ l. (l.accepted, l.addon))) (
          run_message x object text
            (record { addon = a; accepted = false; queue = message x text ∷ [] }) h)

    -- The next message finds the session live.
    pub next-IsLive :
        (x : SessionState) (object n : ℕ) (text : String) (a : Addon T)
        → IsLive w x object a
        → IsLive w (record x { next_sequence_no = n }) object (with_text x object n text a)
    unfolding context_can_commit
    next-IsLive x object n text a h = record {
      in_progress = refl;
      may = h.may;
      tracked = h.tracked;
      alive = h.alive;
    }
