-- ===== src/Addon/Commits.antt =====
-- What is written into the input contexts for one event (addon.cpp).
pub mod Calls
use mathlib.Core.Option
use mathlib.Core.Path.{subst}
use mathlib.Core.List.{append-nil}
use fcitx5_scribe.Common.{
  ℕ, zero, suc, ◌≡◌, ◌⊎◌, inl, inr, refl, sym, ap, ◌∙◌, ◌&&◌, ◌==◌, Bool, true, false, Option, none,
  some, String, List, [], ◌∷◌, ◌++◌, All, All-append, arith, if◌then◌else◌, Bool-cases,
  Option-cases,
}
use fcitx5_scribe.Common.Map
use fcitx5_scribe.Error.{Result, ok, unexpected}
use fcitx5_scribe.Proto.{Bytes, CommitText}
use fcitx5_scribe.Config.{connection_config, ResolvedConnectionConfig}
use fcitx5_scribe.Engine.Event.{
  Event, Effect, accept_key, connect, disconnect, send_envelope, commit_text, log,
}
use fcitx5_scribe.Engine.State.{Engine, SessionState, context_can_commit}
use fcitx5_scribe.Engine.Commits.{
  accepts, is_commit, no_commits, is_message, accepted_commits, refused_commits, other_commits,
}
use fcitx5_scribe.Engine.Handlers.{handle}
use fcitx5_scribe.Engine.Effects.{IsJustified, handle-IsJustified}
use fcitx5_scribe.Addon.State.{Addon, Loop, World, InputContext}
use fcitx5_scribe.Addon.Contexts.{ensure_context_id, allocate, find_context_id, erase_context}
use fcitx5_scribe.Addon.Handlers.{
  KeyEvent, handle_key_event, toggle_context, destroy, reload_with, reload_resolved_config,
}
use fcitx5_scribe.Addon.Dispatch.{
  enqueue, store_io, log_failure, follow_up, apply_connect, apply_commit, apply, apply_all, process,
  run_queue, dispatch,
}
use fcitx5_scribe.Addon.History.{Call, from_transport}
use fcitx5_scribe.Addon.Termination.{run_queue-Ends}
use fcitx5_scribe.Addon.FollowUps.{rounds-le, IsFollowUp, process-Adds}

follow_up-message : (e : Event) → IsFollowUp e → is_message e ≡ false
follow_up-message e h = ground arith

module _ {T : Type 0} (w : World T) where
  -- What a tracked reference leads to, if its object is alive.
  abbrev pub reached : Option ℕ → String → List (ℕ × String)
  reached none text = []
  reached (some object) text = if w.live object then (object, text) ∷ [] else []

  abbrev pub texts_in : Option SessionState → CommitText → Addon T → List (ℕ × String)
  texts_in none m a = []
  texts_in (some x) m a =
      if accepts a.engine m (some x)
      then reached (Map.find x.context a.contexts_by_id) m.text
      else []

  -- What an event writes: the text of a message that continues the session, into the object of the
  -- session's context.
  abbrev pub texts_due : Event → Addon T → List (ℕ × String)
  texts_due (Event.connection_commit_text m) a = texts_in a.engine.session m a
  texts_due _ a = []

  apply-keeps :
      (e : Effect) (l : Loop T)
      → is_commit e ≡ false
      → (apply w e l).addon.committed ≡ l.addon.committed
  unfolding apply apply_connect follow_up
  apply-keeps e l h = ground arith

  apply_all-keeps :
      (es : List Effect) (l : Loop T)
      → no_commits es ≡ true
      → (apply_all w es l).addon.committed ≡ l.addon.committed
  unfolding apply_all
  apply_all-keeps [] l h = refl
  apply_all-keeps (e ∷ es) l h =
      apply_all-keeps es (apply w e l) (ground arith) ∙ apply-keeps e l (ground arith)

  commit-reaches :
      (c : ℕ) (text : String) (o : Option ℕ) (l : Loop T)
      → (apply_commit w c text o l).addon.committed ≡ l.addon.committed ++ reached o text
  unfolding apply_commit erase_context
  commit-reaches c text o l = ground (arith, append-nil l.addon.committed)

  process-keeps :
      (e : Event) (l : Loop T)
      → no_commits (handle w.uuid_to_string e l.addon.engine).1 ≡ true
      → (process w e l).addon.committed ≡ l.addon.committed
  unfolding process
  process-keeps e l h = apply_all-keeps _ _ h

  accepted-writes :
      (m : CommitText) (l : Loop T) (x : SessionState)
      → l.addon.engine.session ≡ some x
      → accepts l.addon.engine m (some x) ≡ true
      → (process w (Event.connection_commit_text m) l).addon.committed
        ≡ l.addon.committed ++ reached (Map.find x.context l.addon.contexts_by_id) m.text
  unfolding process apply_all apply
  accepted-writes m l x e h =
      rw (accepted_commits w.uuid_to_string m l.addon.engine x e h) (commit-reaches _ _ _ _)

  -- What is queued after a round whose queue held follow-ups.
  pub follow-ups :
      (e : Event) (es : List Event) (l : Loop T)
      → All IsFollowUp es
      → All IsFollowUp (process w e (record l { queue = es })).queue
  follow-ups e es l h =
      let a = process-Adds w e (record l { queue = es }) in
      rw a.queued (All-append IsFollowUp es a.added h a.follow)

  message-writes :
      (m : CommitText) (l : Loop T) (o : Option SessionState)
      → l.addon.engine.session ≡ o
      → (process w (Event.connection_commit_text m) l).addon.committed
        ≡ l.addon.committed ++ texts_in o m l.addon
  unfolding context_can_commit
  message-writes m l none e =
      process-keeps (Event.connection_commit_text m) l
        (refused_commits w.uuid_to_string m l.addon.engine (rw e refl))
      ∙ sym (append-nil l.addon.committed)
  message-writes m l (some x) e = elim (Bool-cases (accepts l.addon.engine m (some x))) [
    | inl h ↦ rw h (accepted-writes m l x e h)
    | inr h ↦ rw h (
        process-keeps (Event.connection_commit_text m) l
          (refused_commits w.uuid_to_string m l.addon.engine (rw e h))
        ∙ sym (append-nil l.addon.committed))
  ]

  process-writes :
      (e : Event) (l : Loop T)
      → (process w e l).addon.committed ≡ l.addon.committed ++ texts_due e l.addon
  process-writes (Event.connection_commit_text m) l = message-writes m l l.addon.engine.session refl
  process-writes e l =
      process-keeps e l (other_commits w.uuid_to_string e l.addon.engine refl)
      ∙ sym (append-nil l.addon.committed)

  -- Follow-ups write nothing.
  follow_ups-keep :
      (fuel : ℕ) (queue : List Event) (l t : Loop T)
      → All IsFollowUp queue
      → run_queue w fuel queue l ≡ some t
      → t.addon.committed ≡ l.addon.committed
  unfolding run_queue
  follow_ups-keep fuel [] l t h e = ground arith
  follow_ups-keep zero (q ∷ qs) l t h e = ground arith
  follow_ups-keep (suc fuel) (q ∷ qs) l t h e =
      let next = process w q (record l { queue = qs }) in
      follow_ups-keep fuel next.queue next t (follow-ups q qs l h.1) e
      ∙ process-keeps q (record l { queue = qs })
          (other_commits w.uuid_to_string q l.addon.engine (follow_up-message q h.0))

  -- The call ends, and has written these.
  abbrev pub Writes : List (ℕ × String) → Addon T → Option (Addon T) → Type 0
  Writes texts a o = (b : Addon T) × (o ≡ some b) × (b.committed ≡ a.committed ++ texts)

  run_queue-writes :
      (e : Event) (a : Addon T) (t : Loop T)
      → run_queue w 4 (e ∷ []) (record { addon = a; accepted = false; queue = e ∷ [] }) ≡ some t
      → t.addon.committed ≡ a.committed ++ texts_due e a
  unfolding run_queue
  run_queue-writes e a t ended =
      let empty : Loop T = record { addon = a; accepted = false; queue = [] } in
      let next = process w e empty in
      follow_ups-keep 3 next.queue next t (follow-ups e [] empty tt) ended ∙ process-writes e empty

  pub dispatch-Returns :
      (e : Event) (a : Addon T)
      → (accepted : Bool) × (b : Addon T) × (dispatch w e a ≡ some (accepted, b))
        × (b.committed ≡ a.committed ++ texts_due e a)
  unfolding dispatch
  dispatch-Returns e a =
      let start : Loop T = record { addon = a; accepted = false; queue = e ∷ [] } in
      let r = run_queue-Ends w 4 (e ∷ []) start (omega (arith, rounds-le e)) in
      (r.last.accepted, r.last.addon, rw r.returns refl, run_queue-writes e a r.last r.returns)

  pub dispatch-Writes :
      (e : Event) (a : Addon T) → Writes (texts_due e a) a (Option.map (λ r. r.1) (dispatch w e a))
  dispatch-Writes e a = let (accepted, b, h, k) = dispatch-Returns e a in (b, rw h refl, k)
