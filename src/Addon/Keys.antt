-- ===== src/Addon/Keys.antt =====
-- Which keys the addon accepts (addon.cpp).
use fcitx5_scribe.Common.{
  ℕ, zero, suc, ◌≡◌, refl, ap, ◌∙◌, ◌&&◌, ◌||◌, not, Bool, true, false, Option, none, some, String,
  List, [], ◌∷◌, All, arith, if◌then◌else◌, has_value, holds,
}
use fcitx5_scribe.Error.{ContextId}
use fcitx5_scribe.Proto.{Bytes}
use fcitx5_scribe.Engine.Event.{Event, Effect, accept_key}
use fcitx5_scribe.Engine.State.{Engine}
use fcitx5_scribe.Engine.Handlers.{handle}
use fcitx5_scribe.Engine.Effects.{IsJustified, handle-IsJustified}
use fcitx5_scribe.Engine.Lifecycle.{accepts, accepts-toggle}
use fcitx5_scribe.Addon.State.{Addon, Loop, World, InputContext}
use fcitx5_scribe.Addon.Contexts.{ensure_context_id}
use fcitx5_scribe.Addon.Identity.{ensure_context_id-engine}
use fcitx5_scribe.Addon.Handlers.{KeyEvent, handle_key_event, toggle_context}
use fcitx5_scribe.Addon.Dispatch.{
  follow_up, apply_connect, apply_commit, apply, apply_all, process, run_queue, dispatch,
}
use fcitx5_scribe.Addon.FollowUps.{IsFollowUp, rounds-le}
use fcitx5_scribe.Addon.Termination.{run_queue-Ends}
use fcitx5_scribe.Addon.Commits.{follow-ups}

abbrev is_accept : Effect → Bool
is_accept accept_key = true
is_accept _ = false

without_accept :
    (P : Effect → Type 0) → ¬ P accept_key → (es : List Effect) → All P es → accepts es ≡ false
without_accept P never [] h = refl
without_accept P never (accept_key ∷ es) h = absurd (never h.0)
without_accept P never (_ ∷ es) h = without_accept P never es h.1

FollowUp-unjustified : (e : Event) (s t : Engine) → IsFollowUp e → ¬ IsJustified s e t accept_key
FollowUp-unjustified e s t f = ground arith

FollowUp-accepts :
    (uuid_to_string : Bytes → String) (e : Event) (s : Engine)
    → IsFollowUp e
    → accepts (handle uuid_to_string e s).1 ≡ false
FollowUp-accepts u e s f =
    without_accept (IsJustified s e (handle u e s).0) (FollowUp-unjustified e s _ f)
      (handle u e s).1 (handle-IsJustified u e s)

module _ {T : Type 0} (w : World T) where
  apply-accepted : (e : Effect) (l : Loop T) → (apply w e l).accepted ≡ l.accepted || is_accept e
  unfolding apply apply_connect follow_up apply_commit
  apply-accepted e l = ground arith

  apply_all-accepted :
      (es : List Effect) (l : Loop T) → (apply_all w es l).accepted ≡ l.accepted || accepts es
  unfolding apply_all
  apply_all-accepted [] l = ground arith
  apply_all-accepted (e ∷ es) l =
      ground (arith, apply_all-accepted es (apply w e l), apply-accepted e l)

  process-accepted :
      (e : Event) (l : Loop T)
      → (process w e l).accepted
        ≡ l.accepted || accepts (handle w.uuid_to_string e l.addon.engine).1
  unfolding process
  process-accepted e l = apply_all-accepted _ _

  or_false : (a b : Bool) → b ≡ false → a || b ≡ a
  or_false a b h = ground arith

  follow_ups-accepted :
      (fuel : ℕ) (queue : List Event) (l t : Loop T)
      → All IsFollowUp queue
      → run_queue w fuel queue l ≡ some t
      → t.accepted ≡ l.accepted
  unfolding run_queue
  follow_ups-accepted fuel [] l t h e = ground arith
  follow_ups-accepted zero (q ∷ qs) l t h e = ground arith
  follow_ups-accepted (suc fuel) (q ∷ qs) l t h e =
      let l' = record l { queue = qs } in
      let next = process w q l' in
      follow_ups-accepted fuel next.queue next t (follow-ups w q qs l h.1) e
      ∙ process-accepted q l'
      ∙ or_false l.accepted _ (FollowUp-accepts w.uuid_to_string q l.addon.engine h.0)

  run_queue-accepted :
      (e : Event) (a : Addon T) (t : Loop T)
      → run_queue w 4 (e ∷ []) (record { addon = a; accepted = false; queue = e ∷ [] }) ≡ some t
      → t.accepted ≡ accepts (handle w.uuid_to_string e a.engine).1
  unfolding run_queue
  run_queue-accepted e a t ended =
      let empty : Loop T = record { addon = a; accepted = false; queue = [] } in
      let next = process w e empty in
      follow_ups-accepted 3 next.queue next t (follow-ups w e [] empty tt) ended
      ∙ process-accepted e empty

  -- Whether the engine accepts a toggle in this context.
  abbrev pub engine_accepts : ContextId → Bool → Engine → Bool
  engine_accepts c focused s =
      has_value s.session
      || (holds s.pending_context c || (focused && has_value s.connection_config))

  dispatch_toggle :
      (c : ContextId) (focused : Bool) (a : Addon T)
      → (b : Addon T) × (dispatch w (Event.toggle c focused) a
          ≡ some (engine_accepts c focused a.engine, b))
  unfolding dispatch
  dispatch_toggle c focused a =
      let e = Event.toggle c focused in
      let start : Loop T = record { addon = a; accepted = false; queue = e ∷ [] } in
      let r = run_queue-Ends w 4 (e ∷ []) start (omega (arith, rounds-le e)) in
      let same : r.last.accepted ≡ engine_accepts c focused a.engine =
        run_queue-accepted e a r.last r.returns
        ∙ accepts-toggle w.uuid_to_string c focused a.engine in
      (r.last.addon, rw (r.returns, same) refl)

  -- Whether a toggle in an input context is accepted.
  abbrev pub context_accepts : Bool → Option InputContext → Addon T → Bool
  context_accepts focused none a = false
  context_accepts focused (some c) a = engine_accepts (ensure_context_id c a).0 focused a.engine

  abbrev pub key_accepts : KeyEvent → Addon T → Bool
  key_accepts k a =
      not k.is_release
      && (k.check_key_list a.config.values.toggle_transcription_key
          && context_accepts k.has_focus k.input_context a)

  Answers : Bool → Option (Bool × Addon T) → Type 0
  Answers accepted o = (b : Addon T) × (o ≡ some (accepted, b))

  toggle_context-Answers :
      (focused : Bool) (c : Option InputContext) (a : Addon T)
      → Answers (context_accepts focused c a) (toggle_context w focused c a)
  unfolding toggle_context Answers
  toggle_context-Answers focused none a = (a, refl)
  toggle_context-Answers focused (some c) a =
      let (id, b) = ensure_context_id c a in
      let (d, e) = dispatch_toggle id focused b in
      (d, e ∙ ap (λ s. some (engine_accepts id focused s, d)) (ensure_context_id-engine c a))

  if-Answers :
      (p q : Bool) (a : Addon T) (x : Option (Bool × Addon T))
      → Answers q x
      → Answers (not p && q) (if p then some (false, a) else x)
  unfolding Answers
  if-Answers true q a x h = (a, refl)
  if-Answers false q a x h = h

  unless-Answers :
      (p q : Bool) (a : Addon T) (x : Option (Bool × Addon T))
      → Answers q x
      → Answers (p && q) (if not p then some (false, a) else x)
  unfolding Answers
  unless-Answers true q a x h = h
  unless-Answers false q a x h = (a, refl)

  -- Every key event returns, and is accepted exactly if the key is pressed, is among the configured
  -- toggle keys and has an input context, and there is a session to stop, a start of the same context
  -- to withdraw, or a start to try: the context has the focus and the connection is configured.
  pub key_answered :
      (k : KeyEvent) (a : Addon T)
      → (b : Addon T) × (handle_key_event w k a ≡ some (key_accepts k a, b))
  unfolding handle_key_event Answers
  key_answered k a =
      let keys = a.config.values.toggle_transcription_key in
      let listed = k.check_key_list keys in
      let answer = context_accepts k.has_focus k.input_context a in
      if-Answers k.is_release (listed && answer) a _
        (unless-Answers listed answer a _ (toggle_context-Answers k.has_focus k.input_context a))
