-- ===== src/Addon/Link.antt =====
-- What the operations of the transport preserve, a call of the addon preserves (addon.cpp).
use mathlib.Core.Option
use mathlib.Core.Path.{subst}
use fcitx5_scribe.Common.{
  ℕ, zero, suc, ◌≡◌, refl, sym, Bool, false, Option, none, some, String, List, [], ◌∷◌, All, arith,
}
use fcitx5_scribe.Common.Map
use fcitx5_scribe.Error.{Result, ok, unexpected, ConnectionConfig}
use fcitx5_scribe.Proto.{Envelope}
use fcitx5_scribe.Config.{connection_config, ResolvedConnectionConfig}
use fcitx5_scribe.Engine.Event.{
  Event, Effect, accept_key, connect, disconnect, send_envelope, commit_text, log,
}
use fcitx5_scribe.Engine.Run.{run}
use fcitx5_scribe.Addon.State.{Addon, Loop, World, Transport}
use fcitx5_scribe.Addon.Contexts.{erase_context}
use fcitx5_scribe.Addon.Dispatch.{
  store_io, log_failure, follow_up, apply_connect, apply_commit, apply, apply_all, process,
  run_queue, dispatch,
}
use fcitx5_scribe.Addon.FollowUps.{IsFollowUp}
use fcitx5_scribe.Addon.Termination.{dispatch-ends}

-- The operations of a transport keep a property of its state.
pub record IsKept {T : Type 0} (P : T → Type 0) (transport : Transport T) : Type 0 where
  pub connects : (config : ConnectionConfig) (io : T) → P io → P (transport.connect config io).1
  pub disconnects : (io : T) → P io → P (transport.disconnect io).1
  pub sends : (e : Envelope) (io : T) → P io → P (transport.send e io).1

module _ {T : Type 0} (P : T → Type 0) (w : World T) (kept : IsKept P w.transport) where
  abbrev Holds : Loop T → Type 0
  Holds l = P l.addon.io

  follow_up-io : (r : Result (Unit {0})) (l : Loop T) → (follow_up r l).addon.io ≡ l.addon.io
  unfolding follow_up
  follow_up-io r l = ground arith

  commit-io :
      (c : ℕ) (text : String) (o : Option ℕ) (l : Loop T)
      → (apply_commit w c text o l).addon.io ≡ l.addon.io
  unfolding apply_commit erase_context
  commit-io c text o l = ground arith

  log_failure-io : (r : Result (Unit {0})) (a : Addon T) → (log_failure r a).io ≡ a.io
  log_failure-io r a = ground arith

  connect-Holds :
      (r : Result ResolvedConnectionConfig) (l : Loop T) → Holds l → Holds (apply_connect w r l)
  unfolding apply_connect
  connect-Holds (unexpected e) l h = h
  connect-Holds (ok r) l h =
      let (result, io) = w.transport.connect r.connection l.addon.io in
      subst P (sym (follow_up-io result (store_io io l))) (kept.connects r.connection l.addon.io h)

  apply-Holds : (e : Effect) (l : Loop T) → Holds l → Holds (apply w e l)
  unfolding apply
  apply-Holds accept_key l h = h
  apply-Holds connect l h = connect-Holds (connection_config w.platform l.addon.config) l h
  apply-Holds disconnect l h =
      let (result, io) = w.transport.disconnect l.addon.io in
      subst P (sym (log_failure-io result (store_io io l).addon)) (kept.disconnects l.addon.io h)
  apply-Holds (send_envelope m) l h =
      let (result, io) = w.transport.send m l.addon.io in
      subst P (sym (follow_up-io result (store_io io l))) (kept.sends m l.addon.io h)
  apply-Holds (commit_text c text) l h =
      subst P (sym (commit-io c text (Map.find c l.addon.contexts_by_id) l)) h
  apply-Holds (log level message) l h = h

  apply_all-Holds : (es : List Effect) (l : Loop T) → Holds l → Holds (apply_all w es l)
  unfolding apply_all
  apply_all-Holds [] l h = h
  apply_all-Holds (e ∷ es) l h = apply_all-Holds es (apply w e l) (apply-Holds e l h)

  run_queue-Holds :
      (fuel : ℕ) (queue : List Event) (l t : Loop T)
      → Holds l
      → run_queue w fuel queue l ≡ some t
      → Holds t
  unfolding run_queue process
  run_queue-Holds fuel [] l t h e = subst P (ground arith) h
  run_queue-Holds zero (q ∷ qs) l t h e = ground arith
  run_queue-Holds (suc fuel) (q ∷ qs) l t h e =
      let next = process w q (record l { queue = qs }) in
      run_queue-Holds fuel next.queue next t (apply_all-Holds _ _ h) e

  end_of :
      (o : Option (Loop T)) (accepted : Bool) (b : Addon T)
      → Option.map {B = Bool × Addon T} (λ l. (l.accepted, l.addon)) o ≡ some (accepted, b)
      → (last : Loop T) × (o ≡ some last) × (last.addon ≡ b)
  end_of none accepted b h = ground arith
  end_of (some last) accepted b h = (last, refl, ground arith)

  dispatch-Holds :
      (e : Event) (a b : Addon T) (accepted : Bool)
      → P a.io
      → dispatch w e a ≡ some (accepted, b)
      → P b.io
  unfolding dispatch
  dispatch-Holds e a b accepted h ended =
      let start : Loop T = record { addon = a; accepted = false; queue = e ∷ [] } in
      let (last, es, same) = end_of (run_queue w 4 (e ∷ []) start) accepted b ended in
      subst (λ x. P x.io) same (run_queue-Holds 4 (e ∷ []) start last h es)

  -- The engine handles the event and its follow-ups; what the transport keeps is kept.
  pub dispatch-Link :
      (e : Event) (a : Addon T)
      → P a.io
      → (accepted : Bool) × (b : Addon T) × (followed : List Event) × (dispatch w e a
          ≡ some (accepted, b))
        × All IsFollowUp followed
        × (b.engine ≡ (run w.uuid_to_string (e ∷ followed) a.engine).0)
        × P b.io
  dispatch-Link e a h =
      let (accepted, b, followed, ended, follow, _, engine, _, _) = dispatch-ends w e a in
      (accepted, b, followed, ended, follow, engine, dispatch-Holds e a b accepted h ended)
