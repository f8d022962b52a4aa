-- ===== src/Addon/Dispatch.antt =====
-- `dispatch` and the `apply` overloads (addon.cpp).
use mathlib.Core.Option
use fcitx5_scribe.Common.{
  ℕ, zero, suc, Bool, true, false, Option, none, some, String, List, [], ◌∷◌, ◌++◌, if◌then◌else◌,
}
use fcitx5_scribe.Common.Map
use fcitx5_scribe.Error.{Result, ok, unexpected, ContextId}
use fcitx5_scribe.Config.{connection_config, ResolvedConnectionConfig}
use fcitx5_scribe.Engine.Event.{
  Event, Effect, info, accept_key, connect, disconnect, send_envelope, commit_text, log,
}
use fcitx5_scribe.Engine.Handlers.{handle}
use fcitx5_scribe.Addon.State.{Addon, Loop, World}
use fcitx5_scribe.Addon.Contexts.{erase_context}

module _ {T : Type 0} where
  abbrev pub enqueue : Event → Loop T → Loop T
  enqueue e l = record l { queue = l.queue ++ (e ∷ []) }

  abbrev update : (Addon T → Addon T) → Loop T → Loop T
  update f l = record l { addon = f l.addon }

  abbrev pub store_io : T → Loop T → Loop T
  store_io io l = record l { addon = record l.addon { io = io } }

  -- A failure of the transport comes back as an event.
  unfoldable pub follow_up : Result (Unit {0}) → Loop T → Loop T
  follow_up (ok _) l = l
  follow_up (unexpected e) l = enqueue (Event.connection_failed e) l

  abbrev pub log_failure : Result (Unit {0}) → Addon T → Addon T
  log_failure (ok _) a = a
  log_failure (unexpected e) a = record a { logged = a.logged ++ ((info, e.message) ∷ []) }

  module _ (w : World T) where
    unfoldable pub apply_connect : Result ResolvedConnectionConfig → Loop T → Loop T
    unfolding follow_up
    apply_connect (unexpected e) l = enqueue (Event.connection_failed e) l
    apply_connect (ok resolved) l =
        let (result, io) = w.transport.connect resolved.connection l.addon.io in
        follow_up result (store_io io l)

    unfoldable pub apply_commit : ContextId → String → Option ℕ → Loop T → Loop T
    apply_commit id text none l = l
    apply_commit id text (some object) l =
        if w.live object
        then update (λ a. record a { committed = a.committed ++ ((object, text) ∷ []) }) l
        else enqueue (Event.context_destroyed id) (update (erase_context id) l)

    unfoldable pub apply : Effect → Loop T → Loop T
    unfolding follow_up apply_connect apply_commit
    apply accept_key l = record l { accepted = true }
    apply connect l = apply_connect (connection_config w.platform l.addon.config) l
    apply disconnect l =
        let (result, io) = w.transport.disconnect l.addon.io in
        update (log_failure result) (store_io io l)
    apply (send_envelope envelope) l =
        let (result, io) = w.transport.send envelope l.addon.io in follow_up result (store_io io l)
    apply (commit_text id text) l = apply_commit id text (Map.find id l.addon.contexts_by_id) l
    apply (log level message) l =
        update (λ a. record a { logged = a.logged ++ ((level, message) ∷ []) }) l

    unfoldable pub apply_all : List Effect → Loop T → Loop T
    apply_all [] l = l
    apply_all (e ∷ es) l = apply_all es (apply e l)

    -- One round of the loop, for an event that was taken from the queue.
    unfoldable pub process : Event → Loop T → Loop T
    process e l =
        let (engine, effects) = handle w.uuid_to_string e l.addon.engine in
        apply_all effects (update (λ a. record a { engine = engine }) l)

    -- The loop, for at most so many rounds; `none` if events are left.
    unfoldable pub run_queue : ℕ → List Event → Loop T → Option (Loop T)
    run_queue fuel [] l = some l
    run_queue zero (e ∷ es) l = none
    run_queue (suc fuel) (e ∷ es) l =
        let t = process e (record l { queue = es }) in run_queue fuel t.queue t

    -- Four rounds are enough for any event.
    abbrev pub dispatch_rounds : ℕ
    dispatch_rounds = 4

    -- Whether the key was accepted, and the addon afterwards.
    unfoldable pub dispatch : Event → Addon T → Option (Bool × Addon T)
    dispatch e a =
        Option.map (λ l. (l.accepted, l.addon))
          (run_queue dispatch_rounds (e ∷ [])
            (record { addon = a; accepted = false; queue = e ∷ [] }))
