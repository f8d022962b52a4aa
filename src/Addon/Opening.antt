-- ===== src/Addon/Opening.antt =====
-- What a toggle and the authentication of the connection do through the addon (addon.cpp).
use mathlib.Core.Option
use fcitx5_scribe.Common.{◌≡◌, refl, ap, Bool, true, false, none, some, String, [], ◌∷◌, ◌++◌}
use fcitx5_scribe.Error.{ok, ContextId, ConnectionConfig}
use fcitx5_scribe.Proto.{Envelope}
use fcitx5_scribe.Config.{ResolvedConnectionConfig, connection_config}
use fcitx5_scribe.Engine.Event.{Event, info}
use fcitx5_scribe.Engine.State.{SessionId, disconnected, connecting, context_can_commit}
use fcitx5_scribe.Engine.Opening.{
  opening, toggle_opens, started, authenticated_starts, started_text,
}
use fcitx5_scribe.Addon.State.{Addon, Loop, World}
use fcitx5_scribe.Addon.Dispatch.{
  dispatch, process, run_queue, apply_all, apply, apply_connect, follow_up,
}

module _ {T : Type 0} (uuid_to_string : SessionId → String) where
  -- The engine waits for the connection; the transport is in this state.
  abbrev pub with_opening : ContextId → T → Addon T → Addon T
  with_opening c io a = record a { engine = opening uuid_to_string c a.engine; io = io }

  -- The session has begun.
  abbrev pub with_started : ContextId → SessionId → T → Addon T → Addon T
  with_started c id io a = record a {
    engine = started c id a.engine;
    io = io;
    logged =
        (a.logged ++ ((info, "Transcriber connection ready") ∷ []))
        ++ ((info, started_text uuid_to_string id) ∷ []);
  }

module _ {T : Type 0} (w : World T) where
  process_toggle :
      (c : ContextId) (config : ConnectionConfig) (resolved : ResolvedConnectionConfig) (io : T)
      (l : Loop T)
      → l.addon.engine.session ≡ none
      → l.addon.engine.pending_context ≡ none
      → l.addon.engine.connection_state ≡ disconnected
      → l.addon.engine.connection_config ≡ some config
      → connection_config w.platform l.addon.config ≡ ok resolved
      → w.transport.connect resolved.connection l.addon.io ≡ (ok tt, io)
      → process w (Event.toggle c true) l
        ≡ record l { addon = with_opening w.uuid_to_string c io l.addon; accepted = true }
  unfolding process apply_all apply apply_connect follow_up
  process_toggle c config resolved io l a b d e f g =
      rw (toggle_opens w.uuid_to_string c config l.addon.engine a b d e, f, g) refl

  pub dispatch_toggle :
      (c : ContextId) (config : ConnectionConfig) (resolved : ResolvedConnectionConfig) (io : T)
      (a : Addon T)
      → a.engine.session ≡ none
      → a.engine.pending_context ≡ none
      → a.engine.connection_state ≡ disconnected
      → a.engine.connection_config ≡ some config
      → connection_config w.platform a.config ≡ ok resolved
      → w.transport.connect resolved.connection a.io ≡ (ok tt, io)
      → dispatch w (Event.toggle c true) a ≡ some (true, with_opening w.uuid_to_string c io a)
  unfolding dispatch run_queue
  dispatch_toggle c config resolved io a p q r s f g =
      let empty : Loop T = record { addon = a; accepted = false; queue = [] } in
      ap
        (λ (t : Loop T).
          Option.map {B = Bool × Addon T} (λ l. (l.accepted, l.addon)) (run_queue w 3 t.queue t))
        (process_toggle c config resolved io empty p q r s f g)

  process_authenticated :
      (c : ContextId) (id : SessionId) (io : T) (l : Loop T)
      → l.addon.engine.session ≡ none
      → l.addon.engine.pending_context ≡ some c
      → l.addon.engine.connection_state ≡ connecting
      → l.addon.engine.session_id_generator l.addon.engine.generated ≡ ok id
      → context_can_commit l.addon.engine c ≡ true
      → w.transport.send (Envelope.start_session (record { session_id = id })) l.addon.io
        ≡ (ok tt, io)
      → process w Event.connection_authenticated l
        ≡ record l { addon = with_started w.uuid_to_string c id io l.addon }
  unfolding process apply_all apply follow_up
  process_authenticated c id io l a b d e f g =
      rw (authenticated_starts w.uuid_to_string c id l.addon.engine a b d e f, g) refl

  pub dispatch_authenticated :
      (c : ContextId) (id : SessionId) (io : T) (a : Addon T)
      → a.engine.session ≡ none
      → a.engine.pending_context ≡ some c
      → a.engine.connection_state ≡ connecting
      → a.engine.session_id_generator a.engine.generated ≡ ok id
      → context_can_commit a.engine c ≡ true
      → w.transport.send (Envelope.start_session (record { session_id = id })) a.io ≡ (ok tt, io)
      → dispatch w Event.connection_authenticated a
        ≡ some (false, with_started w.uuid_to_string c id io a)
  unfolding dispatch run_queue
  dispatch_authenticated c id io a p q r s f g =
      let empty : Loop T = record { addon = a; accepted = false; queue = [] } in
      ap
        (λ (t : Loop T).
          Option.map {B = Bool × Addon T} (λ l. (l.accepted, l.addon)) (run_queue w 3 t.queue t))
        (process_authenticated c id io empty p q r s f g)
