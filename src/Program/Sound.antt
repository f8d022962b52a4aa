-- ===== src/Program/Sound.antt =====
-- What holds of the addon with its transport, in every order of calls, callbacks and resumptions.
use mathlib.Core.Path.{subst}
use fcitx5_scribe.Common.{
  ℕ, ◌≡◌, refl, sym, ap, ◌∙◌, Bool, true, false, Option, some, List, [], ◌∷◌, ◌++◌, arith,
}
use mathlib.Core.List.{append-nil}
use fcitx5_scribe.Error.{Result}
use fcitx5_scribe.Engine.Event.{Event}
use fcitx5_scribe.Engine.State.{SessionId, init, ready}
use fcitx5_scribe.Engine.Run.{run, extend_run}
use fcitx5_scribe.Io.State.{Shared, Publication}
use fcitx5_scribe.Io.Untouched.{connect-Untouched, disconnect-Untouched, send-Untouched}
use fcitx5_scribe.Io.Orderly.{talk, IsOrderly}
use fcitx5_scribe.Io.Orderly.Runs.{connects, disconnects, sends, TurnStep-IsOrderly}
use fcitx5_scribe.Addon.State.{Addon, World, InputContext}
use fcitx5_scribe.Addon.Contexts.{ensure_context_id, allocate, erase_context}
use fcitx5_scribe.Addon.Dispatch.{dispatch}
use fcitx5_scribe.Addon.History.{Moment, world}
use fcitx5_scribe.Addon.Identity.{ensure_context_id-engine}
use fcitx5_scribe.Addon.Preserving.{Ends, after, Preserves}
use fcitx5_scribe.Addon.Link.{IsKept, dispatch-Link}
use fcitx5_scribe.Addon.Commits.{texts_due, dispatch-Returns}
use fcitx5_scribe.Addon.Commits.Calls.{
  ensure_context_id-committed, erase_context-committed, local-is_message, nothing_due,
}
use fcitx5_scribe.Program.{event_of, io_transport, Outside}
use fcitx5_scribe.Program.Ready.{MayBeReady, handled-ready, local-ready, heard-ready, talk-first}
use fcitx5_scribe.Program.Texts.{Selected, due-Selected}

ensure-io : (c : InputContext) (a : Addon Shared) → (ensure_context_id c a).1.io ≡ a.io
unfolding ensure_context_id allocate
ensure-io c a = ground arith

erase-io : (c : ℕ) (a : Addon Shared) → (erase_context c a).io ≡ a.io
unfolding erase_context
erase-io c a = ground arith

erase-engine : (c : ℕ) (a : Addon Shared) → (erase_context c a).engine ≡ a.engine
unfolding erase_context
erase-engine c a = ground arith

module _ (o : Outside) (generator : ℕ → Result SessionId) where
  -- The addon, when these publications were heard: the actor is orderly; the engine takes the
  -- connection for ready only between the callbacks of its authentication and its end; the written
  -- texts were heard; and the engine comes from its initial state by some events.
  pub record IsFit (heard ps : List Publication) (a : Addon Shared) : Type 0 where
    pub orderly : IsOrderly a.io
    pub shown : a.io.published ≡ ps
    pub ready_heard : a.engine.connection_state ≡ ready → talk (some false) heard ≡ some true
    pub selected : Selected a.committed heard
    pub events : List Event
    pub engine_runs : a.engine ≡ (run o.uuid_to_string events (init generator)).0

  IsFit-same :
      (heard ps : List Publication) (a b : Addon Shared)
      → b.io ≡ a.io
      → b.engine ≡ a.engine
      → b.committed ≡ a.committed
      → IsFit heard ps a
      → IsFit heard ps b
  IsFit-same heard ps a b io engine texts h = record {
    orderly = rw io h.orderly;
    shown = rw io h.shown;
    ready_heard = rw engine h.ready_heard;
    selected = rw texts h.selected;
    events = h.events;
    engine_runs = engine ∙ h.engine_runs;
  }

  -- The actor is in order and has published these.
  IsAt : List Publication → Shared → Type 0
  IsAt ps s = IsOrderly s × (s.published ≡ ps)

  io_transport-IsKept :
      (ps : List Publication) (room : Shared → Bool) → IsKept (IsAt ps) (io_transport o.codec room)
  unfolding IsAt
  io_transport-IsKept ps room = record {
    connects = λ config s h. (
      TurnStep-IsOrderly o.crypto o.codec h.0 (connects (room s) config),
      (connect-Untouched (room s) config s).published ∙ h.1,
    );
    disconnects = λ s h. (
      TurnStep-IsOrderly o.crypto o.codec h.0 (disconnects (room s)),
      (disconnect-Untouched (room s) s).published ∙ h.1,
    );
    sends = λ e s h. (
      TurnStep-IsOrderly o.crypto o.codec h.0 (sends (room s) e),
      (send-Untouched o.codec (room s) e s).published ∙ h.1,
    );
  }

  module _ (room : Shared → Bool) (m : Moment) where
    abbrev pub here : World Shared
    here = world o.uuid_to_string (io_transport o.codec room) m

    -- An event is dispatched: what was heard before, and what is heard now.
    dispatch-IsFit :
        (e : Event) (a : Addon Shared) (heard now ps : List Publication)
        → IsFit heard ps a
        → (MayBeReady e a.engine → talk (some false) now ≡ some true)
        → Selected (a.committed ++ texts_due here e a) now
        → Ends (IsFit now ps) (after (dispatch here e a))
    unfolding IsAt
    dispatch-IsFit e a heard now ps h may texts =
        let (r, b, es, ended, follow, engine, io) =
          dispatch-Link (IsAt ps) here (io_transport-IsKept ps room) e a (h.orderly, h.shown) in
        let (r', b', ended', k) = dispatch-Returns here e a in
        let same : b' ≡ b = ground (arith, ended, ended') in
        (
          b,
          rw ended refl,
          record {
            orderly = io.0;
            shown = io.1;
            ready_heard =
                λ q. may (handled-ready o.uuid_to_string e es a.engine b.engine follow engine q);
            selected = rw (sym same, k) texts;
            events = h.events ++ (e ∷ es);
            engine_runs =
                engine
                ∙ extend_run o.uuid_to_string h.events (e ∷ es) (init generator) a.engine
                    h.engine_runs;
          },
        )

    pub IsFit-Preserves :
        (heard ps : List Publication) → Preserves here (IsFit heard ps) (IsFit heard ps)
    IsFit-Preserves heard ps = record {
      weakens = λ a h. h;
      ensures = λ c a h.
          IsFit-same heard ps a (ensure_context_id c a).1 (ensure-io c a)
            (ensure_context_id-engine c a) (ensure_context_id-committed c a) h;
      erases = λ c a h.
          IsFit-same heard ps a (erase_context c a) (erase-io c a) (erase-engine c a)
            (erase_context-committed c a) h;
      settles = λ c logged a h.
          IsFit-same heard ps a (record a { config = c; logged = logged }) refl refl refl h;
      dispatches = λ e a l h.
          dispatch-IsFit e a heard heard ps h (λ may. h.ready_heard (local-ready e a.engine l may))
            (rw (nothing_due here e a (local-is_message e l), append-nil a.committed) h.selected);
    }

    -- A callback is heard.
    pub told-Ends :
        (q : Publication) (rest heard ps : List Publication) (a : Addon Shared)
        → IsFit heard ps a
        → a.io.published ≡ heard ++ (q ∷ rest)
        → Ends (IsFit (heard ++ (q ∷ [])) ps) (after (dispatch here (event_of q) a))
    told-Ends q rest heard ps a h next =
        let (c, e) =
          talk-first heard rest q a.io.connected
            (ap (talk (some false)) (sym next) ∙ h.orderly.0) in
        dispatch-IsFit (event_of q) a heard (heard ++ (q ∷ [])) ps h
          (heard-ready q heard c a.engine h.ready_heard e)
          (due-Selected here q a a.committed heard h.selected)

  pub ended-IsFit :
      (heard ps : List Publication) (x : Option (Addon Shared)) (b : Addon Shared)
      → Ends (IsFit heard ps) x
      → x ≡ some b
      → IsFit heard ps b
  ended-IsFit heard ps x b (c, e, h) e' =
      let same : c ≡ b = ground (arith, e, e') in subst (IsFit heard ps) same h
