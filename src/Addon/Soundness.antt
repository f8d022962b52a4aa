-- ===== src/Addon/Soundness.antt =====
-- What holds after any sequence of calls of the addon.
use mathlib.Core.Option
use fcitx5_scribe.Common.{
  ℕ, suc, ◌+◌, ◌≤◌, ◌<◌, ◌^◌, ◌≡◌, ◌∙◌, refl, Bool, Option, some, String, List, [], ◌∷◌, ◌++◌,
  arith, length,
}
use fcitx5_scribe.Common.Map
use fcitx5_scribe.Error.{Result}
use fcitx5_scribe.Config.{Config}
use fcitx5_scribe.Engine.Event.{Event, LogLevel}
use fcitx5_scribe.Engine.State.{SessionId, init}
use fcitx5_scribe.Engine.Run.{run, extend_run}
use fcitx5_scribe.Engine.Consistency.{IsConsistent, run-IsConsistent}
use fcitx5_scribe.Addon.State.{Addon, World, Transport, InputContext}
use fcitx5_scribe.Addon.Contexts.{find_right, ensure_context_id, erase_context}
use fcitx5_scribe.Addon.Dispatch.{dispatch}
use fcitx5_scribe.Addon.History.{Call, from_transport, Moment, initial, world, perform, perform_all}
use fcitx5_scribe.Addon.Identity.{
  HasTable, ensure_context_id-HasTable, erase_context-HasTable, ensure_context_id-engine,
  ensure_context_id-next,
}
use fcitx5_scribe.Addon.Preserving.{Preserves, call-Ends}
use fcitx5_scribe.Addon.Termination.{dispatch-ends}

module _ {T : Type 0} (uuid_to_string : SessionId → String) (transport : Transport T)
    (generator : ℕ → Result SessionId) where
  abbrev world_at : Moment → World T
  world_at = world uuid_to_string transport

  -- What holds after at most `n` allocations of identifiers.
  pub record IsSound (n : ℕ) (a : Addon T) : Type 0 where
    pub table : HasTable a
    pub counted : a.next_context_id ≤ n
    pub events : List Event
    pub engine_runs : a.engine ≡ (run uuid_to_string events (init generator)).0

  -- The call ends, in a sound state.
  abbrev pub Succeeds : ℕ → Option (Addon T) → Type 0
  Succeeds n o = (b : Addon T) × (o ≡ some b) × IsSound n b

  abbrev Returns : ℕ → Option (Bool × Addon T) → Type 0
  Returns n o = (r : Bool) × (b : Addon T) × (o ≡ some (r, b)) × IsSound n b

  Returns→Succeeds :
      {n : ℕ} (o : Option (Bool × Addon T)) → Returns n o → Succeeds n (Option.map (λ r. r.1) o)
  Returns→Succeeds o (r, b, e, h) = (b, rw e refl, h)

  dispatch-Returns :
      (m : Moment) (n : ℕ) (e : Event) (a : Addon T)
      → IsSound n a
      → Returns n (dispatch (world_at m) e a)
  dispatch-Returns m n e a h =
      let (r, b, followed, returns, _, _, engine, next, table) = dispatch-ends (world_at m) e a in
      (
        r,
        b,
        returns,
        record {
          table = table h.table;
          counted = omega (arith, next, h.counted);
          events = h.events ++ (e ∷ followed);
          engine_runs =
              engine
              ∙ extend_run uuid_to_string h.events (e ∷ followed) (init generator) a.engine
                  h.engine_runs;
        },
      )

  dispatch-Succeeds :
      (m : Moment) (n : ℕ) (e : Event) (a : Addon T)
      → IsSound n a
      → Succeeds n (Option.map (λ r. r.1) (dispatch (world_at m) e a))
  dispatch-Succeeds m n e a h =
      Returns→Succeeds (dispatch (world_at m) e a) (dispatch-Returns m n e a h)

  ensure-IsSound :
      (n : ℕ) (c : InputContext) (a : Addon T)
      → n + 1 < 2 ^ 64
      → IsSound n a
      → IsSound (suc n) (ensure_context_id c a).1
  ensure-IsSound n c a b h = record {
    table = ensure_context_id-HasTable c a (omega (arith, b, h.counted)) h.table;
    counted = omega (arith, ensure_context_id-next c a, h.counted);
    events = h.events;
    engine_runs = ensure_context_id-engine c a ∙ h.engine_runs;
  }

  erase-IsSound : (n : ℕ) (id : ℕ) (a : Addon T) → IsSound n a → IsSound n (erase_context id a)
  unfolding erase_context
  erase-IsSound n id a h = record {
    table = erase_context-HasTable id a h.table;
    counted = ground (arith, h.counted);
    events = h.events;
    engine_runs = ground (arith, h.engine_runs);
  }

  at_most : (n k : ℕ) (a : Addon T) → n ≤ k → IsSound n a → IsSound k a
  at_most n k a le h = record {
    table = h.table;
    counted = omega (arith, h.counted);
    events = h.events;
    engine_runs = h.engine_runs;
  }

  weaken : (n : ℕ) (a : Addon T) → IsSound n a → IsSound (suc n) a
  weaken n a h = at_most n (suc n) a (omega arith) h

  -- The configuration and the log have no part in it.
  re_configured :
      (n : ℕ) (config : Config) (logged : List (LogLevel × String)) (a : Addon T)
      → IsSound n a
      → IsSound n (record a { config = config; logged = logged })
  re_configured n config logged a h = record {
    table = h.table;
    counted = h.counted;
    events = h.events;
    engine_runs = h.engine_runs;
  }

  IsSound-Preserves :
      (m : Moment) (n : ℕ) → n + 1 < 2 ^ 64 → Preserves (world_at m) (IsSound n) (IsSound (suc n))
  IsSound-Preserves m n b = record {
    weakens = λ a h. weaken n a h;
    ensures = λ c a h. ensure-IsSound n c a b h;
    erases = λ c a h. erase-IsSound (suc n) c a h;
    settles = λ config logged a h. re_configured (suc n) config logged a h;
    dispatches = λ e a l h. dispatch-Succeeds m (suc n) e a h;
  }

  perform-Succeeds :
      (m : Moment) (n : ℕ) (c : Call) (a : Addon T)
      → n + 1 < 2 ^ 64
      → IsSound n a
      → Succeeds (suc n) (perform uuid_to_string transport (world_at m) c a)
  unfolding perform
  perform-Succeeds m n (from_transport e) a b h = dispatch-Succeeds m (suc n) e a (weaken n a h)
  perform-Succeeds m n c a b h =
      call-Ends (world_at m) (IsSound n) (IsSound (suc n)) (IsSound-Preserves m n b) uuid_to_string
        transport c a tt h

  perform_all-Succeeds :
      (ms : List Moment) (n : ℕ) (a : Addon T)
      → n + length ms < 2 ^ 64
      → IsSound n a
      → Succeeds (n + length ms) (perform_all uuid_to_string transport ms a)
  unfolding perform_all Option.bind
  perform_all-Succeeds [] n a b h = (a, refl, at_most n _ a (omega arith) h)
  perform_all-Succeeds (m ∷ ms) n a b h =
      let (first, e, sound) = perform-Succeeds m n m.call a (omega (arith, b)) h in
      let (last, es, sound_last) = perform_all-Succeeds ms (suc n) first (omega (arith, b)) sound in
      (last, rw (e, es) refl, at_most _ _ last (omega arith) sound_last)

  initial-IsSound : (config : Config) (io : T) → IsSound 1 (initial generator config io)
  unfolding initial run find_right Map.find
  initial-IsSound config io = record {
    table = record {
      bimap = tt;
      unused = λ id h. refl;
      untracked = λ id h. refl;
      tracked = λ id address e. ground arith;
    };
    counted = omega arith;
    events = [];
    engine_runs = refl;
  }

  -- From a new addon, fewer than 2^64 - 1 calls, by fcitx or the transport, whatever their order and
  -- whatever the environment and the living objects are at each: every call returns, the table of
  -- contexts is a bimap of tracked objects, and the engine's fields are consistent.
  pub calls-succeed :
      (ms : List Moment) (config : Config) (io : T)
      → 1 + length ms < 2 ^ 64
      → (b : Addon T) × (perform_all uuid_to_string transport ms (initial generator config io)
          ≡ some b)
        × HasTable b
        × IsConsistent b.engine
  calls-succeed ms config io h =
      let (b, e, sound) =
        perform_all-Succeeds ms 1 (initial generator config io) h (initial-IsSound config io) in
      (
        b,
        e,
        sound.table,
        rw sound.engine_runs (run-IsConsistent uuid_to_string generator sound.events),
      )
