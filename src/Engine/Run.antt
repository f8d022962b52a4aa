-- ===== src/Engine/Run.antt =====
-- Sequences of events through `Engine::handle`, in the order in which the addon delivers them.
use fcitx5_scribe.Common.{ℕ, ◌≡◌, refl, String, List, [], ◌∷◌, ◌++◌, arith}
use mathlib.Core.Path.{ap₂}
use fcitx5_scribe.Error.{Result}
use fcitx5_scribe.Engine.Event.{Event, Effect, log}
use fcitx5_scribe.Engine.State.{Engine, SessionId, init}
use fcitx5_scribe.Engine.Handlers.{handle}
use fcitx5_scribe.Engine.Spec
use fcitx5_scribe.Engine.Spec.{View, visible, start_view}
use fcitx5_scribe.Engine.Refinement.{Represents, handle-Represents}

module _ (uuid_to_string : SessionId → String) where
  -- The last state, and all effects in order.
  unfoldable pub run : List Event → Engine → Engine × List Effect
  run [] s = (s, [])
  run (e ∷ es) s =
      let (s1, effects) = handle uuid_to_string e s in
      let (s2, more) = run es s1 in (s2, effects ++ more)

  -- Each event with the effects that it caused.
  unfoldable pub transcript : List Event → Engine → List (Event × List Effect)
  transcript [] s = []
  transcript (e ∷ es) s =
      let (s1, effects) = handle uuid_to_string e s in (e, effects) ∷ transcript es s1

pub visible-append : (xs ys : List Effect) → visible (xs ++ ys) ≡ visible xs ++ visible ys
visible-append [] ys = refl
visible-append (log level message ∷ xs) ys = visible-append xs ys
visible-append (x ∷ xs) ys = ground (arith, visible-append xs ys)

pub init-Represents :
    (generator : ℕ → Result SessionId) → Represents generator (init generator) start_view
unfolding init start_view
init-Represents generator = ground arith

module _ (uuid_to_string : SessionId → String) (generator : ℕ → Result SessionId) where
  pub run-Represents :
      (es : List Event) (s : Engine) (v : View)
      → Represents generator s v
      → Represents generator (run uuid_to_string es s).0 (Spec.run generator es v).0
        × (visible (run uuid_to_string es s).1 ≡ (Spec.run generator es v).1)
  unfolding run Spec.run
  run-Represents [] s v h = (h, refl)
  run-Represents (e ∷ es) s v h =
      let (h1, first) = handle-Represents generator uuid_to_string e s v h in
      let (h2, others) = run-Represents es _ _ h1 in (h2, rw visible-append (ap₂ ◌++◌ first others))

  -- From the initial state, through any sequence of events, the engine stays in step with the
  -- abstract protocol and asks for exactly its effects, in its order, log lines apart.
  pub run_implements_protocol :
      (es : List Event)
      → Represents generator
          (run uuid_to_string es (init generator)).0
          (Spec.run generator es start_view).0
        × (visible (run uuid_to_string es (init generator)).1
            ≡ (Spec.run generator es start_view).1)
  run_implements_protocol es = run-Represents es _ _ (init-Represents generator)

run-append :
    (uuid_to_string : SessionId → String) (xs ys : List Event) (s : Engine)
    → (run uuid_to_string (xs ++ ys) s).0 ≡ (run uuid_to_string ys (run uuid_to_string xs s).0).0
unfolding run
run-append u [] ys s = refl
run-append u (x ∷ xs) ys s = run-append u xs ys _

pub extend_run :
    (uuid_to_string : SessionId → String) (xs ys : List Event) (s t : Engine)
    → t ≡ (run uuid_to_string xs s).0
    → (run uuid_to_string ys t).0 ≡ (run uuid_to_string (xs ++ ys) s).0
extend_run u xs ys s t e = rw (e, run-append u xs ys s) refl
