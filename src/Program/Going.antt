-- ===== src/Program/Going.antt =====
-- Executions of the program from one state to another, with the ends of its waits.
use mathlib.Core.Path.{subst}
use fcitx5_scribe.Common.{◌≡◌, List, [], ◌∷◌, ◌++◌}
use fcitx5_scribe.Io.State.{Task, Wakeup}
use fcitx5_scribe.Program.{Program, Outside, Step, ran}

module _ (o : Outside) where
  -- The wait that a step ends, and how.
  abbrev pub step_wakes : {p q : Program} → Step o p q → List (Task × Wakeup)
  step_wakes (ran before after t w d e) = (t, w) ∷ []
  step_wakes _ = []

  -- An execution from one state to another, with the ends of its waits.
  pub data Goes : Program → List (Task × Wakeup) → Program → Type 0 where
    stays : {p : Program} → Goes p [] p
    goes :
        {p v q : Program} {ws : List (Task × Wakeup)} (st : Step o p v)
        → Goes v ws q
        → Goes p (step_wakes st ++ ws) q

  -- A step in which these waits end.
  abbrev pub StepOn : List (Task × Wakeup) → Program → Program → Type 0
  StepOn ws p q = (st : Step o p q) × (step_wakes st ≡ ws)

  pub StepOn-Goes :
      {p v q : Program} {vs ws : List (Task × Wakeup)}
      → StepOn vs p v
      → Goes v ws q
      → Goes p (vs ++ ws) q
  StepOn-Goes {p} {v} {q} {vs} {ws} (st, e) k = subst (λ us. Goes p (us ++ ws) q) e (goes st k)
