-- ===== src/Io/Orderly/Going.antt =====
-- Executions from one state to another in which coroutines resume and nobody calls.
use mathlib.Core.List.{append-nil}
use fcitx5_scribe.Common.{◌≡◌, refl, none, some, List, [], ◌∷◌, ◌++◌}
use fcitx5_scribe.Proto.{Bytes}
use fcitx5_scribe.Protocol.{Crypto, Codec}
use fcitx5_scribe.Io.State.{Shared, Task, Wakeup, returned}
use fcitx5_scribe.Io.Tasks.{resume}
use fcitx5_scribe.Io.System.{taken}
use fcitx5_scribe.Io.Orderly.Runs.{IsDue}

-- The coroutine is last of those that wait.
pub taken-last :
    (others : List Task) (bytes : Bytes) (s : Shared)
    → taken (others ++ []) (returned none bytes) s ≡ record s { tasks = others }
taken-last others bytes s = rw (append-nil others) refl

module _ (crypto : Crypto) (codec : Codec) where
  -- These coroutines resume, one after the other, each when its wait has ended so.
  pub data Goes : Shared → List (Task × Wakeup) → Shared → Type 0 where
    stays : {s : Shared} → Goes s [] s
    goes :
        {s v u : Shared} {ws : List (Task × Wakeup)} (before after : List Task) (t : Task)
        (w : Wakeup)
        → IsDue crypto codec t w before after s
        → resume crypto codec t w (taken (before ++ after) w s) ≡ some v
        → Goes v ws u
        → Goes s ((t, w) ∷ ws) u
