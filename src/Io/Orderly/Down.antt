-- ===== src/Io/Orderly/Down.antt =====
-- Without a connection: the coroutines of a closed one come to their end and change nothing, and only
-- a connect command changes anything.
use fcitx5_scribe.Common.{
  ℕ, ◌+◌, ◌%◌, ◌^◌, ◌≡◌, ◌⊎◌, inl, inr, refl, sym, ◌∙◌, false, none, some, List, [], ◌∷◌, ◌++◌, All,
  arith,
}
use fcitx5_scribe.Protocol.{Crypto, Codec}
use fcitx5_scribe.Io.State.{
  Shared, Task, await_command, start_connection, await_connect, start_read, await_header,
  start_write, Wakeup, returned, threw, received, connect_command, disconnect_command, send_command,
}
use fcitx5_scribe.Io.Tasks.{resume}
use fcitx5_scribe.Io.Orderly.{
  others, IsCurrent, IsStale, IsError, Fits, InTurn, talk, down, starting,
}
use fcitx5_scribe.Io.Orderly.Picking.{others-worker_waits, others-begins}
use fcitx5_scribe.Io.Orderly.Steps.{IsGood, Proceeds, if-Proceeds, no_connection, Current}

IsStale-IsError :
    (a : ℕ) (t : Task) (w : Wakeup) → IsStale a t → IsCurrent a t ⊎ IsError w → IsError w
IsStale-IsError a t w (g, e, n) (inl c) = absurd (n (ground (arith, sym e ∙ c)))
IsStale-IsError a t w st (inr h) = h

abbrev IsLoop : Task → Type 0
IsLoop (start_read g) = Unit
IsLoop (start_write g) = Unit
IsLoop _ = ⊥

no_connection-IsGood :
    (s : Shared)
    → talk (some false) s.published ≡ some false
    → All (IsStale s.active_generation) (others s.tasks)
    → IsGood (no_connection s)
no_connection-IsGood s t st = (refl, t, down (refl, refl, refl, refl, refl, st))

at_rest :
    (s : Shared)
    → talk (some false) s.published ≡ some false
    → All (IsStale s.active_generation) (others s.tasks)
    → Proceeds (some (no_connection s))
at_rest s t st = (no_connection s, refl, no_connection-IsGood s t st)

abbrev worker_waits : Shared → Shared
worker_waits s = record s { tasks = s.tasks ++ (await_command ∷ []) }

rest_waits :
    (s : Shared)
    → talk (some false) s.published ≡ some false
    → All (IsStale s.active_generation) (others s.tasks)
    → Proceeds (some (no_connection (worker_waits s)))
rest_waits s t st = at_rest (worker_waits s) t (rw (others-worker_waits s.tasks) st)

-- With the coroutines of the connections before at their end, there are none.
no_others : (a : ℕ) (ts : List Task) → All (IsCurrent a) ts → All (IsStale a) ts → ts ≡ []
no_others a [] c st = refl
no_others a (t ∷ ts) c ((g, e, n), st) = absurd (n (ground (arith, sym e ∙ c.0)))

module _ (crypto : Crypto) (codec : Codec) where
  module _ (s : Shared) (t : talk (some false) s.published ≡ some false) where
    -- A loop that has not begun sees that there is nothing to do.
    read_ends :
        (g : ℕ) (w : Wakeup)
        → All (IsStale s.active_generation) (others s.tasks)
        → Proceeds (resume crypto codec (start_read g) w (no_connection s))
    unfolding resume
    read_ends g w st = (no_connection s, ground arith, no_connection-IsGood s t st)

    write_ends :
        (g : ℕ) (w : Wakeup)
        → All (IsStale s.active_generation) (others s.tasks)
        → Proceeds (resume crypto codec (start_write g) w (no_connection s))
    unfolding resume
    write_ends g w st = (no_connection s, ground arith, no_connection-IsGood s t st)

    -- A wait that ends with an error.
    error_ignored :
        (x : Task) (w : Wakeup)
        → Fits x w
        → IsError w
        → IsStale s.active_generation x
        → All (IsStale s.active_generation) (others s.tasks)
        → Proceeds (resume crypto codec x w (no_connection s))
    unfolding resume
    error_ignored await_command w f e x st = absurd (ground arith)
    error_ignored (start_connection g config) w f e x st = absurd (ground arith)
    error_ignored (await_header g) (returned (some code) bytes) f e x st =
        if-Proceeds code.is_eof _ _ _ (at_rest s t st) (at_rest s t st)
    error_ignored (start_read g) w f e x st = read_ends g w st
    error_ignored (start_write g) w f e x st = write_ends g w st
    error_ignored (await_connect g config) (threw reason) f e x st = at_rest s t st
    error_ignored _ (returned (some code) bytes) f e x st = at_rest s t st
    error_ignored _ w f e x st = absurd (ground arith)

    -- A coroutine of a closed connection resumes.
    pub stale_resumes :
        (x : Task) (w : Wakeup)
        → Fits x w
        → InTurn x w (no_connection s)
        → IsStale s.active_generation x
        → All (IsStale s.active_generation) (others s.tasks)
        → Proceeds (resume crypto codec x w (no_connection s))
    stale_resumes await_command w f o x st = absurd (ground arith)
    stale_resumes (start_connection g config) w f o x st = absurd (ground arith)
    stale_resumes (start_read g) w f o x st = read_ends g w st
    stale_resumes (start_write g) w f o x st = write_ends g w st
    stale_resumes y w f o x st =
        error_ignored y w f (IsStale-IsError s.active_generation y w x o) x st

    pub command_at_rest :
        (w : Wakeup)
        → Fits await_command w
        → Current s
        → All (IsStale s.active_generation) (others s.tasks)
        → Proceeds (resume crypto codec await_command w (no_connection s))
    unfolding resume
    command_at_rest (received none) f c st = rest_waits s t st
    command_at_rest (received (some (connect_command config))) f c st = (
      _,
      refl,
      (
        refl,
        t,
        starting (
          refl,
          refl,
          refl,
          refl,
          (s.generation_counter + 1) % 2 ^ 64,
          config,
          others-begins s.tasks [] (start_connection ((s.generation_counter + 1) % 2 ^ 64) config)
              refl (no_others s.active_generation (others s.tasks) c st),
        ),
      ),
    )
    command_at_rest (received (some disconnect_command)) f c st = rest_waits s t st
    command_at_rest (received (some (send_command frame))) f c st = rest_waits s t st
    command_at_rest w f c st = absurd f
