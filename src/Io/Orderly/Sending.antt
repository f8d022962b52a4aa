-- ===== src/Io/Orderly/Sending.antt =====
-- Commands for an authenticated connection.
use fcitx5_scribe.Common.{
  ℕ, ◌≡◌, inl, inr, refl, ◌∙◌, Bool, true, false, none, some, List, [], ◌∷◌, ◌++◌, arith,
}
use fcitx5_scribe.Error.{ConnectionConfig}
use fcitx5_scribe.Proto.{Bytes}
use fcitx5_scribe.Protocol.{Crypto, Codec}
use fcitx5_scribe.Io.State.{
  Shared, Task, await_command, start_write, await_written, Wakeup, received, connect_command,
  disconnect_command, send_command,
}
use fcitx5_scribe.Io.Tasks.{resume}
use fcitx5_scribe.Io.Orderly.{Fits, IsReader, IsWriter, IsFront, talk, Serves, up}
use fcitx5_scribe.Io.Orderly.Picking.{others-worker_waits, others-begins}
use fcitx5_scribe.Io.Orderly.Steps.{Proceeds, Current, end-Proceeds}
use fcitx5_scribe.Io.Orderly.Up.{up_state, IsReader-IsCurrent, IsWriter-IsCurrent}

IsFront-append :
    (frame : Bytes) (frames more : List Bytes)
    → IsFront frame frames
    → IsFront frame (frames ++ more)
IsFront-append frame [] more h = absurd h
IsFront-append frame (first ∷ rest) more h = h

IsWriter-append :
    (a : ℕ) (frames more : List Bytes) (w : Task)
    → IsWriter a frames w
    → IsWriter a (frames ++ more) w
IsWriter-append a frames more (start_write g) h = h
IsWriter-append a frames more (await_written g frame) h =
    (h.0, IsFront-append frame frames more h.1)
IsWriter-append a frames more w h = absurd (ground arith)

abbrev worker_waits : Shared → Shared
worker_waits s = record s { tasks = s.tasks ++ (await_command ∷ []) }

module _ (s : Shared) (config : ConnectionConfig) (running : Bool) (frames : List Bytes) where
  Serves-Current :
      (r : Task) (ws : List Task)
      → IsReader s.active_generation r
      → Serves (up_state config running frames s) r ws
      → Current s
  Serves-Current r [] h v = rw v.2 (IsReader-IsCurrent s.active_generation r h, tt)
  Serves-Current r (w ∷ []) h (run, wr, inl o) = rw o (
    IsReader-IsCurrent s.active_generation r h,
    (IsWriter-IsCurrent s.active_generation frames w wr, tt),
  )
  Serves-Current r (w ∷ []) h (run, wr, inr o) = rw o (
    IsWriter-IsCurrent s.active_generation frames w wr,
    (IsReader-IsCurrent s.active_generation r h, tt),
  )
  Serves-Current r (w ∷ v ∷ ws) h x = absurd x

  Serves-waits :
      (r : Task) (ws : List Task)
      → Serves (up_state config running frames s) r ws
      → Serves (worker_waits (up_state config running frames s)) r ws
  Serves-waits r [] (run, fr, o) = (run, fr, others-worker_waits s.tasks ∙ o)
  Serves-waits r (w ∷ []) (run, wr, inl o) = (run, wr, inl (others-worker_waits s.tasks ∙ o))
  Serves-waits r (w ∷ []) (run, wr, inr o) = (run, wr, inr (others-worker_waits s.tasks ∙ o))
  Serves-waits r (w ∷ v ∷ ws) x = absurd x

  up_waits :
      (r : Task) (ws : List Task)
      → talk (some false) s.published ≡ some true
      → IsReader s.active_generation r
      → Serves (up_state config running frames s) r ws
      → Proceeds (some (worker_waits (up_state config running frames s)))
  up_waits r ws t h v =
      (_, refl, (refl, t, up (refl, refl, refl, refl, r, h, ws, Serves-waits r ws v)))

module _ (crypto : Crypto) (codec : Codec) (s : Shared) (config : ConnectionConfig) where
  -- The first frame starts a writer, a further one waits for it.
  frame_queued :
      (running : Bool) (frames : List Bytes) (frame : Bytes) (r : Task) (ws : List Task)
      → talk (some false) s.published ≡ some true
      → IsReader s.active_generation r
      → Serves (up_state config running frames s) r ws
      → Proceeds (
          resume crypto codec await_command
            (received (some (send_command frame)))
            (up_state config running frames s))
  unfolding resume
  frame_queued true frames frame r [] t h v = absurd (ground (arith, v.0))
  frame_queued true frames frame r (w ∷ []) t h (run, wr, o) =
      up_waits s config true (frames ++ (frame ∷ [])) r (w ∷ []) t h
        (run, IsWriter-append s.active_generation frames (frame ∷ []) w wr, o)
  frame_queued false frames frame r [] t h (run, fr, o) = (
    _,
    refl,
    (
      refl,
      t,
      up (
        refl,
        refl,
        refl,
        refl,
        r,
        h,
        start_write s.active_generation ∷ [],
        (refl, refl, inl (others-begins s.tasks (r ∷ []) (start_write s.active_generation) refl o)),
      ),
    ),
  )
  frame_queued false frames frame r (w ∷ []) t h v = absurd (ground (arith, v.0))
  frame_queued running frames frame r (w ∷ x ∷ ws) t h v = absurd v

  pub command_while_up :
      (running : Bool) (frames : List Bytes) (r : Task) (ws : List Task) (w : Wakeup)
      → talk (some false) s.published ≡ some true
      → IsReader s.active_generation r
      → Serves (up_state config running frames s) r ws
      → Fits await_command w
      → Proceeds (resume crypto codec await_command w (up_state config running frames s))
  unfolding resume
  command_while_up running frames r ws (received none) t h v f =
      up_waits s config running frames r ws t h v
  command_while_up running frames r ws (received (some (connect_command other))) t h v f =
      up_waits s config running frames r ws t h v
  command_while_up running frames r ws (received (some disconnect_command)) t h v f =
      end-Proceeds (worker_waits (up_state config running frames s)) t
        (rw (others-worker_waits s.tasks) (Serves-Current s config running frames r ws h v))
  command_while_up running frames r ws (received (some (send_command frame))) t h v f =
      frame_queued running frames frame r ws t h v
  command_while_up running frames r ws w t h v f = absurd f
