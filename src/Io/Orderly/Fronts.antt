-- ===== src/Io/Orderly/Fronts.antt =====
-- In an orderly state the writer, when its wait ends, has written the oldest frame.
use fcitx5_scribe.Common.{ℕ, ◌≡◌, inl, inr, refl, true, none, List, [], ◌∷◌, ◌++◌, All, arith}
use fcitx5_scribe.Proto.{Bytes}
use fcitx5_scribe.Io.State.{Shared, Task, await_written, returned}
use fcitx5_scribe.Io.Orderly.{
  others, IsStale, InTurn, IsFront, IsHandshake, IsReader, IsWriter, Serves, Situation, down,
  starting, opening, up,
}
use fcitx5_scribe.Io.Orderly.Picking.{All-Picked, others-Picked}

-- A writer of the current connection writes the oldest frame.
abbrev CurrentFront : ℕ → List Bytes → Task → Type 0
CurrentFront a frames (await_written g frame) = g ≡ a → IsFront frame frames
CurrentFront a frames _ = Unit

IsStale-front : (a : ℕ) (frames : List Bytes) (t : Task) → IsStale a t → CurrentFront a frames t
IsStale-front a frames (await_written g frame) (g', e, ne) = λ e'. absurd (ground arith)
IsStale-front a frames _ st = tt

All-IsStale :
    (a : ℕ) (frames : List Bytes) (ts : List Task)
    → All (IsStale a) ts
    → All (CurrentFront a frames) ts
All-IsStale a frames [] h = tt
All-IsStale a frames (t ∷ ts) h = (IsStale-front a frames t h.0, All-IsStale a frames ts h.1)

IsHandshake-front :
    (a : ℕ) (frames : List Bytes) (t : Task) → IsHandshake a t → CurrentFront a frames t
IsHandshake-front a frames (await_written g frame) h = absurd h
IsHandshake-front a frames _ h = tt

IsReader-front : (a : ℕ) (frames : List Bytes) (t : Task) → IsReader a t → CurrentFront a frames t
IsReader-front a frames (await_written g frame) h = absurd h
IsReader-front a frames _ h = tt

IsWriter-front :
    (a : ℕ) (frames : List Bytes) (t : Task) → IsWriter a frames t → CurrentFront a frames t
IsWriter-front a frames (await_written g frame) (e, front) = λ _. front
IsWriter-front a frames _ h = tt

Serves-fronts :
    (s : Shared) (r : Task) (ws : List Task)
    → IsReader s.active_generation r
    → Serves s r ws
    → All (CurrentFront s.active_generation s.outgoing_frames) (others s.tasks)
Serves-fronts s r [] h (_, _, o) = rw o (IsReader-front _ _ r h, tt)
Serves-fronts s r (w ∷ []) h (_, wr, inl o) =
    rw o (IsReader-front _ _ r h, (IsWriter-front _ _ w wr, tt))
Serves-fronts s r (w ∷ []) h (_, wr, inr o) =
    rw o (IsWriter-front _ _ w wr, (IsReader-front _ _ r h, tt))
Serves-fronts s r (w ∷ x ∷ ws) h v = absurd v

pub Situation-fronts :
    (s : Shared)
    → Situation s
    → All (CurrentFront s.active_generation s.outgoing_frames) (others s.tasks)
Situation-fronts s (down (_, _, _, _, _, st)) = All-IsStale _ _ (others s.tasks) st
Situation-fronts s (starting (_, _, _, _, g, config, o)) = rw o (tt, tt)
Situation-fronts s (opening (_, _, _, _, _, _, t, o, h)) = rw o (IsHandshake-front _ _ t h, tt)
Situation-fronts s (up (_, _, _, _, r, h, ws, v)) = Serves-fronts s r ws h v

pub writes-IsFront :
    (s : Shared) (before after : List Task) (g : ℕ) (frame bytes : Bytes)
    → Situation s
    → s.tasks ≡ before ++ (await_written g frame ∷ after)
    → InTurn (await_written g frame) (returned none bytes) s
    → IsFront frame s.outgoing_frames
writes-IsFront s before after g frame bytes sit e turn =
    let fronts = (rw e at (Situation-fronts s sit)) in
    let (front, _) =
      All-Picked (CurrentFront s.active_generation s.outgoing_frames) (await_written g frame)
        (others (before ++ (await_written g frame ∷ after))) (others (before ++ after))
        (others-Picked before after (await_written g frame) refl) fronts in
    elim turn [ inl c ↦ front (ground arith) | inr wrong ↦ absurd wrong ]

pub Situation-open : (s : Shared) → Situation s → s.connected ≡ true → s.socket_open ≡ true
Situation-open s (down (_, c, _, _, _, _)) h = cc
Situation-open s (starting (_, c, _, _, _, _, _)) h = cc
Situation-open s (opening (_, c, o, _, _, _, _, _, _)) h = o
Situation-open s (up (_, _, o, _, _, _, _, _)) h = o
