-- ===== src/Io/Link/Places.antt =====
-- In an orderly state each coroutine finds the connection where it expects it.
use fcitx5_scribe.Common.{
  ℕ, ◌≡◌, inl, inr, refl, Bool, true, false, none, some, List, [], ◌∷◌, ◌++◌, All, All-mono, arith,
}
use fcitx5_scribe.Proto.{Bytes}
use fcitx5_scribe.Io.State.{
  Shared, Task, await_command, start_connection, await_connect, await_hello_written,
  await_hello_header, await_hello_payload, await_payload, await_written, Wakeup, returned,
}
use fcitx5_scribe.Io.System.{taken}
use fcitx5_scribe.Io.Orderly.{
  others, generation_of, IsStale, InTurn, IsHandshake, IsReader, IsWriter, Serves, Situation, down,
  starting, opening, up,
}
use fcitx5_scribe.Io.Orderly.Picking.{All-Picked, others-Picked}
use fcitx5_scribe.Io.Link.Moves.{Agrees, Stands}

-- A coroutine that reads or writes for the current generation finds the connection up.
abbrev Place : ℕ → Bool → Bool → Task → Type 0
Place a connected active await_command = Unit
Place a connected active (start_connection g config) = (connected ≡ false) × (active ≡ true)
Place a connected active (await_connect g config) = connected ≡ false
Place a connected active (await_hello_written g) = connected ≡ false
Place a connected active (await_hello_header g) = connected ≡ false
Place a connected active (await_hello_payload g n) = connected ≡ false
Place a connected active t = (connected ≡ active) × (generation_of t ≡ some a → connected ≡ true)

IsStale-Place : (a : ℕ) (t : Task) → IsStale a t → Place a false false t
IsStale-Place a t (g, e, ne) = ground arith

IsHandshake-Place : (a : ℕ) (t : Task) → IsHandshake a t → Place a false true t
IsHandshake-Place a t h = ground arith

IsReader-Place : (a : ℕ) (t : Task) → IsReader a t → Place a true true t
IsReader-Place a t h = ground arith

IsWriter-Place :
    (a : ℕ) (frames : List Bytes) (t : Task) → IsWriter a frames t → Place a true true t
IsWriter-Place a frames t h = ground arith

Serves-Places :
    (s : Shared) (r : Task) (ws : List Task)
    → IsReader s.active_generation r
    → Serves s r ws
    → All (Place s.active_generation true true) (others s.tasks)
Serves-Places s r [] h (_, _, o) = rw o (IsReader-Place _ r h, tt)
Serves-Places s r (w ∷ []) h (_, wr, inl o) =
    rw o (IsReader-Place _ r h, (IsWriter-Place _ s.outgoing_frames w wr, tt))
Serves-Places s r (w ∷ []) h (_, wr, inr o) =
    rw o (IsWriter-Place _ s.outgoing_frames w wr, (IsReader-Place _ r h, tt))
Serves-Places s r (w ∷ x ∷ ws) h v = absurd v

pub Situation-Agrees : (s : Shared) → Situation s → Agrees s
Situation-Agrees s (down (a, c, o, w, f, st)) = ground arith
Situation-Agrees s (starting (a, c, w, f, g, config, one)) = ground arith
Situation-Agrees s (opening (a, c, o, w, f, has, t, one, h)) = ground arith
Situation-Agrees s (up (a, c, o, has, r, h, ws, v)) = ground arith

-- All coroutines are in their places.
Situation-Places :
    (s : Shared)
    → Situation s
    → All (Place s.active_generation s.connected s.connection_active) (others s.tasks)
Situation-Places s (down (a, c, o, w, f, st)) =
    rw (a, c) (All-mono (IsStale-Place s.active_generation) (others s.tasks) st)
Situation-Places s (starting (a, c, w, f, g, config, one)) = rw one ((c, a), tt)
Situation-Places s (opening (a, c, o, w, f, has, t, one, h)) =
    rw (a, c, one) (IsHandshake-Place s.active_generation t h, tt)
Situation-Places s (up (a, c, o, has, r, h, ws, v)) = rw (a, c) (Serves-Places s r ws h v)

Place-Stands :
    (t : Task) (w : Wakeup) (s : Shared) (a : ℕ) (connected active : Bool)
    → InTurn t w s
    → s.active_generation ≡ a
    → Place a connected active t
    → Stands t w connected active
Place-Stands await_command w s a connected active turn e p = tt
Place-Stands (await_payload g n) (returned none bytes) s a connected active turn e p = ground arith
Place-Stands (await_written g frame) (returned none bytes) s a connected active turn e p =
    ground arith
Place-Stands t w s a connected active turn e p = ground arith

taken-generation :
    (rest : List Task) (w : Wakeup) (s : Shared)
    → (taken rest w s).active_generation ≡ s.active_generation
taken-generation rest w s = ground arith

pub due-Stands :
    (s : Shared) (before after : List Task) (t : Task) (w : Wakeup)
    → Situation s
    → s.tasks ≡ before ++ (t ∷ after)
    → InTurn t w (taken (before ++ after) w s)
    → Stands t w s.connected s.connection_active
due-Stands s before after await_command w sit e turn = tt
due-Stands s before after t w sit e turn =
    let placed =
      All-Picked (Place s.active_generation s.connected s.connection_active) t
        (others (before ++ (t ∷ after))) (others (before ++ after))
        (others-Picked before after t refl) (rw e at (Situation-Places s sit)) in
    Place-Stands t w (taken (before ++ after) w s) s.active_generation s.connected
      s.connection_active turn (taken-generation (before ++ after) w s) placed.0
