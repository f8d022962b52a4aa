-- ===== src/Io/Orderly/Turns.antt =====
-- In each situation, a coroutine that resumes in turn leaves a situation.
use mathlib.Core.Path.{subst}
use fcitx5_scribe.Common.{
  ◌≡◌, inl, inr, refl, sym, ap, ◌∙◌, true, false, Option, none, some, List, [], ◌∷◌, ◌++◌, All,
  arith, has_value,
}
use fcitx5_scribe.Error.{ConnectionConfig}
use fcitx5_scribe.Protocol.{Crypto, Codec}
use fcitx5_scribe.Io.State.{Shared, Task, await_command, start_connection, Wakeup}
use fcitx5_scribe.Io.Tasks.{resume}
use fcitx5_scribe.Io.Orderly.{
  others, IsCurrent, IsStale, Fits, InTurn, talk, IsReader, IsWriter, IsDown, IsStarting, IsOpening,
  Serves, IsUp, Situation, down, starting, opening, up,
}
use fcitx5_scribe.Io.Orderly.Picking.{Pick, picks, Picked, Picked-one, Picked-two, All-Picked}
use fcitx5_scribe.Io.Orderly.Steps.{Proceeds, no_connection}
use fcitx5_scribe.Io.Orderly.Down.{stale_resumes, command_at_rest}
use fcitx5_scribe.Io.Orderly.Opening.{
  starting_state, opening_state, connection_begins, handshake_resumes, command_while_opening,
}
use fcitx5_scribe.Io.Orderly.Up.{up_state, WriterPart, reader_resumes, writer_resumes}
use fcitx5_scribe.Io.Orderly.Sending.{command_while_up}

has_value-some {ℓ} : {A : Type ℓ} (o : Option A) → has_value o ≡ true → (a : A) × (o ≡ some a)
has_value-some none h = cc
has_value-some (some a) h = (a, refl)

running_literal :
    (s : Shared) (config : ConnectionConfig)
    → s.writer_running ≡ true
    → up_state config s.writer_running s.outgoing_frames s ≡ s
    → up_state config true s.outgoing_frames s ≡ s
running_literal s config run e = ap (λ b. up_state config b s.outgoing_frames s) (sym run) ∙ e

Serves-same :
    (s : Shared) (config : ConnectionConfig) (r : Task) (ts ws : List Task)
    → others s.tasks ≡ others ts
    → Serves (record s { tasks = ts }) r ws
    → Serves (up_state config s.writer_running s.outgoing_frames s) r ws
Serves-same s config r ts [] same (run, fr, o) = (run, fr, same ∙ o)
Serves-same s config r ts (w ∷ []) same (run, wr, inl o) = (run, wr, inl (same ∙ o))
Serves-same s config r ts (w ∷ []) same (run, wr, inr o) = (run, wr, inr (same ∙ o))
Serves-same s config r ts (w ∷ v ∷ ws) same x = absurd x

module _ (crypto : Crypto) (codec : Codec) where
  -- The worker is taken.
  as_worker :
      (t : Task) (w : Wakeup) (s x : Shared)
      → x ≡ s
      → t ≡ await_command
      → Fits t w
      → InTurn t w s
      → (Fits await_command w
          → All (IsCurrent s.active_generation) (others s.tasks)
          → Proceeds (resume crypto codec await_command w x))
      → Proceeds (resume crypto codec t w s)
  as_worker t w s x l e f o k =
      subst (λ y. Proceeds (resume crypto codec t w y)) l
        (subst (λ y. Fits y w → InTurn y w s → Proceeds (resume crypto codec y w x)) (sym e) k f o)

  -- The state without the coroutine `t`, of which the others were `ts`.
  down_step :
      (t : Task) (w : Wakeup) (s : Shared) (ts : List Task)
      → s.stopping ≡ false
      → talk (some false) s.published ≡ some s.connected
      → IsDown (record s { tasks = ts })
      → Pick t (others ts) (others s.tasks)
      → Fits t w
      → InTurn t w s
      → Proceeds (resume crypto codec t w s)
  down_step t w s ts r k (a, c, o, wr, f, st) p fits turn =
      let literal : no_connection s ≡ s = ground arith in
      let quiet : talk (some false) s.published ≡ some false = k ∙ ap some c in
      elim p [
        | inl (e, same) ↦
            as_worker t w s (no_connection s) literal e fits turn
              (λ fits current. command_at_rest crypto codec s quiet w fits current (rw same st))
        | inr (worker, picked) ↦
            let (one, rest) =
              All-Picked (IsStale s.active_generation) t (others ts) (others s.tasks) picked st in
            subst (λ x. Proceeds (resume crypto codec t w x)) literal
              (stale_resumes crypto codec s quiet t w fits
                (subst (λ x. InTurn t w x) (sym literal) turn) one rest)
      ]

  starting_step :
      (t : Task) (w : Wakeup) (s : Shared) (ts : List Task)
      → s.stopping ≡ false
      → talk (some false) s.published ≡ some s.connected
      → IsStarting (record s { tasks = ts })
      → Pick t (others ts) (others s.tasks)
      → Fits t w
      → InTurn t w s
      → Proceeds (resume crypto codec t w s)
  starting_step t w s ts r k (a, c, wr, f, g, config, one) p fits turn =
      let literal : starting_state s ≡ s = ground arith in
      let quiet : talk (some false) s.published ≡ some false = k ∙ ap some c in
      elim p [
        | inl (e, same) ↦
            as_worker t w s s refl e fits turn
              (λ fits current. absurd (ground (arith, (rw (same, one) at current).0)))
        | inr (worker, picked) ↦
            let (e, alone) =
              Picked-one t (start_connection g config) (others s.tasks) (rw one at picked) in
            subst (λ x. Proceeds (resume crypto codec t w x)) literal
              (subst (λ y. Fits y w → Proceeds (resume crypto codec y w (starting_state s))) (sym e)
                (λ f. connection_begins crypto codec s quiet alone g config w f) fits)
      ]

  opening_step :
      (t : Task) (w : Wakeup) (s : Shared) (ts : List Task)
      → s.stopping ≡ false
      → talk (some false) s.published ≡ some s.connected
      → IsOpening (record s { tasks = ts })
      → Pick t (others ts) (others s.tasks)
      → Fits t w
      → InTurn t w s
      → Proceeds (resume crypto codec t w s)
  opening_step t w s ts r k (a, c, o, wr, f, has, x, one, h) p fits turn =
      let (config, stored) = has_value-some s.current_config has in
      let literal : opening_state config s ≡ s = ground arith in
      let quiet : talk (some false) s.published ≡ some false = k ∙ ap some c in
      elim p [
        | inl (e, same) ↦
            as_worker t w s (opening_state config s) literal e fits turn (λ fits current.
              command_while_opening crypto codec s config x w quiet (same ∙ one) h fits)
        | inr (worker, picked) ↦
            let (e, alone) = Picked-one t x (others s.tasks) (rw one at picked) in
            subst (λ x. Proceeds (resume crypto codec t w x)) literal
              (handshake_resumes crypto codec s quiet alone config t w (rw e h) fits)
      ]

  -- The reader is taken, and these are left.
  reader_step :
      (t r : Task) (w : Wakeup) (s : Shared) (config : ConnectionConfig) (ws : List Task)
      → up_state config s.writer_running s.outgoing_frames s ≡ s
      → talk (some false) s.published ≡ some true
      → WriterPart s.active_generation s.writer_running s.outgoing_frames ws
      → IsReader s.active_generation r
      → t ≡ r
      → others s.tasks ≡ ws
      → Fits t w
      → Proceeds (resume crypto codec t w s)
  reader_step t r w s config ws literal k part h e left fits =
      subst (λ x. Proceeds (resume crypto codec t w x)) literal
        (reader_resumes s config s.writer_running s.outgoing_frames ws part left k crypto codec t w
          (rw e h) fits)

  writer_step :
      (t x r : Task) (w : Wakeup) (s : Shared) (config : ConnectionConfig)
      → up_state config true s.outgoing_frames s ≡ s
      → talk (some false) s.published ≡ some true
      → IsWriter s.active_generation s.outgoing_frames x
      → IsReader s.active_generation r
      → t ≡ x
      → others s.tasks ≡ r ∷ []
      → Fits t w
      → Proceeds (resume crypto codec t w s)
  writer_step t x r w s config literal k wr h e left fits =
      subst (λ x. Proceeds (resume crypto codec t w x)) literal
        (writer_resumes s config r left h k crypto codec s.outgoing_frames t w (rw e wr) fits)

  -- A coroutine of the connection is taken.
  serving_step :
      (t r : Task) (w : Wakeup) (s : Shared) (ts ws : List Task) (config : ConnectionConfig)
      → up_state config s.writer_running s.outgoing_frames s ≡ s
      → talk (some false) s.published ≡ some true
      → IsReader s.active_generation r
      → Serves (record s { tasks = ts }) r ws
      → Picked t (others ts) (others s.tasks)
      → Fits t w
      → Proceeds (resume crypto codec t w s)
  serving_step t r w s ts [] config literal k h (run, fr, one) p fits =
      let (e, alone) = Picked-one t r (others s.tasks) (rw one at p) in
      reader_step t r w s config [] literal k (run, fr) h e alone fits
  serving_step t r w s ts (x ∷ []) config literal k h (run, wr, inl two) p fits =
      elim (Picked-two t r x (others s.tasks) (rw two at p)) [
        | inl (e, left) ↦ reader_step t r w s config (x ∷ []) literal k (run, wr) h e left fits
        | inr (e, left) ↦
            writer_step t x r w s config (running_literal s config run literal) k wr h e left fits
      ]
  serving_step t r w s ts (x ∷ []) config literal k h (run, wr, inr two) p fits =
      elim (Picked-two t x r (others s.tasks) (rw two at p)) [
        | inl (e, left) ↦
            writer_step t x r w s config (running_literal s config run literal) k wr h e left fits
        | inr (e, left) ↦ reader_step t r w s config (x ∷ []) literal k (run, wr) h e left fits
      ]
  serving_step t r w s ts (x ∷ y ∷ ws) config literal k h v p fits = absurd v

  up_step :
      (t : Task) (w : Wakeup) (s : Shared) (ts : List Task)
      → s.stopping ≡ false
      → talk (some false) s.published ≡ some s.connected
      → IsUp (record s { tasks = ts })
      → Pick t (others ts) (others s.tasks)
      → Fits t w
      → InTurn t w s
      → Proceeds (resume crypto codec t w s)
  up_step t w s ts r k (a, c, o, has, x, h, ws, v) p fits turn =
      let (config, stored) = has_value-some s.current_config has in
      let literal : up_state config s.writer_running s.outgoing_frames s ≡ s = ground arith in
      let heard : talk (some false) s.published ≡ some true = k ∙ ap some c in
      elim p [
        | inl (e, same) ↦
            as_worker t w s (up_state config s.writer_running s.outgoing_frames s) literal e fits
              turn
              (λ fits current.
                command_while_up crypto codec s config s.writer_running s.outgoing_frames x ws w
                  heard h (Serves-same s config x ts ws same v) fits)
        | inr (worker, picked) ↦ serving_step t x w s ts ws config literal heard h v picked fits
      ]

  -- A coroutine resumes in turn: `s` is the state without it, and `ts` were all that waited.
  pub in-Situation :
      (t : Task) (w : Wakeup) (s : Shared) (before after ts : List Task)
      → s.stopping ≡ false
      → talk (some false) s.published ≡ some s.connected
      → Situation (record s { tasks = ts })
      → ts ≡ before ++ (t ∷ after)
      → s.tasks ≡ before ++ after
      → Fits t w
      → InTurn t w s
      → Proceeds (resume crypto codec t w s)
  in-Situation t w s before after ts r k sit has lacks fits turn =
      let p =
        subst (λ xs. Pick t (others ts) (others xs)) (sym lacks) (picks before after ts t has) in
      elim sit [
        | down d ↦ down_step t w s ts r k d p fits turn
        | starting d ↦ starting_step t w s ts r k d p fits turn
        | opening d ↦ opening_step t w s ts r k d p fits turn
        | up d ↦ up_step t w s ts r k d p fits turn
      ]
