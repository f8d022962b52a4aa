-- ===== src/Io/Link/Refinement.antt =====
-- The actor implements the link.
use mathlib.Core.Path.{subst}
use mathlib.Core.List.{append-nil}
use fcitx5_scribe.Common.{◌≡◌, refl, sym, ◌∙◌, Option, none, some, List, [], ◌∷◌, ◌++◌, arith}
use fcitx5_scribe.Proto.{Bytes}
use fcitx5_scribe.Protocol.{Crypto, Codec}
use fcitx5_scribe.Io.State.{
  Shared, Publication, authenticated, closed, failure, Task, Wakeup, received, init,
}
use fcitx5_scribe.Io.Tasks.{resume}
use fcitx5_scribe.Io.System.{taken}
use fcitx5_scribe.Io.Untouched.{
  Untouched, connect-Untouched, disconnect-Untouched, send-Untouched, stop-Untouched,
}
use fcitx5_scribe.Io.Emits.{quiet, late, resume-quiet}
use fcitx5_scribe.Io.Orderly.{Situation, IsOrderly}
use fcitx5_scribe.Io.Orderly.Frames.{written, handed, WritesFront}
use fcitx5_scribe.Io.Orderly.Runs.{
  IsDue, TurnStep, connects, disconnects, sends, stops, resumes, TurnReach, start, later,
  TurnReach-IsOrderly,
}
use fcitx5_scribe.Io.Orderly.Order.{step_handed, step_written, due-front, Situation-of}
use fcitx5_scribe.Io.Link.{
  Phase, idle, opening, serving, Move, Run, begins, moves, rests, dials, waits, given_up, fails,
  opens, works, tells, breaks, ends, phase_of,
}
use fcitx5_scribe.Io.Link.Moves.{Moves, Agrees, Stands, resume-Moves}
use fcitx5_scribe.Io.Link.Places.{Situation-Agrees, due-Stands}

Moves-Move :
    (p q : Phase) (hd wr : List Bytes) (ps : List Publication)
    → Moves p hd wr ps q
    → Move p hd wr ps q
Moves-Move idle idle hd wr [] m = rw m (rests hd)
Moves-Move idle opening hd wr [] (h, w) = rw (h, w) dials
Moves-Move opening opening hd wr [] m = rw m (waits hd)
Moves-Move opening idle hd wr [] (h, w) = rw (h, w) given_up
Moves-Move opening idle hd wr (failure e ∷ []) (h, w) = rw (h, w) (fails e)
Moves-Move opening (serving []) hd wr (authenticated ∷ []) (h, w) = rw (h, w) opens
Moves-Move (serving fs) (serving gs) hd wr [] m = works fs gs hd wr m
Moves-Move (serving fs) (serving gs) hd wr (p ∷ []) (k, same, h, w) = rw (h, w, same) (tells fs p k)
Moves-Move (serving fs) idle hd wr (failure e ∷ []) (h, w) = rw (h, w) (breaks fs e)
Moves-Move (serving fs) idle hd wr (closed ∷ []) (h, w) = rw (h, w) (ends fs)
Moves-Move p q hd wr ps m = absurd (ground arith)

-- A call leaves the link where it is.
stays : (p : Phase) → Move p [] [] [] p
stays idle = rests []
stays opening = waits []
stays (serving fs) = works fs fs [] [] (sym (append-nil fs))

phase-same : (s u : Shared) → Untouched s u → phase_of u ≡ phase_of s
phase-same s u k = rw (k.connected, k.active, k.frames) refl

taken-Agrees : (rest : List Task) (w : Wakeup) (s : Shared) → Agrees s → Agrees (taken rest w s)
taken-Agrees rest w s a = ground arith

quiet-Agrees : (s : Shared) → Agrees s → Agrees (quiet s)
quiet-Agrees s a = ground arith

late-some :
    (ps : List Publication) (o : Option Shared) (u : Shared)
    → late ps o ≡ some u
    → (v : Shared) × (o ≡ some v) × (record v { published = ps ++ v.published } ≡ u)
late-some ps none u h = ground arith
late-some ps (some v) u h = (v, refl, ground arith)

module _ (crypto : Crypto) (codec : Codec) where
  -- From `s` to `u` the link moves.
  abbrev Moved : Shared → List Bytes → List Bytes → Shared → Type 0
  Moved s hd wr u =
      (ps : List Publication) × (u.published ≡ s.published ++ ps)
      × Move (phase_of s) hd wr ps (phase_of u)

  resumed-Moved :
      (t : Task) (w : Wakeup) (s u : Shared)
      → Agrees s
      → Stands t w s.connected s.connection_active
      → WritesFront t w s.outgoing_frames
      → resume crypto codec t w s ≡ some u
      → Moved s (handed t w) (written t w) u
  resumed-Moved t w s u a st f h =
      let (v, e, same) =
        late-some s.published (resume crypto codec t w (quiet s)) u
          (sym (resume-quiet crypto codec t w s) ∙ h) in
      let m = resume-Moves crypto codec t w (quiet s) v refl (quiet-Agrees s a) st f e in
      subst (λ x. Moved s (handed t w) (written t w) x) same
        (
          v.published,
          refl,
          Moves-Move (phase_of s) (phase_of v) (handed t w) (written t w) v.published m,
        )

  due-Moved :
      (t : Task) (w : Wakeup) (before after : List Task) (s u : Shared)
      → IsDue crypto codec t w before after s
      → Situation s
      → resume crypto codec t w (taken (before ++ after) w s) ≡ some u
      → Moved s (handed t w) (written t w) u
  due-Moved t (received (some c)) before after s u d sit h =
      resumed-Moved t (received (some c)) (taken (before ++ after) (received (some c)) s) u
        (taken-Agrees (before ++ after) (received (some c)) s (Situation-Agrees s sit))
        (due-Stands s before after t (received (some c)) sit d.waits d.turn)
        (due-front crypto codec t (received (some c)) before after s d sit) h
  due-Moved t w before after s u d sit h =
      resumed-Moved t w (taken (before ++ after) w s) u
        (taken-Agrees (before ++ after) w s (Situation-Agrees s sit))
        (due-Stands s before after t w sit d.waits d.turn)
        (due-front crypto codec t w before after s d sit) h

  called-Moved : (s u : Shared) → Untouched s u → Moved s [] [] u
  called-Moved s u k =
      ([], k.published ∙ sym (append-nil s.published), rw (phase-same s u k) (stays (phase_of s)))

  step-Moved :
      {s u : Shared} (st : TurnStep crypto codec s u)
      → IsOrderly s
      → Moved s (step_handed crypto codec st) (step_written crypto codec st) u
  step-Moved {s} (connects queued config) k = called-Moved s _ (connect-Untouched queued config s)
  step-Moved {s} (disconnects queued) k = called-Moved s _ (disconnect-Untouched queued s)
  step-Moved {s} (sends queued e) k = called-Moved s _ (send-Untouched codec queued e s)
  step-Moved {s} stops k = called-Moved s _ (stop-Untouched s)
  step-Moved {s} {u} (resumes before after t w d e) k =
      due-Moved t w before after s u d (Situation-of s d.runs k) e

  -- All that the actor was handed and has written, of all connections.
  abbrev pub ever_handed : {s : Shared} → TurnReach crypto codec s → List Bytes
  ever_handed start = []
  ever_handed (later r st) = ever_handed r ++ step_handed crypto codec st

  abbrev pub ever_written : {s : Shared} → TurnReach crypto codec s → List Bytes
  ever_written start = []
  ever_written (later r st) = ever_written r ++ step_written crypto codec st

  -- In every execution in which the commands come in turn, the actor implements the link: the frames
  -- that it was handed, those that it has written, and what it has published are, each in their order,
  -- those of a run of the link, and it is in the phase that the run ends in.
  pub runs_the_link :
      {s : Shared} (r : TurnReach crypto codec s)
      → Run (ever_handed r) (ever_written r) s.published (phase_of s)
  unfolding init
  runs_the_link start = begins
  runs_the_link (later {s} {u} r st) =
      let (ps, e, m) = step-Moved st (TurnReach-IsOrderly crypto codec r) in
      rw e (moves (runs_the_link r) m)
