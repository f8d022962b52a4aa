-- ===== src/Io/Orderly/Order.antt =====
-- The order in which the frames of a connection are written, along an orderly execution.
use mathlib.Core.List.{append-nil, append_assoc}
use fcitx5_scribe.Common.{
  ◌≡◌, inl, inr, refl, sym, ap, ◌∙◌, Bool, true, false, none, some, List, [], ◌++◌, arith,
  Bool-cases,
}
use fcitx5_scribe.Proto.{Bytes}
use fcitx5_scribe.Protocol.{Crypto, Codec}
use fcitx5_scribe.Io.State.{Shared, Task, await_written, Wakeup, returned, received, init}
use fcitx5_scribe.Io.Untouched.{
  Untouched, connect-Untouched, disconnect-Untouched, send-Untouched, stop-Untouched,
}
use fcitx5_scribe.Io.Tasks.{resume}
use fcitx5_scribe.Io.System.{taken}
use fcitx5_scribe.Io.Orderly.{Situation, down, starting, opening, up, IsOrderly}
use fcitx5_scribe.Io.Orderly.Fronts.{writes-IsFront, Situation-open}
use fcitx5_scribe.Io.Orderly.Frames.{written, handed, WritesFront, resume-Passes}
use fcitx5_scribe.Io.Orderly.Runs.{
  IsDue, TurnStep, connects, disconnects, sends, stops, resumes, TurnReach, start, later,
  TurnReach-IsOrderly,
}

-- The lists are those of one connection.
abbrev of_connection : Bool → List Bytes → List Bytes
of_connection true frames = frames
of_connection false frames = []

quiet_queue : (s : Shared) → Situation s → s.connected ≡ false → s.outgoing_frames ≡ []
quiet_queue s (down (_, _, _, _, f, _)) h = f
quiet_queue s (starting (_, _, _, f, _, _, _)) h = f
quiet_queue s (opening (_, _, _, _, f, _, _, _, _)) h = f
quiet_queue s (up (_, c, _, _, _, _, _, _)) h = cc

-- What waited and was handed over is what was written and waits.
in_order :
    (ws hs wr hd old new : List Bytes)
    → ws ++ old ≡ hs
    → wr ++ new ≡ old ++ hd
    → (ws ++ wr) ++ new ≡ hs ++ hd
in_order ws hs wr hd old new e f =
    append_assoc ws wr new ∙ ap (◌++◌ ws) f ∙ sym (append_assoc ws old hd) ∙ ap (λ xs. xs ++ hd) e

pub Situation-of : (s : Shared) → s.context_stopped ≡ false → IsOrderly s → Situation s
Situation-of s runs (k, inl halted) = absurd (ground arith)
Situation-of s runs (k, inr (r, sit)) = sit

module _ (crypto : Crypto) (codec : Codec) where
  abbrev pub step_handed : {s u : Shared} → TurnStep crypto codec s u → List Bytes
  step_handed (resumes before after t w d e) = handed t w
  step_handed _ = []

  abbrev pub step_written : {s u : Shared} → TurnStep crypto codec s u → List Bytes
  step_written (resumes before after t w d e) = written t w
  step_written _ = []

  -- The frames that the actor was handed while the last connection was up, and those it wrote.
  abbrev pub all_handed : {s : Shared} → TurnReach crypto codec s → List Bytes
  all_handed start = []
  all_handed (later {u} r st) = of_connection u.connected (all_handed r ++ step_handed st)

  abbrev pub all_written : {s : Shared} → TurnReach crypto codec s → List Bytes
  all_written start = []
  all_written (later {u} r st) = of_connection u.connected (all_written r ++ step_written st)

  none_handed :
      {s : Shared} (r : TurnReach crypto codec s)
      → s.connected ≡ false
      → (all_handed r ≡ []) × (all_written r ≡ [])
  none_handed start h = (refl, refl)
  none_handed (later r st) h = (
    ap (λ b. of_connection b (all_handed r ++ step_handed st)) h,
    ap (λ b. of_connection b (all_written r ++ step_written st)) h,
  )

  pub due-front :
      (t : Task) (w : Wakeup) (before after : List Task) (s : Shared)
      → IsDue crypto codec t w before after s
      → Situation s
      → WritesFront t w s.outgoing_frames
  due-front (await_written g frame) (returned none bytes) before after s d sit =
      writes-IsFront s before after g frame bytes sit d.waits d.turn
  due-front _ w before after s d sit = tt

  due-Passes :
      (t : Task) (w : Wakeup) (before after : List Task) (s u : Shared)
      → IsDue crypto codec t w before after s
      → Situation s
      → resume crypto codec t w (taken (before ++ after) w s) ≡ some u
      → u.connected ≡ true
      → written t w ++ u.outgoing_frames ≡ s.outgoing_frames ++ handed t w
  due-Passes t (received (some c)) before after s u d sit =
      resume-Passes crypto codec t (received (some c))
        (taken (before ++ after) (received (some c)) s) u (Situation-open s sit)
        (due-front t (received (some c)) before after s d sit)
  due-Passes t w before after s u d sit =
      resume-Passes crypto codec t w (taken (before ++ after) w s) u (Situation-open s sit)
        (due-front t w before after s d sit)

  -- Also before the connection is up.
  in_order_before :
      {s : Shared} (r : TurnReach crypto codec s)
      → Situation s
      → (s.connected ≡ true → all_written r ++ s.outgoing_frames ≡ all_handed r)
      → all_written r ++ s.outgoing_frames ≡ all_handed r
  in_order_before {s} r sit h = elim (Bool-cases s.connected) [
    | inl c ↦ h c
    | inr c ↦ let (no_hs, no_ws) = none_handed r c in rw (no_hs, no_ws) (quiet_queue s sit c)
  ]

  kept :
      (s u : Shared) (ws hs : List Bytes)
      → Untouched s u
      → (s.connected ≡ true → ws ++ s.outgoing_frames ≡ hs)
      → u.connected ≡ true
      → (ws ++ []) ++ u.outgoing_frames ≡ hs ++ []
  kept s u ws hs k h c = rw (append-nil ws, append-nil hs, k.frames) (h (sym k.connected ∙ c))

  step_in_order :
      {s u : Shared} (r : TurnReach crypto codec s) (st : TurnStep crypto codec s u)
      → (s.connected ≡ true → all_written r ++ s.outgoing_frames ≡ all_handed r)
      → u.connected ≡ true
      → (all_written r ++ step_written st) ++ u.outgoing_frames ≡ all_handed r ++ step_handed st
  step_in_order {s} r (connects queued config) h =
      kept s _ (all_written r) (all_handed r) (connect-Untouched queued config s) h
  step_in_order {s} r (disconnects queued) h =
      kept s _ (all_written r) (all_handed r) (disconnect-Untouched queued s) h
  step_in_order {s} r (sends queued e) h =
      kept s _ (all_written r) (all_handed r) (send-Untouched codec queued e s) h
  step_in_order {s} r stops h = kept s _ (all_written r) (all_handed r) (stop-Untouched s) h
  step_in_order {s} {u} r (resumes before after t w d e) h = λ c.
      let sit = Situation-of s d.runs (TurnReach-IsOrderly crypto codec r) in
      in_order (all_written r) (all_handed r) (written t w) (handed t w) s.outgoing_frames
        u.outgoing_frames (in_order_before r sit h) (due-Passes t w before after s u d sit e c)

  -- While a connection is up, in every execution in which the commands come in turn: the frames that
  -- were written to its socket, followed by those that wait, are the frames that the actor was handed
  -- since the connection is up. None is lost, doubled or overtaken.
  pub frames_in_order :
      {s : Shared} (r : TurnReach crypto codec s)
      → s.connected ≡ true
      → all_written r ++ s.outgoing_frames ≡ all_handed r
  unfolding init
  frames_in_order start h = refl
  frames_in_order (later r st) h = rw h (step_in_order r st (frames_in_order r) h)
