-- ===== src/Io/Orderly/Runs.antt =====
-- Executions in which cancelled waits end before the next command is handed out.
use mathlib.Core.Path.{subst}
use fcitx5_scribe.Common.{
  ◌≡◌, inl, inr, refl, sym, ◌∙◌, Bool, true, false, some, List, [], ◌∷◌, ◌++◌, arith, not,
  if◌then◌else◌,
}
use fcitx5_scribe.Error.{Error, Result, ok, unexpected, ConnectionConfig}
use fcitx5_scribe.Proto.{Bytes, Envelope}
use fcitx5_scribe.Protocol.{Crypto, Codec, encode_frame}
use fcitx5_scribe.Io.State.{Shared, Task, Command, Wakeup, received, init}
use fcitx5_scribe.Io.Tasks.{resume}
use fcitx5_scribe.Io.Commands.{Reply, try_send, send_encoded, connect, disconnect, send, stop}
use fcitx5_scribe.Io.System.{MayWake, taken}
use fcitx5_scribe.Io.Orderly.{Fits, InTurn, Situation, down, starting, opening, up, IsOrderly}
use fcitx5_scribe.Io.Orderly.Steps.{IsGood, Proceeds}
use fcitx5_scribe.Io.Orderly.Turns.{in-Situation}

-- The buffer of commands has no part in the situation, nor has the coroutine's place in the list.
restored :
    (s : Shared) (rest : List Task) (commands : List Command)
    → Situation s
    → Situation (record s { tasks = s.tasks; commands = commands })
restored s rest commands (down d) = down d
restored s rest commands (starting d) = starting d
restored s rest commands (opening d) = opening d
restored s rest commands (up d) = up d

good-IsOrderly : (s : Shared) → IsGood s → IsOrderly s
good-IsOrderly s (running, k, sit) = (k, inr (running, sit))

some_inj : {s t : Shared} → some s ≡ some t → s ≡ t
some_inj e = cc

module _ (crypto : Crypto) (codec : Codec) where
  -- The coroutine `t` may resume with `w`.
  pub record IsDue (t : Task) (w : Wakeup) (before after : List Task) (s : Shared) : Type 0 where
    pub waits : s.tasks ≡ before ++ (t ∷ after)
    pub runs : s.context_stopped ≡ false
    pub may : MayWake w s
    pub fits : Fits t w
    pub turn : InTurn t w (taken (before ++ after) w s)

  pub data TurnStep (s : Shared) : Shared → Type 0 where
    connects : (queued : Bool) (config : ConnectionConfig) → TurnStep s (connect queued config s).1
    disconnects : (queued : Bool) → TurnStep s (disconnect queued s).1
    sends : (queued : Bool) (e : Envelope) → TurnStep s (send codec queued e s).1
    stops : TurnStep s (stop s)
    resumes :
        (before after : List Task) (t : Task) (w : Wakeup) {u : Shared}
        → IsDue t w before after s
        → resume crypto codec t w (taken (before ++ after) w s) ≡ some u
        → TurnStep s u

  pub data TurnReach : Shared → Type 0 where
    start : TurnReach init
    later : {s u : Shared} → TurnReach s → TurnStep s u → TurnReach u

  due-Proceeds :
      (t : Task) (w : Wakeup) (before after : List Task) (s : Shared)
      → IsOrderly s
      → IsDue t w before after s
      → Proceeds (resume crypto codec t w (taken (before ++ after) w s))
  due-Proceeds t w before after s (k, inl halted) d = absurd (ground (arith, d.runs))
  due-Proceeds t (received (some c)) before after s (k, inr (r, sit)) d =
      in-Situation crypto codec t (received (some c))
        (taken (before ++ after) (received (some c)) s) before after s.tasks r k
        (restored s [] _ sit) d.waits refl d.fits d.turn
  due-Proceeds t w before after s (k, inr (r, sit)) d =
      in-Situation crypto codec t w (taken (before ++ after) w s) before after s.tasks r k sit
        d.waits refl d.fits d.turn

  calls-IsOrderly :
      (s : Shared) (commands : List Command)
      → IsOrderly s
      → IsOrderly (record s { commands = commands })
  calls-IsOrderly s commands (k, inl halted) = (k, inl halted)
  calls-IsOrderly s commands (k, inr (r, sit)) = (k, inr (r, restored s [] commands sit))

  try_send-IsOrderly :
      (queued : Bool) (command : Command) (e : Error) (s : Shared)
      → IsOrderly s
      → IsOrderly (try_send queued command e s).1
  unfolding try_send
  try_send-IsOrderly true command e s h = calls-IsOrderly s (s.commands ++ (command ∷ [])) h
  try_send-IsOrderly false command e s h = h

  encoded-IsOrderly :
      (queued : Bool) (r : Result Bytes) (s : Shared)
      → IsOrderly s
      → IsOrderly (send_encoded codec queued r s).1
  unfolding send_encoded
  encoded-IsOrderly queued (unexpected e) s h = h
  encoded-IsOrderly queued (ok frame) s h = try_send-IsOrderly queued _ _ s h

  if-IsOrderly :
      (b : Bool) (x y : Reply) → IsOrderly x.1 → IsOrderly y.1 → IsOrderly (if b then x else y).1
  if-IsOrderly true x y h k = h
  if-IsOrderly false x y h k = k

  pub TurnStep-IsOrderly : {s u : Shared} → IsOrderly s → TurnStep s u → IsOrderly u
  unfolding connect disconnect send stop
  TurnStep-IsOrderly {s} h (connects queued config) = try_send-IsOrderly queued _ _ s h
  TurnStep-IsOrderly {s} h (disconnects queued) = try_send-IsOrderly queued _ _ s h
  TurnStep-IsOrderly {s} h (sends queued e) =
      if-IsOrderly (not s.connected) _ _ h (encoded-IsOrderly queued (encode_frame codec e) s h)
  TurnStep-IsOrderly (k, _) stops = (k, inl refl)
  TurnStep-IsOrderly {s} h (resumes before after t w d e) =
      let (v, found, good) = due-Proceeds t w before after s h d in
      subst IsOrderly (some_inj (sym found ∙ e)) (good-IsOrderly v good)

  -- Every state that is reached with the commands in turn is orderly.
  pub TurnReach-IsOrderly : {s : Shared} → TurnReach s → IsOrderly s
  unfolding init
  TurnReach-IsOrderly start = (refl, inr (refl, down (refl, refl, refl, refl, refl, tt)))
  TurnReach-IsOrderly (later r st) = TurnStep-IsOrderly (TurnReach-IsOrderly r) st

  -- No undefined behaviour, whatever coroutine resumes with whatever result, if the commands come in
  -- turn: one is handed out only when the coroutines of earlier connections have ended and that of a
  -- new one has begun, and a wait that a close has cancelled ends with an error. In every state that is
  -- reached so, a coroutine whose wait ends runs to its next wait, and leaves an actor in order. What
  -- has been published is well-formed: a connection is reported authenticated once, messages only
  -- between that and its end, and its end once. An actor that runs has no connection, or one coroutine
  -- that opens it, or one that reads and at most one that writes, and that writes the oldest frame.
  pub no_fault :
      {s : Shared} (t : Task) (w : Wakeup) (before after : List Task)
      → TurnReach s
      → IsDue t w before after s
      → (u : Shared) × (resume crypto codec t w (taken (before ++ after) w s) ≡ some u)
        × IsOrderly u
  no_fault {s} t w before after r d =
      let (u, e, good) = due-Proceeds t w before after s (TurnReach-IsOrderly r) d in
      (u, e, good-IsOrderly u good)
