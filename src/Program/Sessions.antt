-- ===== src/Program/Sessions.antt =====
-- A session of the whole program: who is connected, and whose texts are written.
use fcitx5_scribe.Common.{ℕ, ◌≡◌, true, false, some, List, ◌++◌, arith}
use fcitx5_scribe.Error.{Result}
use fcitx5_scribe.Config.{Config}
use fcitx5_scribe.Engine.State.{Engine, SessionId, SessionState, ready}
use fcitx5_scribe.Engine.Consistency.{IsConsistent, run-IsConsistent}
use fcitx5_scribe.Io.Orderly.{talk}
use fcitx5_scribe.Program.{Program, Outside, Reach}
use fcitx5_scribe.Program.Texts.{Selected}
use fcitx5_scribe.Program.Executions.{all_read, Reach-IsTrue}
use fcitx5_scribe.Io.Reads.{commits_of}
use fcitx5_scribe.Io.State.{Publication}

module _ (o : Outside) (generator : ℕ → Result SessionId) where
  -- In every order of calls of fcitx, callbacks and resumed coroutines in which the commands come in
  -- turn, whatever the environment: the commits that the transport publishes are those that it has read
  -- from its connections, in their order; the callbacks hear a first part of what is published; and each
  -- text in an input context was written for a commit that was heard, each for another one, and in
  -- their order.
  pub texts_were_heard :
      {config : Config} {p : Program} (r : Reach o generator config p)
      → (commits_of p.addon.io.published ≡ all_read o generator r)
        × ((waiting : List Publication) × (p.addon.io.published ≡ p.heard ++ waiting))
        × Selected p.addon.committed p.heard
  texts_were_heard r =
      let h = Reach-IsTrue o generator r in (h.read, (h.waiting, h.queued), h.fit.selected)

  session-connected :
      (s : Engine) (x : SessionState)
      → IsConsistent s
      → s.session ≡ some x
      → s.connection_state ≡ ready
  session-connected s x c e = ground (arith, c.session_holds)

  -- In every such order, the engine has a session only between the callbacks of the authentication of
  -- a connection and of its end: of the two the last that has run is an authentication.
  pub session_authenticated :
      {config : Config} {p : Program} (x : SessionState)
      → Reach o generator config p
      → p.addon.engine.session ≡ some x
      → talk (some false) p.heard ≡ some true
  session_authenticated {p} x r e =
      let h = (Reach-IsTrue o generator r).fit in
      h.ready_heard (
        session-connected p.addon.engine x
          (rw h.engine_runs (run-IsConsistent o.uuid_to_string generator h.events)) e)
