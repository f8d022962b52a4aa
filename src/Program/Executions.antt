-- ===== src/Program/Executions.antt =====
-- What holds of the addon with its transport in every order of calls, callbacks and resumptions.
use mathlib.Core.Path.{subst}
use fcitx5_scribe.Common.{ℕ, ◌≡◌, refl, sym, ap, ◌∙◌, Bool, some, List, [], ◌∷◌, ◌++◌, arith}
use mathlib.Core.List.{append-nil, append_assoc}
use fcitx5_scribe.Error.{Result}
use fcitx5_scribe.Io.Reads.{commits_of, commit_read, resume-reads, resume-grows}
use fcitx5_scribe.Proto.{CommitText}
use fcitx5_scribe.Config.{Config}
use fcitx5_scribe.Engine.State.{SessionId, init}
use fcitx5_scribe.Engine.Run.{run}
use fcitx5_scribe.Io.State.{Shared, Publication}
use fcitx5_scribe.Io.Orderly.Runs.{
  IsDue, resumes, TurnStep-IsOrderly, TurnReach, TurnReach-IsOrderly,
}
use fcitx5_scribe.Addon.State.{Addon}
use fcitx5_scribe.Addon.History.{Moment, initial, from_transport, perform}
use fcitx5_scribe.Addon.Preserving.{IsFcitx, call-Ends}
use fcitx5_scribe.Program.{
  event_of, io_transport, Program, Outside, call, Step, called, told, ran, Reach, begins, later,
}
use fcitx5_scribe.Program.Texts.{empty}
use fcitx5_scribe.Program.Sound.{here, IsFit, IsFit-Preserves, told-Ends, ended-IsFit}
use fcitx5_scribe.Io.State.{Task, Wakeup, init as shared_init}
use fcitx5_scribe.Io.Tasks.{resume}
use fcitx5_scribe.Io.System.{taken}

taken-published :
    (rest : List Task) (w : Wakeup) (s : Shared) → (taken rest w s).published ≡ s.published
taken-published rest w s = ground arith

module _ (o : Outside) (generator : ℕ → Result SessionId) where
  -- The commits that the actor has read, in their order.
  abbrev pub step_read : {p q : Program} → Step o p q → List CommitText
  step_read (ran before after t w due e) = commit_read o.crypto o.codec t w
  step_read _ = []

  abbrev pub all_read :
      {config : Config} {p : Program} → Reach o generator config p → List CommitText
  all_read begins = []
  all_read (later r st) = all_read r ++ step_read st

  -- The publications of this state were read, and those heard come first.
  pub record IsTrue (heard ps : List Publication) (ms : List CommitText) (a : Addon Shared)
      : Type 0 where
    pub fit : IsFit o generator heard ps a
    pub waiting : List Publication
    pub queued : ps ≡ heard ++ waiting
    pub read : commits_of ps ≡ ms

  called-IsTrue :
      (room : Shared → Bool) (m : Moment) (heard ps : List Publication) (ms : List CommitText)
      (a b : Addon Shared)
      → IsFcitx m.call
      → call o room m a ≡ some b
      → IsTrue heard ps ms a
      → IsTrue heard ps ms b
  called-IsTrue room m heard ps ms a b f e h = record {
    fit =
        ended-IsFit o generator heard ps _ b
          (call-Ends (here o generator room m) (IsFit o generator heard ps)
            (IsFit o generator heard ps) (IsFit-Preserves o generator room m heard ps)
            o.uuid_to_string (io_transport o.codec room) m.call a f h.fit)
          e;
    waiting = h.waiting;
    queued = h.queued;
    read = h.read;
  }

  told-IsTrue :
      (room : Shared → Bool) (m : Moment) (q : Publication) (rest heard ps : List Publication)
      (ms : List CommitText) (a b : Addon Shared)
      → ps ≡ heard ++ (q ∷ rest)
      → m.call ≡ from_transport (event_of q)
      → call o room m a ≡ some b
      → IsTrue heard ps ms a
      → IsTrue (heard ++ (q ∷ [])) ps ms b
  unfolding perform
  told-IsTrue room m q rest heard ps ms a b next which e h = record {
    fit =
        ended-IsFit o generator (heard ++ (q ∷ [])) ps _ b
          (told-Ends o generator room m q rest heard ps a h.fit (h.fit.shown ∙ next))
          (rw which at e);
    waiting = rest;
    queued = next ∙ sym (append_assoc heard (q ∷ []) rest);
    read = h.read;
  }

  ran-IsTrue :
      (t : Task) (w : Wakeup) (before after : List Task) (heard : List Publication)
      (ms : List CommitText) (a : Addon Shared) (u : Shared)
      → IsDue o.crypto o.codec t w before after a.io
      → resume o.crypto o.codec t w (taken (before ++ after) w a.io) ≡ some u
      → IsTrue heard a.io.published ms a
      → IsTrue heard u.published (ms ++ commit_read o.crypto o.codec t w) (record a { io = u })
  ran-IsTrue t w before after heard ms a u due e h =
      let s = taken (before ++ after) w a.io in
      let same = taken-published (before ++ after) w a.io in
      let (ps, more) = resume-grows o.crypto o.codec t w s u e in
      record {
        fit = record {
          orderly =
              TurnStep-IsOrderly o.crypto o.codec h.fit.orderly (resumes before after t w due e);
          shown = refl;
          ready_heard = h.fit.ready_heard;
          selected = h.fit.selected;
          events = h.fit.events;
          engine_runs = h.fit.engine_runs;
        };
        waiting = h.waiting ++ ps;
        queued = more ∙ ap (λ xs. xs ++ ps) (same ∙ h.queued) ∙ append_assoc heard h.waiting ps;
        read =
            resume-reads o.crypto o.codec t w s u e
            ∙ ap (λ xs. commits_of xs ++ commit_read o.crypto o.codec t w) same
            ∙ ap (λ xs. xs ++ commit_read o.crypto o.codec t w) h.read;
      }

  -- The publications are those of the state.
  restated :
      (heard ps : List Publication) (ms : List CommitText) (b : Addon Shared)
      → IsTrue heard ps ms b
      → IsTrue heard b.io.published (ms ++ []) b
  restated heard ps ms b h =
      subst (λ ns. IsTrue heard b.io.published ns b) (sym (append-nil ms))
        (subst (λ ps. IsTrue heard ps ms b) (sym h.fit.shown) h)

  Step-IsTrue :
      {p q : Program} (ms : List CommitText) (st : Step o p q)
      → IsTrue p.heard p.addon.io.published ms p.addon
      → IsTrue q.heard q.addon.io.published (ms ++ step_read st) q.addon
  Step-IsTrue {p} ms (called room m {b} f e) h =
      restated p.heard p.addon.io.published ms b
        (called-IsTrue room m p.heard p.addon.io.published ms p.addon b f e h)
  Step-IsTrue {p} ms (told room m q rest {b} next which e) h =
      restated (p.heard ++ (q ∷ [])) p.addon.io.published ms b
        (told-IsTrue room m q rest p.heard p.addon.io.published ms p.addon b next which e h)
  Step-IsTrue {p} ms (ran before after t w {u} due e) h =
      ran-IsTrue t w before after p.heard ms p.addon u due e h

  pub Reach-IsTrue :
      {config : Config} {p : Program} (r : Reach o generator config p)
      → IsTrue p.heard p.addon.io.published (all_read r) p.addon
  unfolding initial init shared_init run
  Reach-IsTrue begins = record {
    fit = record {
      orderly = TurnReach-IsOrderly o.crypto o.codec TurnReach.start;
      shown = refl;
      ready_heard = λ h. ground arith;
      selected = empty;
      events = [];
      engine_runs = refl;
    };
    waiting = [];
    queued = refl;
    read = refl;
  }
  Reach-IsTrue (later r st) = Step-IsTrue (all_read r) st (Reach-IsTrue r)
