-- ===== src/Io/Writing.antt =====
-- `writeLoop` while every write succeeds.
use fcitx5_scribe.Common.{
  ℕ, ◌≡◌, ◌∙◌, refl, ap, inl, false, none, some, List, [], ◌∷◌, ◌++◌, map, arith,
}
use fcitx5_scribe.Proto.{Bytes}
use fcitx5_scribe.Protocol.{Crypto, Codec}
use fcitx5_scribe.Io.State.{Shared, Task, Wakeup, start_write, await_written, returned}
use fcitx5_scribe.Io.Reading.{IsServing}
use fcitx5_scribe.Io.Tasks.{resume}
use fcitx5_scribe.Io.Orderly.Going.{Goes, stays, goes, taken-last}

-- The waits for the writes of these frames, which succeed.
abbrev pub writes : ℕ → List Bytes → List (Task × Wakeup)
writes g frames = map (λ frame. (await_written g frame, returned none [])) frames

-- The writer has nothing left and has ended.
abbrev pub drained : List Task → Shared → Shared
drained others s = record s { outgoing_frames = []; writer_running = false; tasks = others }

module _ (crypto : Crypto) (codec : Codec) (g : ℕ) where
  -- The front is being written.
  abbrev writing : List Task → Bytes → List Bytes → Shared → Shared
  writing others frame frames s = record s {
    outgoing_frames = frame ∷ frames;
    tasks = others ++ (await_written g frame ∷ []);
  }

  writer_started :
      (frame : Bytes) (frames : List Bytes) (s : Shared)
      → IsServing g s
      → s.outgoing_frames ≡ frame ∷ frames
      → resume crypto codec (start_write g) (returned none []) s
        ≡ some (writing s.tasks frame frames s)
  unfolding resume
  writer_started frame frames s r e = ground arith

  last_written :
      (frame : Bytes) (s : Shared)
      → IsServing g s
      → resume crypto codec
          (await_written g frame)
          (returned none [])
          (record s { outgoing_frames = frame ∷ [] })
        ≡ some (drained s.tasks s)
  unfolding resume
  last_written frame s r = ground arith

  next_written :
      (frame next : Bytes) (frames : List Bytes) (s : Shared)
      → IsServing g s
      → resume crypto codec
          (await_written g frame)
          (returned none [])
          (record s { outgoing_frames = frame ∷ next ∷ frames })
        ≡ some (writing s.tasks next frames s)
  unfolding resume
  next_written frame next frames s r = ground arith

  serving_beside :
      (others : List Task) (s : Shared) → IsServing g s → IsServing g (record s { tasks = others })
  serving_beside others s r = record {
    running = r.running;
    is_current = r.is_current;
    is_open = r.is_open;
  }

  writing-Goes :
      (others : List Task) (frame : Bytes) (frames : List Bytes) (s : Shared)
      → IsServing g s
      → s.context_stopped ≡ false
      → Goes crypto codec
          (writing others frame frames s)
          (writes g (frame ∷ frames))
          (drained others s)
  writing-Goes others frame [] s r runs =
      goes others [] (await_written g frame) (returned none [])
        (record {
          waits = refl;
          runs = runs;
          may = tt;
          fits = tt;
          turn = inl (ap some r.is_current);
        })
        (ap (resume crypto codec (await_written g frame) (returned none []))
            (taken-last others [] (writing others frame [] s))
          ∙ last_written frame (record s { tasks = others }) (serving_beside others s r))
        stays
  writing-Goes others frame (next ∷ frames) s r runs =
      goes others [] (await_written g frame) (returned none [])
        (record {
          waits = refl;
          runs = runs;
          may = tt;
          fits = tt;
          turn = inl (ap some r.is_current);
        })
        (ap (resume crypto codec (await_written g frame) (returned none []))
            (taken-last others [] (writing others frame (next ∷ frames) s))
          ∙ next_written frame next frames (record s { tasks = others })
              (serving_beside others s r))
        (writing-Goes others next frames s r runs)

  -- A writer that starts on an open connection of the current generation, while the actor runs, writes
  -- the queued frames in their order, each once, and ends when none is left, if every write succeeds
  -- and nothing else happens in between; the other coroutines wait as before.
  pub writer-drains :
      (before after : List Task) (frame : Bytes) (frames : List Bytes) (s : Shared)
      → s.tasks ≡ before ++ (start_write g ∷ after)
      → s.context_stopped ≡ false
      → IsServing g s
      → s.outgoing_frames ≡ frame ∷ frames
      → Goes crypto codec s
          ((start_write g, returned none []) ∷ writes g (frame ∷ frames))
          (drained (before ++ after) s)
  writer-drains before after frame frames s waits runs r e =
      let others = before ++ after in
      goes before after (start_write g) (returned none [])
        (record { waits = waits; runs = runs; may = tt; fits = tt; turn = tt })
        (writer_started frame frames (record s { tasks = others }) (serving_beside others s r) e)
        (writing-Goes others frame frames s r runs)
