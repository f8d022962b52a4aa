-- ===== src/Io/Link.antt =====
-- What the transport promises, in the abstract: a link that is idle, opens, or serves a queue of frames.
-- It has no generations, sockets or coroutines.
pub mod Moves
pub mod Places
pub mod Promises
pub mod Refinement
use fcitx5_scribe.Common.{ℕ, ◌≡◌, List, [], ◌∷◌, ◌++◌, if◌then◌else◌}
use fcitx5_scribe.Error.{Error}
use fcitx5_scribe.Proto.{Bytes}
use fcitx5_scribe.Io.State.{
  Shared, Publication, authenticated, closed, failure, commit_text, vad_timeout, protocol_error,
}

pub data Phase : Type 0 where
  idle : Phase
  opening : Phase
  serving : List Bytes → Phase

abbrev pub IsMessage : Publication → Type 0
IsMessage (commit_text m) = Unit
IsMessage (vad_timeout m) = Unit
IsMessage (protocol_error m) = Unit
IsMessage _ = ⊥

-- One move: the phase before, the frames that are handed over, the frames that are written, what is
-- published, and the phase after. A frame is dropped unless the link serves.
pub data Move : Phase → List Bytes → List Bytes → List Publication → Phase → Type 0 where
  rests : (handed : List Bytes) → Move idle handed [] [] idle
  dials : Move idle [] [] [] opening
  waits : (handed : List Bytes) → Move opening handed [] [] opening
  given_up : Move opening [] [] [] idle
  fails : (e : Error) → Move opening [] [] (failure e ∷ []) idle
  opens : Move opening [] [] (authenticated ∷ []) (serving [])
  works :
      (frames others handed written : List Bytes)
      → written ++ others ≡ frames ++ handed
      → Move (serving frames) handed written [] (serving others)
  tells :
      (frames : List Bytes) (p : Publication)
      → IsMessage p
      → Move (serving frames) [] [] (p ∷ []) (serving frames)
  breaks : (frames : List Bytes) (e : Error) → Move (serving frames) [] [] (failure e ∷ []) idle
  ends : (frames : List Bytes) → Move (serving frames) [] [] (closed ∷ []) idle

-- The runs of the link from its first phase on: all that was handed over, written and published.
pub data Run : List Bytes → List Bytes → List Publication → Phase → Type 0 where
  begins : Run [] [] [] idle
  moves :
      {hs ws : List Bytes} {ps : List Publication} {p q : Phase} {handed written : List Bytes}
      {news : List Publication}
      → Run hs ws ps p
      → Move p handed written news q
      → Run (hs ++ handed) (ws ++ written) (ps ++ news) q

-- The phase of the actor.
abbrev pub phase_of : Shared → Phase
phase_of s =
    if s.connected then serving s.outgoing_frames else if s.connection_active then opening else idle
