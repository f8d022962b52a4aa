-- ===== src/Io/Untouched.antt =====
-- What the methods of `Io`, which only queue a command, leave as it is.
use fcitx5_scribe.Common.{◌≡◌, Bool, arith}
use fcitx5_scribe.Error.{ConnectionConfig}
use fcitx5_scribe.Proto.{Envelope}
use fcitx5_scribe.Protocol.{Codec}
use fcitx5_scribe.Io.State.{Shared}
use fcitx5_scribe.Io.Commands.{connect, disconnect, send, stop}

pub record Untouched (s u : Shared) : Type 0 where
  pub tasks : u.tasks ≡ s.tasks
  pub published : u.published ≡ s.published
  pub connected : u.connected ≡ s.connected
  pub active : u.connection_active ≡ s.connection_active
  pub frames : u.outgoing_frames ≡ s.outgoing_frames

pub connect-Untouched :
    (queued : Bool) (config : ConnectionConfig) (s : Shared)
    → Untouched s (connect queued config s).1
unfolding connect
connect-Untouched queued config s = ground arith

pub disconnect-Untouched : (queued : Bool) (s : Shared) → Untouched s (disconnect queued s).1
unfolding disconnect
disconnect-Untouched queued s = ground arith

pub send-Untouched :
    (codec : Codec) (queued : Bool) (e : Envelope) (s : Shared)
    → Untouched s (send codec queued e s).1
unfolding send
send-Untouched codec queued e s = ground arith

pub stop-Untouched : (s : Shared) → Untouched s (stop s)
unfolding stop
stop-Untouched s = ground arith
