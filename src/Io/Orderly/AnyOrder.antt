-- ===== src/Io/Orderly/AnyOrder.antt =====
-- Executions in which the commands come in turn are executions.
use fcitx5_scribe.Protocol.{Crypto, Codec}
use fcitx5_scribe.Io.State.{Shared}
use fcitx5_scribe.Io.System.{
  Step, Reach, start, later, connects, disconnects, sends, stops, resumes,
}
use fcitx5_scribe.Io.Orderly.Runs.{TurnStep, TurnReach}

module _ (crypto : Crypto) (codec : Codec) where
  TurnStep-Step : {s u : Shared} → TurnStep crypto codec s u → Step crypto codec s u
  TurnStep-Step (TurnStep.connects queued config) = connects queued config
  TurnStep-Step (TurnStep.disconnects queued) = disconnects queued
  TurnStep-Step (TurnStep.sends queued e) = sends queued e
  TurnStep-Step TurnStep.stops = stops
  TurnStep-Step (TurnStep.resumes before after t w d h) =
      resumes before after t w d.waits d.runs d.may h

  pub TurnReach-Reach : {s : Shared} → TurnReach crypto codec s → Reach crypto codec s
  TurnReach-Reach TurnReach.start = start
  TurnReach-Reach (TurnReach.later r st) = later (TurnReach-Reach r) (TurnStep-Step st)
