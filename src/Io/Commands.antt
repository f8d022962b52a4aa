-- ===== src/Io/Commands.antt =====
-- The methods of `Io`, which the thread of fcitx calls, and `SharedState::stop`.
use Prim.Native.String.{◌++◌}
use fcitx5_scribe.Common.{Bool, true, false, if◌then◌else◌, not}
use fcitx5_scribe.Error.{
  Error, Result, ok, unexpected, make_error, transport, state, ConnectionConfig,
}
use fcitx5_scribe.Proto.{Bytes, Envelope}
use fcitx5_scribe.Protocol.{Codec, encode_frame}
use fcitx5_scribe.Io.State.{
  Shared, Command, connect_command, disconnect_command, send_command, enqueue,
}

-- The result of a method, and the state after it.
abbrev pub Reply : Type 0
Reply = Result (Unit {0}) × Shared

-- `commands.try_send`: `queued` is its result, which is up to the channel.
unfoldable pub try_send : Bool → Command → Error → Shared → Reply
try_send true command e s = (ok tt, enqueue command s)
try_send false command e s = (unexpected e, s)

unfoldable pub connect : Bool → ConnectionConfig → Shared → Reply
unfolding try_send
connect queued config =
    try_send queued (connect_command config)
      (make_error transport ("failed to queue connect command for socket " ++ config.socket_path))

unfoldable pub disconnect : Bool → Shared → Reply
unfolding try_send
disconnect queued =
    try_send queued disconnect_command (make_error transport "failed to queue disconnect command")

module _ (codec : Codec) where
  unfoldable pub send_encoded : Bool → Result Bytes → Shared → Reply
  unfolding try_send
  send_encoded queued (unexpected e) s = (unexpected e, s)
  send_encoded queued (ok frame) s =
      try_send queued (send_command frame) (make_error transport "failed to queue outbound frame") s

  unfoldable pub send : Bool → Envelope → Shared → Reply
  unfolding send_encoded
  send queued envelope s =
      if not s.connected
      then (unexpected (make_error state "transcriber connection not ready"), s)
      else send_encoded queued (encode_frame codec envelope) s

unfoldable pub stop : Shared → Shared
stop s = record s {
  stopping = true;
  channel_closed = true;
  socket_open = false;
  context_stopped = true;
}
