-- ===== src/Io/Publications.antt =====
-- What the actor tells the engine, and why.
use fcitx5_scribe.Common.{◌≡◌, true, false, none, some, [], All, arith}
use fcitx5_scribe.Error.{Result, ok}
use fcitx5_scribe.Proto.{ServerHello, Envelope}
use fcitx5_scribe.Protocol.{Crypto, Codec, decode_frame}
use fcitx5_scribe.Io.State.{
  Shared, Publication, authenticated, closed, failure, commit_text, vad_timeout, protocol_error,
  Task, await_command, await_hello_payload, await_payload, Wakeup, returned, had_connection,
}
use fcitx5_scribe.Io.Handshake.{validate_server_hello}
use fcitx5_scribe.Io.Tasks.{resume}

module _ (crypto : Crypto) (codec : Codec) where
  -- The envelope that a finished read decodes to.
  abbrev pub Decodes : Wakeup → Envelope → Type 0
  Decodes (returned none payload) e = decode_frame codec payload ≡ ok e
  Decodes _ e = ⊥

  -- The decoded answer is a `ServerHello` with a property.
  abbrev pub HelloHas : (ServerHello → Type 0) → Result Envelope → Type 0
  HelloHas P (ok (Envelope.server_hello hello)) = P hello
  HelloHas P _ = ⊥

  -- The handshake of this generation ends with an answer that passes the validation, while the
  -- generation is current, the actor runs and the socket is open.
  abbrev pub Authenticates : Task → Wakeup → Shared → Type 0
  Authenticates (await_hello_payload g n) (returned none payload) s =
      HelloHas (λ hello. validate_server_hello crypto hello s ≡ ok tt) (decode_frame codec payload)
      × (g ≡ s.active_generation)
      × (s.stopping ≡ false)
      × (s.socket_open ≡ true)
  Authenticates _ w s = ⊥

  abbrev pub Reads : Task → Wakeup → Envelope → Type 0
  Reads (await_payload g n) w e = Decodes w e
  Reads _ w e = ⊥

  -- Why a coroutine that resumes in the state `s`, and leaves the state `u`, publishes this.
  abbrev pub IsJustified : Task → Wakeup → Shared → Shared → Publication → Type 0
  IsJustified t w s u authenticated = Authenticates t w s × (u.connected ≡ true)
  IsJustified t w s u (commit_text m) = Reads t w (Envelope.commit_text m)
  IsJustified t w s u (vad_timeout m) = Reads t w (Envelope.vad_timeout m)
  IsJustified t w s u (protocol_error m) = Reads t w (Envelope.error m)
  IsJustified t w s u closed = (s.connected ≡ true) × (had_connection u ≡ false)
  IsJustified t w s u (failure e) = (s.stopping ≡ false) × (had_connection u ≡ false)

  -- Whatever a coroutine does when it resumes, it publishes only what is justified: `authenticated`
  -- after a validated answer for the current generation; a message of the transcriber only if it is
  -- what was just read and decoded; the end of a connection, or its failure while the actor runs, only
  -- when nothing of the connection is left.
  pub resume-IsJustified :
      (t : Task) (w : Wakeup) (s u : Shared)
      → s.published ≡ []
      → resume crypto codec t w s ≡ some u
      → All (IsJustified t w s u) u.published
  unfolding resume had_connection
  resume-IsJustified await_command w s u q h = ground arith
  resume-IsJustified _ w s u q h = ground arith
