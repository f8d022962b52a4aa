-- ===== src/Engine/Session.antt =====
-- The private methods of `Engine` that start, check and end sessions.
pub mod Identity
use Prim.Native.String.{◌++◌}
use fcitx5_scribe.Common.{
  ℕ, suc, ◌+◌, ◌%◌, ◌^◌, Bool, true, false, ◌&&◌, not, Option, none, some, List, [], ◌∷◌, String,
  if◌then◌else◌, ◌==◌, length, to_string, to_string_ℤ,
}
use fcitx5_scribe.Common.Map
use fcitx5_scribe.Error.{Error, Result, ok, unexpected, ContextId}
use fcitx5_scribe.Proto.{
  Bytes, CommitText, VadTimeout, ProtoError, Envelope, InterruptReason, input_context_destroyed,
  focus_lost, transport_failure,
}
use fcitx5_scribe.Util.{session_id_to_log_string}
use fcitx5_scribe.Engine.Event.{Effect, LogLevel, debug, info, send_envelope}
use fcitx5_scribe.Engine.State.{
  Engine, SessionId, SessionState, ConnectionState, disconnected, connecting, ready, Action, ◌>>◌,
  ◌>>=◌, current, return, modify, emplace_back, push_log, context_focused, context_can_commit,
  is_alive, clear_pending, reset_connection, reset_session,
}

-- `std::equal` over the first range.
unfoldable pub equal : Bytes → Bytes → Bool
equal [] ys = true
equal (x ∷ xs) [] = false
equal (x ∷ xs) (y ∷ ys) = x == y && equal xs ys

unfoldable pub bytes_equal : Bytes → SessionId → Bool
unfolding equal
bytes_equal input session_id = length input == length session_id && equal input session_id

abbrev pub is_ready : ConnectionState → Bool
is_ready disconnected = false
is_ready connecting = false
is_ready ready = true

pub data AbortKind : Type 0 where
  quiet connection_failed : AbortKind

abbrev log_abort : AbortKind → String → Action
log_abort quiet reason = return
log_abort connection_failed reason =
    push_log info ("Transcription interrupted (" ++ (reason ++ ")"))

unfoldable pub abort_interaction : String → AbortKind → Action
unfolding reset_connection clear_pending push_log
abort_interaction reason kind = do
  reset_connection
  clear_pending
  reset_session
  log_abort kind reason

-- The envelope of an interrupted session, if the connection is ready.
send_interrupt : InterruptReason → SessionState → Action
send_interrupt reason session = do
  s ← current
  if is_ready s.connection_state
      then emplace_back (
          send_envelope
            (Envelope.interrupt_session (record { session_id = session.id; reason = reason })))
      else return

unfoldable pub interrupt_session : InterruptReason → String → Action
unfolding clear_pending push_log send_interrupt
interrupt_session reason log_reason = do
  s ← current
  elim s.session [
    | none ↦ clear_pending
    | some session ↦ do
      send_interrupt reason session
      reset_session
      clear_pending
      push_log info ("Transcription interrupted (" ++ (log_reason ++ ")"))
  ]

next_session_id : Engine → Result SessionId
next_session_id s = s.session_id_generator s.generated

-- `session_` is set, `next_sequence_no` to 1.
abbrev begin_session : ContextId → SessionId → Engine → Engine
begin_session context id s = record s {
  session = some (record { context = context; id = id; next_sequence_no = 1 });
}

abbrev count_generated : Action
count_generated = modify λ s. record s { generated = suc s.generated }

-- The session, if a message with this identifier is for it.
abbrev pub addressed : Bytes → Option SessionState → Option SessionState
addressed input none = none
addressed input (some session) = if bytes_equal input session.id then some session else none

module _ (uuid_to_string : SessionId → String) where
  -- What follows the call of the generator.
  start_session_with : ContextId → Result SessionId → Action
  unfolding clear_pending push_log
  start_session_with context (unexpected error) = do
    push_log info ("Cannot start transcription: " ++ error.message)
    clear_pending
  start_session_with context (ok id) = do
    modify (begin_session context id)
    clear_pending
    emplace_back (send_envelope (Envelope.start_session (record { session_id = id })))
    push_log info
        ("Transcription started for session " ++ session_id_to_log_string uuid_to_string id)

  start_pending : ContextId → Action
  unfolding clear_pending next_session_id start_session_with
  start_pending context = do
    s ← current
    if not (context_can_commit s context)
        then clear_pending
        else (do result ← next_session_id; count_generated; start_session_with context result)

  unfoldable pub try_start_pending : Action
  unfolding start_pending
  try_start_pending = do
    s ← current
    elim s.pending_context [
      | none ↦ return
      | some context ↦ if not (is_ready s.connection_state) then return else start_pending context
    ]

  commit_text_of : CommitText → SessionState → Action
  unfolding interrupt_session push_log context_focused
  commit_text_of message session = do
    s ← current
    if not (message.sequence_no == session.next_sequence_no)
        then (do
          push_log info (
              "Interrupting session after unexpected CommitText sequence "
              ++ (to_string message.sequence_no
                  ++ (", expected " ++ to_string session.next_sequence_no)))
          interrupt_session transport_failure "commit sequence mismatch")
        else if not (is_alive (Map.find session.context s.contexts))
        then interrupt_session input_context_destroyed "input context destroyed before commit"
        else if not (context_focused s session.context)
        then interrupt_session focus_lost "input context lost focus before commit"
        else (do
          emplace_back (Effect.commit_text session.context message.text)
          modify λ s. record s {
            session =
                some
                  (record session { next_sequence_no = (session.next_sequence_no + 1) % 2 ^ 64 });
          })

  unfoldable pub handle_commit_text : CommitText → Action
  unfolding commit_text_of push_log
  handle_commit_text message = do
    s ← current
    elim (addressed message.session_id s.session) [
      | none ↦ push_log debug "Ignoring CommitText for inactive session"
      | some session ↦ commit_text_of message session
    ]

  unfoldable pub handle_vad_timeout : VadTimeout → Action
  unfolding push_log
  handle_vad_timeout message = do
    s ← current
    elim (addressed message.session_id s.session) [
      | none ↦ push_log debug "Ignoring VadTimeout for inactive session"
      | some session ↦ do
        push_log info (
            "Session "
            ++ (session_id_to_log_string uuid_to_string session.id ++ " ended with VAD timeout"))
        reset_session
    ]

  unfoldable pub handle_error_envelope : ProtoError → Action
  unfolding push_log
  handle_error_envelope message = do
    s ← current
    elim (addressed message.session_id s.session) [
      | none ↦ push_log debug "Ignoring Error for inactive session"
      | some session ↦ do
        push_log info (
            "Session "
            ++ (session_id_to_log_string uuid_to_string session.id
                ++ (" failed with transcriber error "
                    ++ (to_string_ℤ message.code ++ (": " ++ message.message)))))
        reset_session
    ]
