-- ===== src/Engine/Spec.antt =====
-- The session protocol in the abstract: five phases, the focus and the settings. It keeps no table
-- of contexts and checks nothing twice; the engine is proved to implement it.
use fcitx5_scribe.Common.{
  ℕ, suc, ◌+◌, ◌%◌, ◌^◌, Bool, true, false, ◌&&◌, Option, none, some, List, [], ◌∷◌, ◌++◌,
  if◌then◌else◌, ◌==◌, holds,
}
use fcitx5_scribe.Error.{Result, ok, unexpected, ContextId}
use fcitx5_scribe.Proto.{Bytes, CommitText, Envelope, InterruptReason}
use fcitx5_scribe.Engine.Event.{
  Configured, unconfigured, configured, misconfigured, Event, Effect, accept_key, connect,
  disconnect, send_envelope, commit_text, log,
}
use fcitx5_scribe.Engine.State.{SessionId, SessionState}
use fcitx5_scribe.Engine.Session.{bytes_equal}

pub data Phase : Type 0 where
  idle : Phase
  opening : Phase
  waiting : ContextId → Phase
  open_idle : Phase
  active : SessionState → Phase

-- `drawn` counts the session identifiers that were taken from the generator.
pub record View : Type 0 where
  pub phase : Phase
  pub focus : Option ContextId
  pub settings : Configured
  pub drawn : ℕ

abbrev pub interrupting : InterruptReason → SessionState → Effect
interrupting reason session =
    send_envelope (Envelope.interrupt_session (record { session_id = session.id; reason = reason }))

-- A context gains or loses the focus.
abbrev pub refocus : ContextId → Bool → Option ContextId → Option ContextId
refocus c true focus = some c
refocus c false focus = if holds focus c then none else focus

-- On an open connection a session starts for a context, unless no identifier can be had.
abbrev pub start : ContextId → Result SessionId → View → View × List Effect
start c (unexpected e) v = (record v { phase = open_idle; drawn = suc v.drawn }, [])
start c (ok id) v = (
  record v {
    phase = active (record { context = c; id = id; next_sequence_no = 1 });
    drawn = suc v.drawn;
  },
  send_envelope (Envelope.start_session (record { session_id = id })) ∷ [],
)

abbrev pub prepend : Effect → View × List Effect → View × List Effect
prepend e (v, es) = (v, e ∷ es)

abbrev pub has_settings : Configured → Bool
has_settings unconfigured = false
has_settings (configured c) = true
has_settings (misconfigured e) = false

module _ (generator : ℕ → Result SessionId) where
  -- The toggle key in a context, once the focus is settled.
  abbrev pub toggle_in : ContextId → Bool → Phase → View → View × List Effect
  toggle_in c focused (active x) v =
      (record v { phase = open_idle }, interrupting InterruptReason.toggle x ∷ accept_key ∷ [])
  toggle_in c focused (waiting d) v =
      if d == c
      then (record v { phase = opening }, accept_key ∷ [])
      else if focused
      then (record v { phase = waiting c }, accept_key ∷ [])
      else (v, [])
  toggle_in c focused idle v =
      if focused && has_settings v.settings
      then (record v { phase = waiting c }, accept_key ∷ connect ∷ [])
      else (v, [])
  toggle_in c focused opening v =
      if focused && has_settings v.settings
      then (record v { phase = waiting c }, accept_key ∷ [])
      else (v, [])
  toggle_in c focused open_idle v =
      if focused && has_settings v.settings
      then prepend accept_key (start c (generator v.drawn) v)
      else (v, [])

  abbrev pub focus_in : ContextId → Phase → View → View × List Effect
  focus_in c (waiting d) v = if d == c then (v, []) else (record v { phase = opening }, [])
  focus_in c (active x) v =
      if x.context == c
      then (v, [])
      else (record v { phase = open_idle }, interrupting InterruptReason.focus_changed x ∷ [])
  focus_in c _ v = (v, [])

  -- The context loses the focus or goes away.
  abbrev pub leave : ContextId → InterruptReason → Phase → View → View × List Effect
  leave c reason (waiting d) v = if d == c then (record v { phase = opening }, []) else (v, [])
  leave c reason (active x) v =
      if x.context == c
      then (record v { phase = open_idle }, interrupting reason x ∷ [])
      else (v, [])
  leave c reason _ v = (v, [])

  abbrev pub authenticated : Phase → View → View × List Effect
  authenticated opening v = (record v { phase = open_idle }, [])
  authenticated (waiting c) v = start c (generator v.drawn) v
  authenticated _ v = (v, disconnect ∷ [])

  abbrev pub reconfigured : Phase → View → View × List Effect
  reconfigured idle v = (v, [])
  reconfigured _ v = (record v { phase = idle }, disconnect ∷ [])

  abbrev pub receive : CommitText → SessionState → View → View × List Effect
  receive m x v =
      if m.sequence_no == x.next_sequence_no
      then (
        record v {
          phase = active (record x { next_sequence_no = (x.next_sequence_no + 1) % 2 ^ 64 });
        },
        commit_text x.context m.text ∷ [],
      )
      else (record v { phase = open_idle }, interrupting InterruptReason.transport_failure x ∷ [])

  -- A message with this session identifier, and what it does to the session that it is for.
  abbrev pub for_session :
      Bytes → (SessionState → View → View × List Effect) → Phase → View → View × List Effect
  for_session id act (active x) v = if bytes_equal id x.id then act x v else (v, [])
  for_session id act _ v = (v, [])

  abbrev pub finish : SessionState → View → View × List Effect
  finish x v = (record v { phase = open_idle }, [])

  -- One event: the next view, and the effects other than log lines.
  unfoldable pub step : Event → View → View × List Effect
  step (Event.connection_configured r) v = reconfigured v.phase (record v { settings = r })
  step (Event.toggle c f) v = toggle_in c f v.phase (record v { focus = refocus c f v.focus })
  step (Event.focus_in c) v = focus_in c v.phase (record v { focus = some c })
  step (Event.focus_out c) v =
      leave c InterruptReason.focus_lost v.phase (record v { focus = refocus c false v.focus })
  step (Event.context_destroyed c) v =
      leave c InterruptReason.input_context_destroyed v.phase
        (record v { focus = refocus c false v.focus })
  step Event.connection_authenticated v = authenticated v.phase v
  step Event.connection_closed v = (record v { phase = idle }, [])
  step (Event.connection_failed e) v = (record v { phase = idle }, [])
  step (Event.connection_commit_text m) v = for_session m.session_id (receive m) v.phase v
  step (Event.connection_vad_timeout m) v = for_session m.session_id finish v.phase v
  step (Event.connection_error_message m) v = for_session m.session_id finish v.phase v

  unfoldable pub run : List Event → View → View × List Effect
  run [] v = (v, [])
  run (e ∷ es) v =
      let (v1, effects) = step e v in let (v2, more) = run es v1 in (v2, effects ++ more)

unfoldable pub start_view : View
start_view = record { phase = idle; focus = none; settings = unconfigured; drawn = 0 }

-- The effects other than log lines.
abbrev pub visible : List Effect → List Effect
visible [] = []
visible (log level message ∷ es) = visible es
visible (e ∷ es) = e ∷ visible es
