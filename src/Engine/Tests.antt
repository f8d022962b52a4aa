-- ===== src/Engine/Tests.antt =====
-- The scenarios of tests/engine.cpp, and the theorems at concrete inputs.
use fcitx5_scribe.Common.{ℕ, ◌≡◌, refl, true, false, none, some, String, List, [], ◌∷◌, All, arith}
use fcitx5_scribe.Common.Map
use fcitx5_scribe.Error.{Result, ok, ConnectionConfig}
use fcitx5_scribe.Proto.{Bytes, CommitText}
use fcitx5_scribe.Engine.Event.{Event, configured, accept_key, connect, commit_text}
use fcitx5_scribe.Engine.State.{
  Engine, SessionId, SessionState, connecting, ready, transcribing, context_can_commit, init,
}
use fcitx5_scribe.Engine.Session.{bytes_equal}
use fcitx5_scribe.Engine.Handlers.{handle}
use fcitx5_scribe.Engine.Spec
use fcitx5_scribe.Engine.Spec.{visible, start_view}
use fcitx5_scribe.Engine.Refinement.{Represents}
use fcitx5_scribe.Engine.Run.{run, transcript, run_implements_protocol}
use fcitx5_scribe.Engine.Consistency.{IsConsistent, run-IsConsistent}
use fcitx5_scribe.Engine.Compliance.{IsCompliant, init-IsCompliant}
use fcitx5_scribe.Engine.Identifiers.{started, issued, started-run}
use fcitx5_scribe.Engine.Effects.{IsJustified, handle-IsJustified}
use fcitx5_scribe.Engine.Delivery.{
  numbered, in_session, numbered-deliver, mismatch_interrupts, interrupted_on, inactive_ignored,
  DebugOnly,
}
use fcitx5_scribe.Engine.Lifecycle.{toggle_stops_session, connection_loss_stops}

-- `testSessionId(0x30)` and `testConnectionConfig()`.
abbrev test_session_id : Bytes
test_session_id = 48 ∷ 49 ∷ 50 ∷ 51 ∷ 52 ∷ 53 ∷ 54 ∷ 55 ∷ 56 ∷ 57 ∷ 58 ∷ 59 ∷ 60 ∷ 61 ∷ 62 ∷ 63 ∷ []

abbrev test_config : ConnectionConfig
test_config = record {
  socket_path = "/tmp/scribe.sock";
  auth_token = "secret-token";
  connect_timeout = 250;
}

abbrev test_generator : ℕ → Result SessionId
test_generator n = ok test_session_id

abbrev test_uuid : SessionId → String
test_uuid id = "30313233-3435-3637-3839-3a3b3c3d3e3f"

abbrev configure_and_toggle : List Event
configure_and_toggle =
    Event.connection_configured (configured test_config)
    ∷ Event.focus_in 3
    ∷ Event.toggle 3 true
    ∷ []

abbrev until_ready : List Event
until_ready =
    Event.connection_configured (configured test_config)
    ∷ Event.focus_in 3
    ∷ Event.toggle 3 true
    ∷ Event.connection_authenticated
    ∷ []

abbrev after : List Event → Engine
after es = (run test_uuid es (init test_generator)).0

abbrev commit_message : ℕ → String → CommitText
commit_message n text = record { session_id = test_session_id; sequence_no = n; text = text }

abbrev test_session : SessionState
test_session = record { context = 3; id = test_session_id; next_sequence_no = 1 }

program : Unit {0}
unfolding run transcript handle init transcribing context_can_commit Spec.run Spec.step start_view
    numbered issued bytes_equal Map.find Map.set Map.emplace
program = tt

toggle_connects :
    (visible (run test_uuid configure_and_toggle (init test_generator)).1
      ≡ accept_key ∷ connect ∷ [])
    × ((after configure_and_toggle).connection_state ≡ connecting)
    × (transcribing (after configure_and_toggle) ≡ true)
unfolding program
toggle_connects = (refl, refl, refl)

unfocused_toggle_ignored : visible (handle test_uuid (Event.toggle 7 false) (after [])).1 ≡ []
unfolding program
unfocused_toggle_ignored = refl

authenticated_starts :
    ((after until_ready).session ≡ some test_session)
    × ((after until_ready).connection_state ≡ ready)
unfolding program
authenticated_starts = (refl, refl)

run_implements_protocol_example :
    Represents test_generator (after until_ready) (Spec.run test_generator until_ready start_view).0
run_implements_protocol_example = (run_implements_protocol test_uuid test_generator until_ready).0

run-IsConsistent_example : IsConsistent (after until_ready)
run-IsConsistent_example = run-IsConsistent test_uuid test_generator until_ready

init-IsCompliant_example : IsCompliant (transcript test_uuid until_ready (init test_generator)) none
init-IsCompliant_example = init-IsCompliant test_generator test_uuid until_ready

started-run_example :
    started (run test_uuid until_ready (init test_generator)).1 ≡ test_session_id ∷ []
unfolding program
started-run_example = started-run test_generator test_uuid until_ready

handle-IsJustified_example :
    All
      (IsJustified
        (after until_ready)
        (Event.connection_commit_text (commit_message 1 "hello"))
        (handle test_uuid
          (Event.connection_commit_text (commit_message 1 "hello"))
          (after until_ready)).0)
      (handle test_uuid
        (Event.connection_commit_text (commit_message 1 "hello"))
        (after until_ready)).1
handle-IsJustified_example =
    handle-IsJustified test_uuid (Event.connection_commit_text (commit_message 1 "hello"))
      (after until_ready)

numbered-deliver_example :
    run test_uuid (numbered test_session_id 1 ("hello" ∷ "world" ∷ [])) (after until_ready) ≡ (
      in_session test_session 3 (after until_ready),
      commit_text 3 "hello" ∷ commit_text 3 "world" ∷ [],
    )
unfolding program
numbered-deliver_example =
    numbered-deliver test_uuid ("hello" ∷ "world" ∷ []) test_session (after until_ready)
      (omega arith) refl refl

mismatch_interrupts_example :
    let (t, effects) =
      handle test_uuid
        (Event.connection_commit_text (commit_message 2 "bad"))
        (after until_ready) in
    (t ≡ record (after until_ready) { session = none; pending_context = none })
    × (visible effects ≡ interrupted_on ready test_session)
unfolding program
mismatch_interrupts_example =
    mismatch_interrupts test_uuid (commit_message 2 "bad") test_session (after until_ready) refl
      refl (λ e. omega arith)

inactive_ignored_example :
    let (t, effects) =
      handle test_uuid
        (Event.connection_vad_timeout (record { session_id = [] }))
        (after until_ready) in
    (t ≡ after until_ready) × DebugOnly effects
unfolding program
inactive_ignored_example =
    inactive_ignored test_uuid (Event.connection_vad_timeout (record { session_id = [] })) []
      (after until_ready) refl (λ e. cc)

toggle_stops_session_example :
    transcribing (handle test_uuid (Event.toggle 5 false) (after until_ready)).0 ≡ false
unfolding program
toggle_stops_session_example =
    (toggle_stops_session test_uuid 5 false test_session (after until_ready) refl refl).0

connection_loss_stops_example :
    transcribing (handle test_uuid Event.connection_closed (after until_ready)).0 ≡ false
connection_loss_stops_example =
    (connection_loss_stops test_uuid Event.connection_closed (after until_ready) refl).1
