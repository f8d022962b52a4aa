-- ===== src/Addon/Tests.antt =====
-- A session from the key to the text, and the theorems about the addon at concrete inputs.
use fcitx5_scribe.Common.{
  ℕ, zero, suc, ◌≤◌, ◌≡◌, ◌≢◌, refl, Bool, true, false, Option, none, some, String, List, [], ◌∷◌,
  All, arith, length,
}
use mathlib.Core.Option
use fcitx5_scribe.Common.Map
use fcitx5_scribe.Error.{Result, ok, unexpected, make_error, transport}
use fcitx5_scribe.Proto.{Bytes}
use fcitx5_scribe.Config.{Config, Platform, load, connection_config}
use fcitx5_scribe.Engine.Event.{Event}
use fcitx5_scribe.Engine.State.{
  SessionId, ConnectionState, connecting, ready, context_can_commit, init,
}
use fcitx5_scribe.Engine.Session.{bytes_equal}
use fcitx5_scribe.Addon.Commits.Calls.{call_writes}
use fcitx5_scribe.Engine.Handlers.{handle}
use fcitx5_scribe.Engine.Run.{run}
use fcitx5_scribe.Engine.Consistency.{IsConsistent}
use fcitx5_scribe.Addon.State.{Addon, InputContext, Transport}
use fcitx5_scribe.Addon.Contexts.{ensure_context_id, find_context_id, find_right}
use fcitx5_scribe.Addon.Dispatch.{dispatch, process, run_queue, apply_all, apply}
use fcitx5_scribe.Addon.Handlers.{KeyEvent}
use fcitx5_scribe.Addon.Identity.{HasTable, ensure_context_id-stable}
use fcitx5_scribe.Addon.FollowUps.{IsFollowUp}
use fcitx5_scribe.Addon.Termination.{dispatch-ends}
use fcitx5_scribe.Addon.History.{
  Call, reload, key_event, from_transport, Moment, initial, world, perform, perform_all,
}
use fcitx5_scribe.Addon.Handlers.{handle_key_event}
use fcitx5_scribe.Addon.Keys.{key_answered}
use fcitx5_scribe.Addon.Soundness.{calls-succeed}

abbrev test_session_id : Bytes
test_session_id = 1 ∷ 2 ∷ 3 ∷ 4 ∷ 5 ∷ 6 ∷ 7 ∷ 8 ∷ 9 ∷ 10 ∷ 11 ∷ 12 ∷ 13 ∷ 14 ∷ 15 ∷ 16 ∷ []

-- A transport that counts the frames and takes only the first.
abbrev counting_send : ℕ → Result (Unit {0}) × ℕ
counting_send zero = (ok tt, 1)
counting_send (suc n) = (unexpected (make_error transport "failed to queue outbound frame"), suc n)

abbrev test_transport : Transport ℕ
test_transport = record {
  connect = λ config n. (ok tt, n);
  disconnect = λ n. (ok tt, n);
  send = λ envelope n. counting_send n;
}

abbrev test_platform : Platform
test_platform = record { getenv = λ name. some "secret"; wordexp = λ text. some (text ∷ []) }

abbrev test_config : Config
test_config = record {
  values = record {
    toggle_transcription_key = [];
    socket_path = "";
    auth_token_env = "";
    connect_timeout_ms = 1000;
  };
  resolved_socket_path = "";
  socket_path_valid = true;
}

abbrev test_context : InputContext
test_context = record { address = 4096; object = 7 }

abbrev other_context : InputContext
other_context = record { address = 8192; object = 8 }

abbrev toggle_key : KeyEvent
toggle_key = record {
  is_release = false;
  check_key_list = λ keys. true;
  input_context = some test_context;
  has_focus = true;
}

abbrev at_once : Call → Moment
at_once call = record { platform = test_platform; live = λ n. true; call = call }

abbrev test_uuid : SessionId → String
test_uuid id = "01020304-0506-0708-090a-0b0c0d0e0f10"

abbrev text_message : Event
text_message =
    Event.connection_commit_text
      (record { session_id = test_session_id; sequence_no = 1; text = "hello" })

abbrev session_calls : List Moment
session_calls =
    at_once (reload (λ d. d))
    ∷ at_once (key_event toggle_key)
    ∷ at_once (from_transport Event.connection_authenticated)
    ∷ at_once (from_transport text_message)
    ∷ at_once (key_event toggle_key)
    ∷ []

abbrev new_addon : Addon ℕ
new_addon = initial (λ n. ok test_session_id) test_config 0

program : Unit {0}
unfolding perform perform_all initial init dispatch run_queue apply_all apply handle run load
    connection_config ensure_context_id find_context_id find_right Map.find Map.set Map.emplace
program = tt

abbrev state_of : Option (Addon ℕ) → Option ConnectionState
state_of none = none
state_of (some a) = some a.engine.connection_state

toggle_connects :
    state_of (
      perform_all test_uuid test_transport
        (at_once (reload (λ d. d)) ∷ at_once (key_event toggle_key) ∷ [])
        new_addon)
    ≡ some connecting
unfolding program process Option.bind
toggle_connects = refl

dispatch-ends_example :
    (accepted : Bool) × (b : Addon ℕ) × (followed : List Event) × (dispatch
        (world test_uuid test_transport (at_once (reload (λ d. d))))
        (Event.toggle 1 true)
        new_addon
      ≡ some (accepted, b))
    × All IsFollowUp followed
    × (length followed ≤ 2)
    × (b.engine ≡ (run test_uuid (Event.toggle 1 true ∷ followed) new_addon.engine).0)
    × (b.next_context_id ≡ 1)
    × (HasTable new_addon → HasTable b)
unfolding initial
dispatch-ends_example =
    dispatch-ends (world test_uuid test_transport (at_once (reload (λ d. d)))) (Event.toggle 1 true)
      new_addon

calls-succeed_example :
    (b : Addon ℕ) × (perform_all test_uuid test_transport session_calls new_addon ≡ some b)
    × HasTable b
    × IsConsistent b.engine
calls-succeed_example =
    calls-succeed test_uuid test_transport (λ n. ok test_session_id) session_calls test_config 0
      (omega arith)

new_addon-HasTable : HasTable new_addon
unfolding program
new_addon-HasTable = record {
  bimap = tt;
  unused = λ id h. refl;
  untracked = λ id h. refl;
  tracked = λ id address e. ground arith;
}

ensure_context_id-stable_example :
    (find_context_id test_context (ensure_context_id test_context new_addon).1 ≡ some 1)
    × (ensure_context_id test_context (ensure_context_id test_context new_addon).1
        ≡ (1, (ensure_context_id test_context new_addon).1))
    × (find_context_id other_context (ensure_context_id test_context new_addon).1 ≡ none)
    × (find_context_id other_context (ensure_context_id test_context new_addon).1 ≢ some 1)
unfolding program
ensure_context_id-stable_example =
    ensure_context_id-stable test_context other_context new_addon new_addon-HasTable
      (λ e. omega arith)

-- An addon in a session with this context.
abbrev writing : Addon ℕ
writing = record new_addon {
  engine = record (init (λ n. ok test_session_id)) {
    connection_state = ready;
    session = some (record { context = 1; id = test_session_id; next_sequence_no = 1 });
    focused_context = some 1;
    contexts = (1, record { alive = true }) ∷ [];
  };
  contexts = (4096, 1) ∷ [];
  contexts_by_id = (1, 7) ∷ [];
}

call_writes_example :
    (b : Addon ℕ) × (perform test_uuid test_transport
        (world test_uuid test_transport (at_once (from_transport text_message)))
        (from_transport text_message)
        writing
      ≡ some b)
    × (b.committed ≡ (7, "hello") ∷ [])
unfolding program initial context_can_commit bytes_equal
call_writes_example =
    call_writes (world test_uuid test_transport (at_once (from_transport text_message))) test_uuid
      test_transport (from_transport text_message) writing

key_answered_example :
    (b : Addon ℕ) × (handle_key_event
        (world test_uuid test_transport (at_once (key_event toggle_key)))
        toggle_key
        writing
      ≡ some (true, b))
unfolding program context_can_commit
key_answered_example =
    key_answered (world test_uuid test_transport (at_once (key_event toggle_key))) toggle_key
      writing
