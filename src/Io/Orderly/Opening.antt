-- ===== src/Io/Orderly/Opening.antt =====
-- While a connection is opened: its one coroutine goes on to the next wait, up to the authenticated
-- connection, or closes it.
use fcitx5_scribe.Common.{
  ℕ, ◌≡◌, refl, ap, ◌∙◌, true, false, Option, none, some, List, [], ◌∷◌, ◌++◌, All, arith, ==_refl,
}
use fcitx5_scribe.Error.{Error, Result, ok, unexpected, ConnectionConfig}
use fcitx5_scribe.Proto.{Bytes, Envelope}
use fcitx5_scribe.Protocol.{Crypto, Codec, generate_nonce, encode_frame, decode_frame}
use fcitx5_scribe.Io.State.{
  Shared, Task, await_command, start_connection, await_connect, await_hello_written,
  await_hello_header, await_hello_payload, start_read, Wakeup, returned, threw, received,
  connect_command, disconnect_command, send_command, authenticated, close_connection,
}
use fcitx5_scribe.Io.Handshake.{
  write_hello, begin_handshake, accept_hello, check_hello, finish_handshake, validate_server_hello,
  frame_size, bad_frame_size, client_hello,
}
use fcitx5_scribe.Io.Tasks.{resume}
use fcitx5_scribe.Io.Orderly.{is_worker, others, IsCurrent, Fits, IsHandshake, talk, opening, up}
use fcitx5_scribe.Io.Orderly.Picking.{others-waits, others-worker_waits}
use fcitx5_scribe.Io.Orderly.Steps.{
  Proceeds, if-Proceeds, talk_then, failure-Proceeds, quiet-Proceeds,
}

abbrev pub starting_state : Shared → Shared
starting_state s = record s {
  stopping = false;
  connection_active = true;
  connected = false;
  writer_running = false;
  outgoing_frames = [];
}

abbrev pub opening_state : ConnectionConfig → Shared → Shared
opening_state config s = record (starting_state s) {
  socket_open = true;
  current_config = some config;
}

-- The one coroutine that the connection has is the next one.
only :
    (ts : List Task) (x : Task)
    → is_worker x ≡ false
    → others ts ≡ []
    → others (ts ++ (x ∷ [])) ≡ x ∷ []
only ts x w e = others-waits ts x w ∙ ap (λ xs. xs ++ (x ∷ [])) e

nothing-Current : (a : ℕ) (ts : List Task) → others ts ≡ [] → All (IsCurrent a) (others ts)
nothing-Current a ts e = rw e tt

IsHandshake-IsCurrent : (a : ℕ) (x : Task) → IsHandshake a x → IsCurrent a x
IsHandshake-IsCurrent a x h = ground arith

-- The worker waits for the next command, and nothing else has changed.
opening_waits :
    (s : Shared) (config : ConnectionConfig) (x : Task)
    → talk (some false) s.published ≡ some false
    → others s.tasks ≡ x ∷ []
    → IsHandshake s.active_generation x
    → Proceeds (some (record (opening_state config s) { tasks = s.tasks ++ (await_command ∷ []) }))
opening_waits s config x t o h = (
  _,
  refl,
  (refl, t, opening (refl, refl, refl, refl, refl, refl, x, others-worker_waits s.tasks ∙ o, h)),
)

module _ (crypto : Crypto) (codec : Codec) where
  module _ (s : Shared) (t : talk (some false) s.published ≡ some false)
      (alone : others s.tasks ≡ []) where
    pub connection_begins :
        (g : ℕ) (config : ConnectionConfig) (w : Wakeup)
        → Fits (start_connection g config) w
        → Proceeds (resume crypto codec (start_connection g config) w (starting_state s))
    unfolding resume
    connection_begins g config (threw reason) f =
        failure-Proceeds _ false (record (starting_state s) { active_generation = g }) t
          (nothing-Current g s.tasks alone)
    connection_begins g config (returned code bytes) f = (
      _,
      refl,
      (
        refl,
        t,
        opening (
          refl,
          refl,
          refl,
          refl,
          refl,
          refl,
          await_connect g config,
          only s.tasks (await_connect g config) refl alone,
          refl,
        ),
      ),
    )
    connection_begins g config (received c) f = absurd f

    -- The next wait of the handshake.
    goes_on :
        (config : ConnectionConfig) (stored : Option Bytes) (x : Task)
        → is_worker x ≡ false
        → IsHandshake s.active_generation x
        → Proceeds (
            some (record (opening_state config s) {
              client_nonce = stored;
              tasks = s.tasks ++ (x ∷ []);
            }))
    goes_on config stored x w h = (
      _,
      refl,
      (refl, t, opening (refl, refl, refl, refl, refl, refl, x, only s.tasks x w alone, h)),
    )

    fails :
        (config : ConnectionConfig) (nonce : Option Bytes) (e : Error)
        → Proceeds (
            close_connection
              (some e)
              true
              (record (opening_state config s) { client_nonce = nonce }))
    unfolding close_connection
    fails config nonce e =
        failure-Proceeds e false (record (opening_state config s) { client_nonce = nonce }) t
          (nothing-Current s.active_generation s.tasks alone)

    hello_begins :
        (config : ConnectionConfig) (g : ℕ) (frame : Result Bytes) (nonce : Option Bytes)
        → g ≡ s.active_generation
        → Proceeds (
            write_hello crypto codec g frame
              (record (opening_state config s) { client_nonce = nonce }))
    unfolding write_hello
    hello_begins config g (ok frame) nonce e = goes_on config nonce (await_hello_written g) refl e
    hello_begins config g (unexpected e) nonce h = fails config nonce e

    handshake_begins :
        (config : ConnectionConfig) (g : ℕ) (nonce : Result Bytes)
        → g ≡ s.active_generation
        → Proceeds (begin_handshake crypto codec g nonce (opening_state config s))
    unfolding begin_handshake
    handshake_begins config g (ok nonce) e =
        hello_begins config g (encode_frame codec (client_hello crypto codec nonce)) (some nonce) e
    handshake_begins config g (unexpected e) h = fails config s.client_nonce _

    handshake_ends :
        (config : ConnectionConfig) (g : ℕ)
        → g ≡ s.active_generation
        → Proceeds (finish_handshake crypto codec g (opening_state config s))
    unfolding finish_handshake
    handshake_ends config g e = rw⁻¹ e (
        rw (==_refl g) (
          _,
          refl,
          (
            refl,
            talk_then s.published authenticated false t,
            up (
              refl,
              refl,
              refl,
              refl,
              start_read g,
              refl,
              [],
              (refl, refl, only s.tasks (start_read g) refl alone),
            ),
          ),
        ))

    answer_accepted :
        (config : ConnectionConfig) (g : ℕ) (r : Result (Unit {0}))
        → g ≡ s.active_generation
        → Proceeds (accept_hello crypto codec g r (opening_state config s))
    unfolding accept_hello
    answer_accepted config g (unexpected e) h = fails config s.client_nonce e
    answer_accepted config g (ok _) h = handshake_ends config g h

    answer_checked :
        (config : ConnectionConfig) (g : ℕ) (r : Result Envelope)
        → g ≡ s.active_generation
        → Proceeds (check_hello crypto codec g r (opening_state config s))
    unfolding check_hello
    answer_checked config g (unexpected e) h = fails config s.client_nonce e
    answer_checked config g (ok (Envelope.server_hello hello)) h =
        answer_accepted config g (validate_server_hello crypto hello (opening_state config s)) h
    answer_checked config g (ok _) h = fails config s.client_nonce _

    pub handshake_resumes :
        (config : ConnectionConfig) (x : Task) (w : Wakeup)
        → IsHandshake s.active_generation x
        → Fits x w
        → Proceeds (resume crypto codec x w (opening_state config s))
    unfolding resume
    handshake_resumes config (await_connect g target) (returned (some code) bytes) h f =
        fails config s.client_nonce _
    handshake_resumes config (await_connect g target) (returned none bytes) h f =
        handshake_begins config g (generate_nonce crypto) h
    handshake_resumes config (await_connect g target) (threw reason) h f =
        fails config s.client_nonce _
    handshake_resumes config (await_hello_written g) (returned (some code) bytes) h f =
        fails config s.client_nonce _
    handshake_resumes config (await_hello_written g) (returned none bytes) h f =
        goes_on config s.client_nonce (await_hello_header g) refl h
    handshake_resumes config (await_hello_header g) (returned (some code) bytes) h f =
        fails config s.client_nonce _
    handshake_resumes config (await_hello_header g) (returned none bytes) h f =
        if-Proceeds (bad_frame_size (frame_size bytes)) _ _ _ (fails config s.client_nonce _)
          (goes_on config s.client_nonce (await_hello_payload g (frame_size bytes)) refl h)
    handshake_resumes config (await_hello_payload g n) (returned (some code) bytes) h f =
        fails config s.client_nonce _
    handshake_resumes config (await_hello_payload g n) (returned none bytes) h f =
        answer_checked config g (decode_frame codec bytes) h
    handshake_resumes config x w h f = absurd (ground arith)

  pub command_while_opening :
      (s : Shared) (config : ConnectionConfig) (x : Task) (w : Wakeup)
      → talk (some false) s.published ≡ some false
      → others s.tasks ≡ x ∷ []
      → IsHandshake s.active_generation x
      → Fits await_command w
      → Proceeds (resume crypto codec await_command w (opening_state config s))
  unfolding resume
  command_while_opening s config x (received none) t o h f = opening_waits s config x t o h
  command_while_opening s config x (received (some (connect_command other))) t o h f =
      opening_waits s config x t o h
  command_while_opening s config x (received (some disconnect_command)) t o h f =
      quiet-Proceeds (record (opening_state config s) { tasks = s.tasks ++ (await_command ∷ []) }) t
        (rw (others-worker_waits s.tasks, o) (IsHandshake-IsCurrent s.active_generation x h, tt))
  command_while_opening s config x (received (some (send_command frame))) t o h f =
      opening_waits s config x t o h
  command_while_opening s config x w t o h f = absurd f
