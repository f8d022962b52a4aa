-- ===== src/Io/Connecting.antt =====
-- From a connect command to an authenticated connection.
use fcitx5_scribe.Common.{
  ℕ, ◌+◌, ◌%◌, ◌^◌, ◌≡◌, refl, inl, false, true, none, some, List, [], ◌∷◌, ◌++◌, arith,
}
use fcitx5_scribe.Error.{ok, ConnectionConfig}
use fcitx5_scribe.Proto.{Bytes, Envelope, ServerHello}
use fcitx5_scribe.Protocol.{Crypto, Codec, encode_frame, decode_frame, generate_nonce, nonce_size}
use fcitx5_scribe.Io.State.{
  Shared, Command, authenticated, connect_command, Task, await_command, start_connection,
  await_connect, await_hello_written, await_hello_header, await_hello_payload, start_read, Wakeup,
  returned, received,
}
use fcitx5_scribe.Io.Handshake.{client_hello, frame_size, bad_frame_size}
use fcitx5_scribe.Io.Validation.{IsGenuine, validate_server_hello-eq-ok}
use fcitx5_scribe.Io.Tasks.{resume}
use fcitx5_scribe.Io.System.{taken}
use fcitx5_scribe.Io.Orderly.Going.{Goes, stays, goes}

abbrev pub worker : List Task
worker = await_command ∷ []

abbrev pub fresh : Shared → ℕ
fresh s = (s.generation_counter + 1) % 2 ^ 64

-- How the waits of a connection that is authenticated end, the reads with these bytes.
abbrev pub establishes : ℕ → ConnectionConfig → Bytes → Bytes → List (Task × Wakeup)
establishes g config header payload =
    (await_command, received (some (connect_command config)))
    ∷ (start_connection g config, returned none [])
    ∷ (await_connect g config, returned none [])
    ∷ (await_hello_written g, returned none [])
    ∷ (await_hello_header g, returned none header)
    ∷ (await_hello_payload g (frame_size header), returned none payload)
    ∷ []

-- A new generation with this coroutine beside the worker, before and after its socket is open.
abbrev claimed : List Command → Shared → Shared
claimed rest s = record s {
  commands = rest;
  connection_active = true;
  generation_counter = fresh s;
}

abbrev dialled : List Command → ConnectionConfig → Shared → Shared
dialled rest config s = record (claimed rest s) {
  active_generation = fresh s;
  current_config = some config;
  socket_open = true;
}

abbrev greeted : List Command → ConnectionConfig → Bytes → Shared → Shared
greeted rest config nonce s = record (dialled rest config s) { client_nonce = some nonce }

abbrev beside_worker : Task → Shared → Shared
beside_worker t s = record s { tasks = await_command ∷ t ∷ [] }

-- The new connection is authenticated and its reader starts.
abbrev pub established : List Command → ConnectionConfig → Shared → Shared
established rest config s = beside_worker (start_read (fresh s)) (record (dialled rest config s) {
  client_nonce = none;
  connected = true;
  published = s.published ++ (authenticated ∷ []);
})

module _ (crypto : Crypto) (codec : Codec) where
  abbrev ResumesTo : List Task → Task → Bytes → Shared → Shared → Type 0
  ResumesTo waiting t bytes s u =
      resume crypto codec t (returned none bytes) (taken waiting (returned none bytes) s) ≡ some u

  command_taken :
      (config : ConnectionConfig) (rest : List Command) (s : Shared)
      → s.stopping ≡ false
      → s.connection_active ≡ false
      → s.commands ≡ connect_command config ∷ rest
      → let w = received (some (connect_command config)) in
        resume crypto codec await_command w (taken [] w s)
        ≡ some (record (claimed rest s) { tasks = start_connection (fresh s) config ∷ worker })
  unfolding resume
  command_taken config rest s r i c = ground arith

  connecting_begun :
      (config : ConnectionConfig) (g : ℕ) (s : Shared)
      → ResumesTo worker (start_connection g config) [] s (
          beside_worker
            (await_connect g config)
            (record s { active_generation = g; current_config = some config; socket_open = true }))
  unfolding resume
  connecting_begun config g s = ground arith

  hello_begun :
      (config : ConnectionConfig) (nonce frame : Bytes) (g : ℕ) (s : Shared)
      → s.active_generation ≡ g
      → s.stopping ≡ false
      → s.socket_open ≡ true
      → s.current_config ≡ some config
      → crypto.rand_bytes nonce_size ≡ some nonce
      → encode_frame codec (client_hello crypto codec nonce) ≡ ok frame
      → ResumesTo worker
          (await_connect g config)
          []
          s
          (beside_worker (await_hello_written g) (record s { client_nonce = some nonce }))
  unfolding resume generate_nonce
  hello_begun config nonce frame g s a r o c d e = ground arith

  hello_sent :
      (config : ConnectionConfig) (g : ℕ) (s : Shared)
      → s.current_config ≡ some config
      → ResumesTo worker (await_hello_written g) [] s (beside_worker (await_hello_header g) s)
  unfolding resume
  hello_sent config g s c = ground arith

  answer_announced :
      (config : ConnectionConfig) (header : Bytes) (g : ℕ) (s : Shared)
      → s.current_config ≡ some config
      → bad_frame_size (frame_size header) ≡ false
      → ResumesTo worker
          (await_hello_header g)
          header
          s
          (beside_worker (await_hello_payload g (frame_size header)) s)
  unfolding resume
  answer_announced config header g s c b = ground arith

  answer_accepted :
      (config : ConnectionConfig) (nonce payload : Bytes) (hello : ServerHello) (g size : ℕ)
      (s : Shared)
      → s.active_generation ≡ g
      → s.current_config ≡ some config
      → s.client_nonce ≡ some nonce
      → s.stopping ≡ false
      → s.socket_open ≡ true
      → IsGenuine crypto config nonce hello
      → codec.parse_from_array payload ≡ some (Envelope.server_hello hello)
      → ResumesTo worker (await_hello_payload g size) payload s (
          beside_worker (start_read g) (record s {
            client_nonce = none;
            connected = true;
            published = s.published ++ (authenticated ∷ []);
          }))
  unfolding resume decode_frame
  answer_accepted config nonce payload hello g size s a c n r o genuine parsed =
      let t : Shared = record s { tasks = worker } in
      ground (arith, (validate_server_hello-eq-ok crypto config nonce hello t c n).1 genuine)

  -- A connect command to an idle, running actor leads to an authenticated connection, if connecting,
  -- the nonce and the hello succeed, the peer answers in a frame of an admitted length with a genuine
  -- `ServerHello`, and nothing else happens in between: the new generation is current and its reader
  -- starts, the worker waits for the next command, and the engine is told once.
  pub establish_authenticates :
      (config : ConnectionConfig) (nonce header payload frame : Bytes) (hello : ServerHello)
      (rest : List Command) (s : Shared)
      → s.tasks ≡ worker
      → s.commands ≡ connect_command config ∷ rest
      → s.stopping ≡ false
      → s.context_stopped ≡ false
      → s.connection_active ≡ false
      → crypto.rand_bytes nonce_size ≡ some nonce
      → encode_frame codec (client_hello crypto codec nonce) ≡ ok frame
      → bad_frame_size (frame_size header) ≡ false
      → codec.parse_from_array payload ≡ some (Envelope.server_hello hello)
      → IsGenuine crypto config nonce hello
      → Goes crypto codec s
          (establishes (fresh s) config header payload)
          (established rest config s)
  establish_authenticates config nonce header payload frame hello rest s waits c r x i d e b p
        genuine =
      let g = fresh s in
      goes [] [] await_command (received (some (connect_command config)))
        (record { waits = waits; runs = x; may = rw c refl; fits = tt; turn = tt })
        (command_taken config rest s r i c)
        (goes [] worker (start_connection g config) (returned none [])
          (record { waits = refl; runs = x; may = tt; fits = tt; turn = tt })
          (connecting_begun config g (claimed rest s))
          (goes worker [] (await_connect g config) (returned none [])
            (record { waits = refl; runs = x; may = tt; fits = tt; turn = inl refl })
            (hello_begun config nonce frame g (dialled rest config s) refl r refl refl d e)
            (goes worker [] (await_hello_written g) (returned none [])
              (record { waits = refl; runs = x; may = tt; fits = tt; turn = inl refl })
              (hello_sent config g (greeted rest config nonce s) refl)
              (goes worker [] (await_hello_header g) (returned none header)
                (record { waits = refl; runs = x; may = tt; fits = tt; turn = inl refl })
                (answer_announced config header g (greeted rest config nonce s) refl b)
                (goes worker [] (await_hello_payload g (frame_size header)) (returned none payload)
                  (record { waits = refl; runs = x; may = tt; fits = tt; turn = inl refl })
                  (answer_accepted config nonce payload hello g (frame_size header)
                    (greeted rest config nonce s) refl refl refl r refl genuine p)
                  stays)))))
