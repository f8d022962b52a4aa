-- ===== src/Lib.antt =====
-- fcitx5-scribe is an addon for the input method framework fcitx. A key toggles a transcription: the
-- addon connects to a transcriber over a Unix socket, authenticates it, starts a session, and writes
-- the texts that the transcriber sends into the focused input context.
--
-- The parts, and the files that model them (paths without a directory are below src/addon):
--
--   Error, Proto, Util   error.hpp, types.hpp, util.cpp and src/proto/scribe/v0/scribe.proto. A message
--                        is a record with the fields of the generated class.
--   Engine               engine.hpp and engine.cpp, the state machine without I/O. Event has the inputs
--                        and the effects, State the fields of `Engine` and its small methods, Session
--                        those that start and end sessions (`tryStartPending`, `interruptSession`,
--                        `handleCommitText`), Handlers `handle` and the overloads of `handleEvent`. A
--                        method is an action: from a state to the next one and to the effects that it
--                        appends. Spec is a protocol of five phases, written apart from the code;
--                        Refinement and Run relate the two.
--   Protocol             protocol.cpp: session identifiers, nonces, the proof of the server, frames.
--   Config               config.hpp and config.cpp: the options, and where the socket path and the token
--                        come from.
--   Io                   io.cpp, the actor on its own thread. State has the fields of `SharedState` and
--                        `closeConnection`, Handshake `authenticate` and `validateServerHello`, Tasks
--                        the coroutines, Commands the methods that the thread of fcitx calls. A
--                        suspended coroutine is a value of `Task`, and `resume` runs it to its next
--                        wait, given how the wait ended; `none` is undefined behaviour of C++. System
--                        has the steps in any order, and Authenticity where the messages come from in
--                        them; Orderly has the executions in which the commands come in turn, and what
--                        the actor keeps to in them. Link is what the actor promises, without
--                        generations, sockets and coroutines: a link that is idle, opens, or serves a
--                        queue of frames.
--   Addon                addon.cpp: Contexts has the table of input contexts, Dispatch the queue of
--                        `dispatch` and the `apply` overloads, Handlers the callbacks, History
--                        the constructor and sequences of callbacks. The transport is an interface of three operations over any
--                        state.
--   Program              the addon over the actor: `connect`, `disconnect` and `send` of Io fill that
--                        interface, and the callbacks that `Addon::Addon` gives to `Io` dispatch the
--                        publications, the oldest first. Tests runs a session from the key to the text.
--                        Going here and in Io/Orderly has executions between two states, for what
--                        happens when the waits end as given; Opening follows one from the toggle key
--                        to the session, Liveness from the bytes in the socket to the text.
--
-- The addon feeds events to the engine and carries out its effects: it calls `Io::connect`,
-- `Io::disconnect` and `Io::send`, and commits texts. Io calls back with the publications of its state,
-- each of which the addon dispatches as an event.
--
-- Numbers are natural numbers; `uint64_t` counters wrap modulo 2^64 (sequence numbers, generations,
-- identifiers of contexts), the length of a frame modulo 2^32. Bytes are lists of numbers, texts are
-- strings, whose size in bytes is that in UTF-8. Hash maps and the bimap are association lists. The
-- loop of `dispatch` runs on fuel, four rounds; three are enough for every event, since a failure of
-- the transport has no consequence that can fail, and the loss of a context none but a failed
-- message. All other recursion is structural.
--
-- Parameters stand for code outside the repository: OpenSSL (`Crypto`), the generated protobuf classes
-- (`Codec`), `getenv`, `wordexp` and the configuration files (`Platform`, and functions for what is
-- read), the printing of UUIDs by Boost, and how waits of Asio end. Whether the channel of commands is
-- full is an argument. The generator of session identifiers is a function of the number of its call.
--
-- Coroutines resume in any order in Io/System. Io/Orderly assumes what one thread that runs handlers
-- in the order in which they were posted gives to waits that end at once: the next command is handed
-- out only when the coroutines of earlier connections have ended and that of a new one has begun, and
-- a wait that a close has cancelled ends with an error. Io/Races shows what an execution that leaves
-- this order may do.
--
-- Not modelled: how fcitx compares a key with the list of toggle keys (a key event carries the answer
-- of `checkKeyList` for each list, and a key of the list is the text that stands for it in the file);
-- the weak references from the actor to its owner; the memory order of the flag `connected`; threads
-- other than as interleaved steps; factory.cpp, the build files and tools/poc_transcriber.py.
mod Common
pub mod Error
pub mod Proto
pub mod Util
pub mod Engine
pub mod Protocol
pub mod Config
pub mod Io
pub mod Addon
pub mod Program
