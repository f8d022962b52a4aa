-- ===== src/Io/System.antt =====
-- The actor among its callers: what the thread of fcitx does, and which coroutine resumes next, is
-- left open.
use fcitx5_scribe.Common.{
  ℕ, ◌≡◌, ◌≢◌, Bool, true, false, Option, none, some, List, [], ◌∷◌, ◌++◌, arith, has_value,
}
use fcitx5_scribe.Error.{Result, ok, ConnectionConfig}
use fcitx5_scribe.Proto.{Bytes, Envelope}
use fcitx5_scribe.Protocol.{Crypto, Codec}
use fcitx5_scribe.Io.State.{
  Shared, ErrorCode, Command, Task, await_command, await_hello_payload, Wakeup, received, returned,
  threw, init, close_connection,
}
use fcitx5_scribe.Io.Handshake.{check_hello, hello_payload}
use fcitx5_scribe.Io.Validation.{validated-config}
use fcitx5_scribe.Io.Tasks.{resume}
use fcitx5_scribe.Io.Commands.{connect, disconnect, send, stop}

abbrev pub drop_first : List Command → List Command
drop_first [] = []
drop_first (c ∷ cs) = cs

abbrev pub IsFirst : Command → List Command → Type 0
IsFirst c [] = ⊥
IsFirst c (d ∷ cs) = c ≡ d

-- A received command is the oldest in the channel; other waits end as the environment likes.
abbrev pub MayWake : Wakeup → Shared → Type 0
MayWake (received (some c)) s = IsFirst c s.commands
MayWake (received none) s = s.channel_closed ≡ true
MayWake (returned code bytes) s = Unit
MayWake (threw reason) s = Unit

-- The coroutine is taken out of those that wait, and its command out of the channel.
abbrev pub taken : List Task → Wakeup → Shared → Shared
taken rest (received (some c)) s = record s { tasks = rest; commands = drop_first s.commands }
taken rest _ s = record s { tasks = rest }

module _ (crypto : Crypto) (codec : Codec) where
  pub data Step (s : Shared) : Shared → Type 0 where
    connects : (queued : Bool) (config : ConnectionConfig) → Step s (connect queued config s).1
    disconnects : (queued : Bool) → Step s (disconnect queued s).1
    sends : (queued : Bool) (e : Envelope) → Step s (send codec queued e s).1
    stops : Step s (stop s)
    resumes :
        (before others : List Task) (t : Task) (w : Wakeup) {u : Shared}
        → s.tasks ≡ before ++ (t ∷ others)
        → s.context_stopped ≡ false
        → MayWake w s
        → resume crypto codec t w (taken (before ++ others) w s) ≡ some u
        → Step s u

  pub data Reach : Shared → Type 0 where
    start : Reach init
    later : {s u : Shared} → Reach s → Step s u → Reach u

  -- A frame waits only for an authenticated connection, and that has a configuration.
  pub record IsSafe (s : Shared) : Type 0 where
    pub frames_connected : s.outgoing_frames ≢ [] → s.connected ≡ true
    pub connected_config : s.connected ≡ true → has_value s.current_config ≡ true

  taken-IsSafe : (rest : List Task) (w : Wakeup) (s : Shared) → IsSafe s → IsSafe (taken rest w s)
  taken-IsSafe rest w s v = ground arith

  check_hello-IsSafe :
      (g : ℕ) (r : Result Envelope) (s u : Shared)
      → IsSafe s
      → check_hello crypto codec g r s ≡ some u
      → IsSafe u
  unfolding check_hello close_connection
  check_hello-IsSafe g (ok (Envelope.server_hello hello)) s u v h =
      ground (arith, validated-config crypto hello s tt)
  check_hello-IsSafe g _ s u v h = ground arith

  hello_payload-IsSafe :
      (g : ℕ) (code : Option ErrorCode) (payload : Bytes) (s u : Shared)
      → IsSafe s
      → hello_payload crypto codec g code payload s ≡ some u
      → IsSafe u
  unfolding hello_payload close_connection
  hello_payload-IsSafe g (some code) payload s u v h = ground arith
  hello_payload-IsSafe g none payload s u v h = check_hello-IsSafe g _ s u v h

  resume-IsSafe :
      (t : Task) (w : Wakeup) (s u : Shared)
      → IsSafe s
      → resume crypto codec t w s ≡ some u
      → IsSafe u
  unfolding resume
  resume-IsSafe await_command w s u v h = ground arith
  resume-IsSafe (await_hello_payload g n) (returned code payload) s u v h =
      hello_payload-IsSafe g code payload s u v h
  resume-IsSafe _ w s u v h = ground arith

  Step-IsSafe : {s u : Shared} → Step s u → IsSafe s → IsSafe u
  unfolding connect disconnect send stop
  Step-IsSafe (connects queued config) v = ground arith
  Step-IsSafe (disconnects queued) v = ground arith
  Step-IsSafe (sends queued e) v = ground arith
  Step-IsSafe stops v = ground arith
  Step-IsSafe {s} {u} (resumes before others t w at running may h) v =
      resume-IsSafe t w (taken (before ++ others) w s) u (taken-IsSafe (before ++ others) w s v) h

  -- In every order of calls and resumptions: frames wait to be written only while the connection is
  -- authenticated, and an authenticated connection has its configuration.
  pub Reach-IsSafe : {s : Shared} → Reach s → IsSafe s
  unfolding init
  Reach-IsSafe start = ground arith
  Reach-IsSafe (later r st) = Step-IsSafe st (Reach-IsSafe r)
