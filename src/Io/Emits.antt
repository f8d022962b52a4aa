-- ===== src/Io/Emits.antt =====
-- What a coroutine publishes does not depend on what was published before.
use mathlib.Core.List.{append-nil}
use fcitx5_scribe.Common.{◌≡◌, Option, none, some, List, [], ◌++◌, arith}
use fcitx5_scribe.Protocol.{Crypto, Codec}
use fcitx5_scribe.Io.State.{
  Shared, Publication, Task, await_command, await_hello_payload, Wakeup, close_connection,
}
use fcitx5_scribe.Io.Handshake.{validate_server_hello}
use fcitx5_scribe.Io.Tasks.{resume}

abbrev pub quiet : Shared → Shared
quiet s = record s { published = [] }

-- The same, after these publications.
abbrev pub late : List Publication → Option Shared → Option Shared
late ps none = none
late ps (some u) = some (record u { published = ps ++ u.published })

module _ (crypto : Crypto) (codec : Codec) where
  pub resume-quiet :
      (t : Task) (w : Wakeup) (s : Shared)
      → resume crypto codec t w s ≡ late s.published (resume crypto codec t w (quiet s))
  unfolding resume close_connection validate_server_hello
  resume-quiet await_command w s = ground (arith, append-nil s.published)
  resume-quiet (await_hello_payload g n) w s = ground (arith, append-nil s.published)
  resume-quiet _ w s = ground (arith, append-nil s.published)
