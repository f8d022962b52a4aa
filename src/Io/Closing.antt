-- ===== src/Io/Closing.antt =====
-- Closing a connection.
use fcitx5_scribe.Common.{
  ◌+◌, ◌%◌, ◌^◌, ◌≡◌, Bool, true, false, Option, none, some, List, [], ◌∷◌, ◌++◌, arith,
  if◌then◌else◌,
}
use mathlib.Core.List.{append-nil}
use fcitx5_scribe.Error.{Error}
use fcitx5_scribe.Io.State.{
  Shared, Publication, closed, failure, had_connection, reset_generation, close_connection,
}

abbrev report_close : Bool → List Publication
report_close true = closed ∷ []
report_close false = []

-- What a close tells the engine: the failure, if there is one to report and the actor does not stop;
-- otherwise the end of an authenticated connection.
abbrev pub report : Option Error → Bool → Shared → List Publication
report (some e) true s = if s.stopping then report_close s.connected else failure e ∷ []
report (some e) false s = report_close s.connected
report none wanted s = report_close s.connected

-- A closed connection leaves nothing to write or to authenticate with.
pub record IsClosed (s : Shared) : Type 0 where
  pub inactive : had_connection s ≡ false
  pub no_frames : s.outgoing_frames ≡ []
  pub no_config : s.current_config ≡ none
  pub no_nonce : s.client_nonce ≡ none

-- A close of a connection leaves nothing of it, moves to a new generation, reports exactly one
-- terminal event, or none for a connection that was not authenticated and has no failure to report,
-- and closing again, for whatever reason, does nothing.
pub close_connection_once :
    (error again : Option Error) (wanted wanted_again : Bool) (s : Shared)
    → had_connection s ≡ true
    → (t : Shared) × (close_connection error wanted s ≡ some t)
      × IsClosed t
      × (t.published ≡ s.published ++ report error wanted s)
      × (t.active_generation ≡ (s.active_generation + 1) % 2 ^ 64)
      × (close_connection again wanted_again t ≡ some t)
unfolding close_connection
close_connection_once error again wanted wanted_again s h = (
  record (reset_generation s) { published = s.published ++ report error wanted s },
  ground (arith, append-nil s.published),
  ground arith,
  ground arith,
  ground arith,
  ground arith,
)
