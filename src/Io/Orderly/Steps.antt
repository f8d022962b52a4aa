-- ===== src/Io/Orderly/Steps.antt =====
-- The states in which a step starts and ends. Those where it starts are written out field by field, so
-- that the code computes on them.
use fcitx5_scribe.Common.{
  ℕ, ◌+◌, ◌%◌, ◌^◌, ◌≡◌, refl, ap, ◌∙◌, Bool, true, false, Option, none, some, List, [], ◌∷◌, ◌++◌,
  All, arith, if◌then◌else◌,
}
use fcitx5_scribe.Error.{Error}
use fcitx5_scribe.Io.State.{Shared, Publication, closed, failure, Task, Action}
use fcitx5_scribe.Io.Orderly.{others, IsCurrent, IsStale, talk, hear_next, Situation, down}
use fcitx5_scribe.Io.Orderly.Picking.{talk-append}

-- The state of an actor that runs.
abbrev pub IsGood : Shared → Type 0
IsGood s = (s.stopping ≡ false) × (talk (some false) s.published ≡ some s.connected) × Situation s

abbrev pub Proceeds : Option Shared → Type 0
Proceeds o = (u : Shared) × (o ≡ some u) × IsGood u

pub if-Proceeds :
    (b : Bool) (m k : Action) (s : Shared)
    → Proceeds (m s)
    → Proceeds (k s)
    → Proceeds ((if b then m else k) s)
if-Proceeds true m k s x y = x
if-Proceeds false m k s x y = y

pub talk_then :
    (ps : List Publication) (p : Publication) (c : Bool)
    → talk (some false) ps ≡ some c
    → talk (some false) (ps ++ (p ∷ [])) ≡ hear_next p (some c)
talk_then ps p c t = talk-append (some false) ps p ∙ ap (hear_next p) t

IsStale-after :
    (a : ℕ) (ts : List Task) → All (IsCurrent a) ts → All (IsStale ((a + 1) % 2 ^ 64)) ts
IsStale-after a [] h = tt
IsStale-after a (t ∷ ts) h = ((a, h.0, λ e. omega arith), IsStale-after a ts h.1)

abbrev pub no_connection : Shared → Shared
no_connection s = record s {
  stopping = false;
  connection_active = false;
  connected = false;
  socket_open = false;
  writer_running = false;
  outgoing_frames = [];
}

-- What a close makes of a state, with what it publishes.
abbrev pub after_close : List Publication → Shared → Shared
after_close ps s = record (no_connection s) {
  active_generation = (s.active_generation + 1) % 2 ^ 64;
  current_config = none;
  client_nonce = none;
  published = ps;
}

-- All coroutines of the connection are current.
abbrev pub Current : Shared → Type 0
Current s = All (IsCurrent s.active_generation) (others s.tasks)

closed-Proceeds :
    (ps : List Publication) (s : Shared)
    → talk (some false) ps ≡ some false
    → Current s
    → Proceeds (some (after_close ps s))
closed-Proceeds ps s t h = (
  after_close ps s,
  refl,
  (
    refl,
    t,
    down (refl, refl, refl, refl, refl, IsStale-after s.active_generation (others s.tasks) h),
  ),
)

-- A close with a failure, and one without, of a connection that was authenticated.
pub failure-Proceeds :
    (e : Error) (c : Bool) (s : Shared)
    → talk (some false) s.published ≡ some c
    → Current s
    → Proceeds (some (after_close (s.published ++ (failure e ∷ [])) s))
failure-Proceeds e c s t = closed-Proceeds _ s (talk_then s.published (failure e) c t)

pub end-Proceeds :
    (s : Shared)
    → talk (some false) s.published ≡ some true
    → Current s
    → Proceeds (some (after_close (s.published ++ (closed ∷ [])) s))
end-Proceeds s t = closed-Proceeds _ s (talk_then s.published closed true t)

pub quiet-Proceeds :
    (s : Shared)
    → talk (some false) s.published ≡ some false
    → Current s
    → Proceeds (some (after_close s.published s))
quiet-Proceeds s t = closed-Proceeds _ s t
