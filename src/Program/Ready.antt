-- ===== src/Program/Ready.antt =====
-- When the engine takes the connection for ready.
use fcitx5_scribe.Common.{
  ◌≡◌, refl, sym, ◌∙◌, Bool, true, false, Option, none, some, String, List, [], ◌∷◌, ◌++◌, All,
  arith,
}
use fcitx5_scribe.Proto.{Bytes}
use fcitx5_scribe.Engine.Event.{Event}
use fcitx5_scribe.Engine.State.{Engine, ready}
use fcitx5_scribe.Engine.Handlers.{handle}
use fcitx5_scribe.Engine.Run.{run}
use fcitx5_scribe.Addon.FollowUps.{IsFollowUp}
use fcitx5_scribe.Addon.Preserving.{IsLocal}
use fcitx5_scribe.Io.State.{
  Publication, authenticated, closed, failure, commit_text, vad_timeout, protocol_error,
}
use fcitx5_scribe.Io.Orderly.{hear_next, talk}
use fcitx5_scribe.Io.Orderly.Picking.{talk-append}
use fcitx5_scribe.Program.{event_of}

-- After the event the engine may be ready, from this state.
abbrev pub MayBeReady : Event → Engine → Type 0
MayBeReady Event.connection_authenticated s = Unit
MayBeReady Event.connection_closed s = ⊥
MayBeReady (Event.connection_failed e) s = ⊥
MayBeReady _ s = s.connection_state ≡ ready

module _ (uuid_to_string : Bytes → String) where
  handle-ready :
      (e : Event) (s : Engine)
      → (handle uuid_to_string e s).0.connection_state ≡ ready
      → MayBeReady e s
  unfolding handle
  handle-ready (Event.toggle c focused) s h = ground arith
  handle-ready (Event.connection_configured c) s h = ground arith
  handle-ready (Event.focus_in c) s h = ground arith
  handle-ready (Event.focus_out c) s h = ground arith
  handle-ready (Event.context_destroyed c) s h = ground arith
  handle-ready _ s h = ground arith

  FollowUp-ready :
      (e : Event) (s : Engine) → IsFollowUp e → MayBeReady e s → s.connection_state ≡ ready
  FollowUp-ready e s f h = ground arith

  run-ready :
      (es : List Event) (s : Engine)
      → All IsFollowUp es
      → (run uuid_to_string es s).0.connection_state ≡ ready
      → s.connection_state ≡ ready
  unfolding run
  run-ready [] s f h = h
  run-ready (e ∷ es) s (f, fs) h =
      FollowUp-ready e s f (handle-ready e s (run-ready es (handle uuid_to_string e s).0 fs h))

  -- The event and what follows it.
  pub handled-ready :
      (e : Event) (es : List Event) (s t : Engine)
      → All IsFollowUp es
      → t ≡ (run uuid_to_string (e ∷ es) s).0
      → t.connection_state ≡ ready
      → MayBeReady e s
  unfolding run
  handled-ready e es s t f same h =
      handle-ready e s (run-ready es (handle uuid_to_string e s).0 f (rw⁻¹ same h))

pub local-ready : (e : Event) (s : Engine) → IsLocal e → MayBeReady e s → s.connection_state ≡ ready
local-ready e s l h = ground arith

hear-ready :
    (q : Publication) (o : Option Bool) (b : Bool) (s : Engine)
    → (s.connection_state ≡ ready → o ≡ some true)
    → hear_next q o ≡ some b
    → MayBeReady (event_of q) s
    → hear_next q o ≡ some true
hear-ready authenticated none b s h k m = cc
hear-ready authenticated (some true) b s h k m = cc
hear-ready authenticated (some false) b s h k m = refl
hear-ready closed o b s h k m = absurd m
hear-ready (failure e) o b s h k m = absurd m
hear-ready (commit_text c) o b s h k m = rw (h m) refl
hear-ready (vad_timeout c) o b s h k m = rw (h m) refl
hear-ready (protocol_error c) o b s h k m = rw (h m) refl

-- A callback that leaves the engine ready is heard while there is a connection.
pub heard-ready :
    (q : Publication) (ps : List Publication) (b : Bool) (s : Engine)
    → (s.connection_state ≡ ready → talk (some false) ps ≡ some true)
    → talk (some false) (ps ++ (q ∷ [])) ≡ some b
    → MayBeReady (event_of q) s
    → talk (some false) (ps ++ (q ∷ [])) ≡ some true
heard-ready q ps b s h k m =
    let e = talk-append (some false) ps q in
    e ∙ hear-ready q (talk (some false) ps) b s h (sym e ∙ k) m

talk-none : (ps : List Publication) → talk none ps ≡ none
talk-none [] = refl
talk-none (p ∷ ps) = talk-none ps

talk-split : (o : Option Bool) (ps qs : List Publication) → talk o (ps ++ qs) ≡ talk (talk o ps) qs
talk-split o [] qs = refl
talk-split o (p ∷ ps) qs = talk-split (hear_next p o) ps qs

first_heard :
    (o : Option Bool) (qs : List Publication) (b : Bool)
    → talk o qs ≡ some b
    → (c : Bool) × (o ≡ some c)
first_heard none qs b h = absurd (ground (arith, talk-none qs))
first_heard (some c) qs b h = (c, refl)

-- What comes first is in its place.
pub talk-first :
    (ps qs : List Publication) (q : Publication) (b : Bool)
    → talk (some false) (ps ++ (q ∷ qs)) ≡ some b
    → (c : Bool) × (talk (some false) (ps ++ (q ∷ [])) ≡ some c)
talk-first ps qs q b h =
    let (c, e) =
      first_heard (hear_next q (talk (some false) ps)) qs b
        (sym (talk-split (some false) ps (q ∷ qs)) ∙ h) in
    (c, talk-append (some false) ps q ∙ e)
