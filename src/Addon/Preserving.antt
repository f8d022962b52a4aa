-- ===== src/Addon/Preserving.antt =====
-- What every call of fcitx preserves, given that the pieces of the addon do (addon.cpp).
use mathlib.Core.Option
use fcitx5_scribe.Common.{
  ◌≡◌, refl, Bool, not, true, false, Option, none, some, String, List, if◌then◌else◌,
}
use fcitx5_scribe.Error.{Result, ok, unexpected, ContextId}
use fcitx5_scribe.Proto.{Bytes}
use fcitx5_scribe.Config.{Config, connection_config, ResolvedConnectionConfig}
use fcitx5_scribe.Engine.Event.{Event, LogLevel}
use fcitx5_scribe.Addon.State.{Addon, World, InputContext, Transport}
use fcitx5_scribe.Addon.Contexts.{ensure_context_id, find_context_id, erase_context}
use fcitx5_scribe.Addon.Handlers.{
  KeyEvent, handle_key_event, toggle_context, destroy, reload_with, reload_resolved_config,
}
use fcitx5_scribe.Addon.History.{
  Call, key_event, focus_in, focus_out, destroyed, reload, set, from_transport, perform,
}
use fcitx5_scribe.Addon.Dispatch.{dispatch}

-- The events that the addon makes itself, for fcitx.
abbrev pub IsLocal : Event → Type 0
IsLocal (Event.toggle c focused) = Unit
IsLocal (Event.focus_in c) = Unit
IsLocal (Event.focus_out c) = Unit
IsLocal (Event.context_destroyed c) = Unit
IsLocal (Event.connection_configured c) = Unit
IsLocal _ = ⊥

abbrev pub IsFcitx : Call → Type 0
IsFcitx (from_transport e) = ⊥
IsFcitx _ = Unit

module _ {T : Type 0} where
  -- It returns an addon with this property.
  abbrev pub Ends : (Addon T → Type 0) → Option (Addon T) → Type 0
  Ends Q o = (b : Addon T) × (o ≡ some b) × Q b

  abbrev pub after : Option (Bool × Addon T) → Option (Addon T)
  after o = Option.map (λ r. r.1) o

  -- A call starts with the first property and ends with the second; an identifier may be allocated.
  pub record Preserves (w : World T) (P Q : Addon T → Type 0) : Type 0 where
    pub weakens : (a : Addon T) → P a → Q a
    pub ensures : (c : InputContext) (a : Addon T) → P a → Q (ensure_context_id c a).1
    pub erases : (c : ContextId) (a : Addon T) → Q a → Q (erase_context c a)
    pub settles :
        (config : Config) (logged : List (LogLevel × String)) (a : Addon T)
        → Q a
        → Q (record a { config = config; logged = logged })
    pub dispatches : (e : Event) (a : Addon T) → IsLocal e → Q a → Ends Q (after (dispatch w e a))

  module _ (w : World T) (P Q : Addon T → Type 0) (p : Preserves w P Q) where
    if-Ends :
        (b : Bool) (x y : Option (Bool × Addon T))
        → Ends Q (after x)
        → Ends Q (after y)
        → Ends Q (after (if b then x else y))
    if-Ends true x y h k = h
    if-Ends false x y h k = k

    toggle-Ends :
        (focused : Bool) (o : Option InputContext) (a : Addon T)
        → P a
        → Ends Q (after (toggle_context w focused o a))
    unfolding toggle_context
    toggle-Ends focused none a q = (a, refl, p.weakens a q)
    toggle-Ends focused (some c) a q = p.dispatches _ _ tt (p.ensures c a q)

    key-Ends : (k : KeyEvent) (a : Addon T) → P a → Ends Q (after (handle_key_event w k a))
    unfolding handle_key_event
    key-Ends k a q =
        let ignored : Ends Q (some a) = (a, refl, p.weakens a q) in
        let toggled = toggle_context w k.has_focus k.input_context a in
        let pressed =
          if not (k.check_key_list a.config.values.toggle_transcription_key)
          then some (false, a)
          else toggled in
        if-Ends k.is_release (some (false, a)) pressed ignored (
          if-Ends (not (k.check_key_list a.config.values.toggle_transcription_key))
            (some (false, a)) toggled ignored (toggle-Ends k.has_focus k.input_context a q))

    destroy-Ends : (o : Option ContextId) (a : Addon T) → Q a → Ends Q (destroy w o a)
    destroy-Ends none a q = (a, refl, q)
    destroy-Ends (some id) a q =
        let (b, ended, k) = p.dispatches (Event.context_destroyed id) a tt q in
        (erase_context id b, rw ended refl, p.erases id b k)

    reload_with-Ends :
        (r : Result ResolvedConnectionConfig) (a : Addon T) → Q a → Ends Q (reload_with w r a)
    unfolding reload_with
    reload_with-Ends (ok r) a q = p.dispatches _ _ tt (p.settles a.config _ a q)
    reload_with-Ends (unexpected e) a q = p.dispatches _ a tt q

    reload-Ends : (a : Addon T) → Q a → Ends Q (reload_resolved_config w a)
    unfolding reload_resolved_config
    reload-Ends a q = reload_with-Ends (connection_config w.platform a.config) a q

    -- A call of fcitx returns, and preserves the properties.
    pub call-Ends :
        (uuid_to_string : Bytes → String) (transport : Transport T) (c : Call) (a : Addon T)
        → IsFcitx c
        → P a
        → Ends Q (perform uuid_to_string transport w c a)
    unfolding perform
    call-Ends u t (key_event k) a f q = key-Ends k a q
    call-Ends u t (focus_in none) a f q = (a, refl, p.weakens a q)
    call-Ends u t (focus_in (some c)) a f q = p.dispatches _ _ tt (p.ensures c a q)
    call-Ends u t (focus_out none) a f q = (a, refl, p.weakens a q)
    call-Ends u t (focus_out (some c)) a f q = p.dispatches _ _ tt (p.ensures c a q)
    call-Ends u t (destroyed none) a f q = (a, refl, p.weakens a q)
    call-Ends u t (destroyed (some c)) a f q = destroy-Ends (find_context_id c a) a (p.weakens a q)
    call-Ends u t (reload read) a f q = reload-Ends _ (p.settles _ a.logged a (p.weakens a q))
    call-Ends u t (set assign) a f q = reload-Ends _ (p.settles _ a.logged a (p.weakens a q))
    call-Ends u t (from_transport e) a f q = absurd f
