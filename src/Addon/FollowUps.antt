-- ===== src/Addon/FollowUps.antt =====
-- What the effects of one event add to the queue of `dispatch`, and what they leave as it is.
use mathlib.Core.List.{append_assoc, append-nil}
use fcitx5_scribe.Common.{
  ℕ, ◌+◌, ◌≤◌, ◌<◌, ◌≡◌, refl, sym, ap, ◌∙◌, Bool, Option, none, some, String, List, [], ◌∷◌, ◌++◌,
  true, false, if◌then◌else◌, All, All-append, arith,
}
use fcitx5_scribe.Common.Map
use fcitx5_scribe.Error.{Result, ok, unexpected}
use fcitx5_scribe.Proto.{Bytes}
use fcitx5_scribe.Config.{connection_config, ResolvedConnectionConfig}
use fcitx5_scribe.Engine.Event.{
  Event, Effect, accept_key, connect, disconnect, send_envelope, commit_text, log,
}
use fcitx5_scribe.Engine.State.{Engine}
use fcitx5_scribe.Engine.Handlers.{handle}
use fcitx5_scribe.Addon.State.{Addon, Loop, World}
use fcitx5_scribe.Addon.Contexts.{erase_context}
use fcitx5_scribe.Addon.Identity.{HasTable, erase_context-HasTable}
use fcitx5_scribe.Addon.Dispatch.{
  enqueue, store_io, log_failure, follow_up, apply_connect, apply_commit, apply, apply_all, process,
}

-- An upper bound on the rounds that an event takes, itself and what follows from it.
abbrev pub rounds : Event → ℕ
rounds (Event.connection_failed e) = 1
rounds (Event.context_destroyed c) = 2
rounds _ = 3

abbrev pub all_rounds : List Event → ℕ
all_rounds [] = 0
all_rounds (e ∷ es) = rounds e + all_rounds es

-- The rounds that the failure of an effect adds.
abbrev cost : Effect → ℕ
cost accept_key = 0
cost connect = 1
cost disconnect = 0
cost (send_envelope m) = 1
cost (commit_text c text) = 2
cost (log level message) = 0

abbrev pub costs : List Effect → ℕ
costs [] = 0
costs (e ∷ es) = cost e + costs es

-- The events that `apply` adds to the queue.
abbrev pub IsFollowUp : Event → Type 0
IsFollowUp (Event.connection_failed e) = Unit
IsFollowUp (Event.context_destroyed c) = Unit
IsFollowUp _ = ⊥

pub all_rounds-append : (xs ys : List Event) → all_rounds (xs ++ ys) ≡ all_rounds xs + all_rounds ys
all_rounds-append [] ys = omega arith
all_rounds-append (x ∷ xs) ys = omega (arith, all_rounds-append xs ys)

pub handle-costs :
    (uuid_to_string : Bytes → String) (e : Event) (s : Engine)
    → costs (handle uuid_to_string e s).1 < rounds e
unfolding handle
handle-costs u (Event.toggle c focused) s = ground arith
handle-costs u _ s = ground arith

pub rounds-pos : (e : Event) → 0 < rounds e
rounds-pos e = ground arith

pub rounds-le : (e : Event) → rounds e ≤ 3
rounds-le e = ground arith

module _ {T : Type 0} where
  -- The engine and the counter of identifiers stay as they are, and a sound table stays sound.
  abbrev pub Kept : Addon T → Addon T → Type 0
  Kept a b =
      (b.engine ≡ a.engine) × (b.next_context_id ≡ a.next_context_id) × (HasTable a → HasTable b)

  -- From `l` to `t`, the addon is kept and follow-ups of at most `n` rounds are queued.
  pub record Adds (n : ℕ) (l t : Loop T) : Type 0 where
    pub added : List Event
    pub queued : t.queue ≡ l.queue ++ added
    pub follow : All IsFollowUp added
    pub bounded : all_rounds added ≤ n
    pub kept : Kept l.addon t.addon

  Kept-trans : (a b c : Addon T) → Kept a b → Kept b c → Kept a c
  Kept-trans a b c (e, n, h) (e', n', h') = (e' ∙ e, n' ∙ n, λ x. h' (h x))

  nothing_added : (n : ℕ) (l t : Loop T) → t.queue ≡ l.queue → Kept l.addon t.addon → Adds n l t
  nothing_added n l t q e = record {
    added = [];
    queued = q ∙ sym (append-nil l.queue);
    follow = tt;
    bounded = omega arith;
    kept = e;
  }

  then-Adds : {n m : ℕ} {l t u : Loop T} → Adds n l t → Adds m t u → Adds (n + m) l u
  then-Adds {l} {t} {u} a b = record {
    added = a.added ++ b.added;
    queued = b.queued ∙ ap (λ q. q ++ b.added) a.queued ∙ append_assoc l.queue a.added b.added;
    follow = All-append IsFollowUp a.added b.added a.follow b.follow;
    bounded = omega (arith, all_rounds-append a.added b.added, a.bounded, b.bounded);
    kept = Kept-trans l.addon t.addon u.addon a.kept b.kept;
  }

  -- `m` is `l` but for fields that the queue and the engine are not among.
  one_added :
      (e : Event) (l m : Loop T)
      → IsFollowUp e
      → m.queue ≡ l.queue
      → Kept l.addon m.addon
      → Adds (rounds e) l (enqueue e m)
  one_added e l m f q s = record {
    added = e ∷ [];
    queued = ap (λ q. q ++ (e ∷ [])) q;
    follow = (f, tt);
    bounded = omega arith;
    kept = s;
  }

  follow_up-Adds :
      (r : Result (Unit {0})) (l m : Loop T)
      → m.queue ≡ l.queue
      → Kept l.addon m.addon
      → Adds 1 l (follow_up r m)
  unfolding follow_up
  follow_up-Adds (ok _) l m q s = nothing_added _ _ _ q s
  follow_up-Adds (unexpected e) l m q s = one_added (Event.connection_failed e) l m tt q s

  if-Adds :
      {n : ℕ} (b : Bool) {l t u : Loop T} → Adds n l t → Adds n l u → Adds n l (if b then t else u)
  if-Adds true x y = x
  if-Adds false x y = y

  erase_context-Kept : (c : ℕ) (a : Addon T) → Kept a (erase_context c a)
  unfolding erase_context
  erase_context-Kept c a = (ground arith, ground arith, erase_context-HasTable c a)

  log_failure-Kept : (r : Result (Unit {0})) (a : Addon T) → Kept a (log_failure r a)
  log_failure-Kept (ok _) a = (refl, refl, λ h. h)
  log_failure-Kept (unexpected e) a = (refl, refl, λ h. h)

  module _ (w : World T) where
    connect-Adds :
        (r : Result ResolvedConnectionConfig) (l : Loop T) → Adds 1 l (apply_connect w r l)
    unfolding apply_connect
    connect-Adds (ok r) l =
        let (result, io) = w.transport.connect r.connection l.addon.io in
        follow_up-Adds result l (store_io io l) refl (refl, refl, λ h. h)
    connect-Adds (unexpected e) l =
        one_added (Event.connection_failed e) l l tt refl (refl, refl, λ h. h)

    commit-Adds :
        (c : ℕ) (text : String) (o : Option ℕ) (l : Loop T) → Adds 2 l (apply_commit w c text o l)
    unfolding apply_commit
    commit-Adds c text none l = nothing_added _ _ _ refl (refl, refl, λ h. h)
    commit-Adds c text (some object) l =
        if-Adds (w.live object) (nothing_added _ _ _ refl (refl, refl, λ h. h)) (
          one_added (Event.context_destroyed c) l (record l { addon = erase_context c l.addon }) tt
            refl (erase_context-Kept c l.addon))

    apply-Adds : (e : Effect) (l : Loop T) → Adds (cost e) l (apply w e l)
    unfolding apply
    apply-Adds accept_key l = nothing_added _ _ _ refl (refl, refl, λ h. h)
    apply-Adds connect l = connect-Adds (connection_config w.platform l.addon.config) l
    apply-Adds disconnect l =
        let (result, io) = w.transport.disconnect l.addon.io in
        nothing_added _ _ _ refl (log_failure-Kept result (store_io io l).addon)
    apply-Adds (send_envelope m) l =
        let (result, io) = w.transport.send m l.addon.io in
        follow_up-Adds result l (store_io io l) refl (refl, refl, λ h. h)
    apply-Adds (commit_text c text) l = commit-Adds c text (Map.find c l.addon.contexts_by_id) l
    apply-Adds (log level message) l = nothing_added _ _ _ refl (refl, refl, λ h. h)

    apply_all-Adds : (es : List Effect) (l : Loop T) → Adds (costs es) l (apply_all w es l)
    unfolding apply_all
    apply_all-Adds [] l = nothing_added _ _ _ refl (refl, refl, λ h. h)
    apply_all-Adds (e ∷ es) l = then-Adds (apply-Adds e l) (apply_all-Adds es (apply w e l))

    pub process-Adds :
        (e : Event) (l : Loop T)
        → let (engine, effects) = handle w.uuid_to_string e l.addon.engine in
          Adds
            (costs effects)
            (record l { addon = record l.addon { engine = engine } })
            (process w e l)
    unfolding process
    process-Adds e l = apply_all-Adds _ _
