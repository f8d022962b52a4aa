-- ===== src/Addon/Termination.antt =====
-- The loop of `dispatch` ends, and what it makes of the engine.
use mathlib.Core.List.{append_assoc}
use fcitx5_scribe.Common.{
  ℕ, zero, suc, ◌≤◌, ◌<◌, ◌≡◌, refl, ◌∙◌, Bool, some, List, [], ◌∷◌, ◌++◌, false, All, All-append,
  arith, length,
}
use fcitx5_scribe.Engine.Event.{Event}
use fcitx5_scribe.Engine.State.{Engine}
use fcitx5_scribe.Engine.Handlers.{handle}
use fcitx5_scribe.Engine.Run.{run}
use fcitx5_scribe.Addon.State.{Addon, Loop, World}
use fcitx5_scribe.Addon.Identity.{HasTable}
use fcitx5_scribe.Addon.FollowUps.{
  all_rounds, costs, IsFollowUp, all_rounds-append, handle-costs, rounds-pos, rounds-le,
  process-Adds,
}
use fcitx5_scribe.Addon.Dispatch.{process, run_queue, dispatch}

module _ {T : Type 0} where
  -- The end of a loop that took the events of `queue`.
  pub record Ends (w : World T) (fuel : ℕ) (queue : List Event) (l : Loop T) : Type 0 where
    pub last : Loop T
    pub returns : run_queue w fuel queue l ≡ some last
    pub followed : List Event
    pub follow : All IsFollowUp followed
    pub bounded : length (queue ++ followed) ≤ all_rounds queue
    pub engine_runs :
        last.addon.engine ≡ (run w.uuid_to_string (queue ++ followed) l.addon.engine).0
    pub next_stays : last.addon.next_context_id ≡ l.addon.next_context_id
    pub table_kept : HasTable l.addon → HasTable last.addon

  module _ (w : World T) where
    queue_rounds :
        (e : Event) (s : Engine) (es queue added : List Event)
        → queue ≡ es ++ added
        → all_rounds added ≤ costs (handle w.uuid_to_string e s).1
        → all_rounds queue < all_rounds (e ∷ es)
    queue_rounds e s es queue added q h =
        rw q (omega (arith, all_rounds-append es added, handle-costs w.uuid_to_string e s, h))

    followed_bounded :
        (e : Event) (es queue added others : List Event)
        → queue ≡ es ++ added
        → all_rounds queue < all_rounds (e ∷ es)
        → length (queue ++ others) ≤ all_rounds queue
        → length ((e ∷ es) ++ (added ++ others)) ≤ all_rounds (e ∷ es)
    followed_bounded e es queue added others q fewer h =
        let same : length (queue ++ others) ≡ length (es ++ (added ++ others)) =
          rw (q, append_assoc es added others) refl in
        omega (arith, same, fewer, h)

    same_run :
        (es queue added others : List Event) {s t : Engine}
        → queue ≡ es ++ added
        → s ≡ t
        → (run w.uuid_to_string (queue ++ others) s).0
          ≡ (run w.uuid_to_string (es ++ (added ++ others)) t).0
    same_run es queue added others q e = rw (q, e, append_assoc es added others) refl

    pub run_queue-Ends :
        (fuel : ℕ) (queue : List Event) (l : Loop T) → all_rounds queue ≤ fuel → Ends w fuel queue l
    unfolding run_queue run
    run_queue-Ends fuel [] l h = record {
      last = l;
      returns = refl;
      followed = [];
      follow = tt;
      bounded = omega arith;
      engine_runs = refl;
      next_stays = refl;
      table_kept = λ h. h;
    }
    run_queue-Ends zero (e ∷ es) l h = absurd (omega (arith, rounds-pos e))
    run_queue-Ends (suc fuel) (e ∷ es) l h =
        let a = process-Adds w e (record l { queue = es }) in
        let t = process w e (record l { queue = es }) in
        let fewer = queue_rounds e l.addon.engine es t.queue a.added a.queued a.bounded in
        let r = run_queue-Ends fuel t.queue t (omega (arith, fewer, h)) in
        record {
          last = r.last;
          returns = r.returns;
          followed = a.added ++ r.followed;
          follow = All-append IsFollowUp a.added r.followed a.follow r.follow;
          bounded = followed_bounded e es t.queue a.added r.followed a.queued fewer r.bounded;
          engine_runs = r.engine_runs ∙ same_run es t.queue a.added r.followed a.queued a.kept.0;
          next_stays = r.next_stays ∙ a.kept.1;
          table_kept = λ h. r.table_kept (a.kept.2 h);
        }

    -- Every event is handled to the end: the loop of `dispatch` stops with an empty queue. What it
    -- does to the engine is to handle the event and at most two more, each of which tells of a failed
    -- transport or of a context that is gone.
    pub dispatch-ends :
        (e : Event) (a : Addon T)
        → (accepted : Bool) × (b : Addon T) × (followed : List Event) × (dispatch w e a
            ≡ some (accepted, b))
          × All IsFollowUp followed
          × (length followed ≤ 2)
          × (b.engine ≡ (run w.uuid_to_string (e ∷ followed) a.engine).0)
          × (b.next_context_id ≡ a.next_context_id)
          × (HasTable a → HasTable b)
    unfolding dispatch
    dispatch-ends e a =
        let start : Loop T = record { addon = a; accepted = false; queue = e ∷ [] } in
        let r = run_queue-Ends 4 (e ∷ []) start (omega (arith, rounds-le e)) in
        (
          r.last.accepted,
          r.last.addon,
          r.followed,
          rw r.returns refl,
          r.follow,
          omega (arith, r.bounded, rounds-le e),
          r.engine_runs,
          r.next_stays,
          r.table_kept,
        )
