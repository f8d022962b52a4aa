-- ===== src/Engine/Identifiers.antt =====
-- Which session identifiers the engine uses.
use mathlib.Core.List.{append_assoc, append-nil}
use fcitx5_scribe.Common.{ℕ, zero, suc, ◌≡◌, refl, ap, String, List, [], ◌∷◌, ◌++◌, arith}
use fcitx5_scribe.Error.{Result, ok, unexpected}
use fcitx5_scribe.Proto.{Bytes, Envelope}
use fcitx5_scribe.Engine.Event.{Event, Effect, send_envelope}
use fcitx5_scribe.Engine.State.{SessionId, init}
use fcitx5_scribe.Engine.Spec
use fcitx5_scribe.Engine.Spec.{View, visible, start_view}
use fcitx5_scribe.Engine.Run.{run, run_implements_protocol}

-- The identifiers of the sessions that effects start, in order.
abbrev pub started : List Effect → List Bytes
started [] = []
started (send_envelope (Envelope.start_session m) ∷ es) = m.session_id ∷ started es
started (_ ∷ es) = started es

abbrev pub issued_by : Result SessionId → List Bytes
issued_by (ok id) = id ∷ []
issued_by (unexpected e) = []

-- What the first `n` calls of the generator gave.
unfoldable pub issued : (ℕ → Result SessionId) → ℕ → List Bytes
issued generator zero = []
issued generator (suc n) = issued generator n ++ issued_by (generator n)

started-append : (xs ys : List Effect) → started (xs ++ ys) ≡ started xs ++ started ys
started-append [] ys = refl
started-append (send_envelope (Envelope.start_session m) ∷ xs) ys =
    ap (◌∷◌ m.session_id) (started-append xs ys)
started-append (send_envelope _ ∷ xs) ys = started-append xs ys
started-append (_ ∷ xs) ys = started-append xs ys

started-visible : (xs : List Effect) → started (visible xs) ≡ started xs
started-visible [] = refl
started-visible (send_envelope (Envelope.start_session m) ∷ xs) =
    ap (◌∷◌ m.session_id) (started-visible xs)
started-visible (send_envelope _ ∷ xs) = started-visible xs
started-visible (_ ∷ xs) = started-visible xs

module _ (generator : ℕ → Result SessionId) where
  issued-step :
      (e : Event) (v : View)
      → issued generator v.drawn ++ started (Spec.step generator e v).1
        ≡ issued generator (Spec.step generator e v).0.drawn
  unfolding Spec.step issued
  issued-step (Event.toggle c f) v = ground (arith, append-nil (issued generator v.drawn))
  issued-step _ v = ground (arith, append-nil (issued generator v.drawn))

  issued-run :
      (es : List Event) (v : View)
      → issued generator v.drawn ++ started (Spec.run generator es v).1
        ≡ issued generator (Spec.run generator es v).0.drawn
  unfolding Spec.run
  issued-run [] v = append-nil _
  issued-run (e ∷ es) v = rw (started-append, ← append_assoc, issued-step e v) (issued-run es _)

  -- The sessions of a run are started under the identifiers that the generator gave, each used once,
  -- in the order in which they were drawn; none is dropped.
  pub started-run :
      (uuid_to_string : SessionId → String) (es : List Event)
      → started (run uuid_to_string es (init generator)).1
        ≡ issued generator (run uuid_to_string es (init generator)).0.generated
  unfolding start_view issued
  started-run uuid_to_string es =
      let (h, same) = run_implements_protocol uuid_to_string generator es in
      rw (h.drawn, ← started-visible (run uuid_to_string es (init generator)).1, same)
        (issued-run es start_view)
