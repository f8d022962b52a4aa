-- ===== src/Engine/Compliance.antt =====
-- The conversation with the transcriber as an outsider hears it: from the events and the effects
-- alone, without the engine's fields.
use fcitx5_scribe.Common.{
  ℕ, ◌+◌, ◌%◌, ◌^◌, ◌≡◌, true, Option, none, some, String, List, [], ◌∷◌, arith, if◌then◌else◌,
}
use fcitx5_scribe.Error.{Result}
use fcitx5_scribe.Proto.{Bytes, Envelope}
use fcitx5_scribe.Engine.Event.{
  Event, Effect, accept_key, connect, disconnect, send_envelope, commit_text, log,
}
use fcitx5_scribe.Engine.State.{Engine, SessionId, init}
use fcitx5_scribe.Engine.Session.{bytes_equal}
use fcitx5_scribe.Engine.Handlers.{handle}
use fcitx5_scribe.Engine.Spec
use fcitx5_scribe.Engine.Spec.{
  View, Phase, start_view, idle, opening, waiting, open_idle, active, visible,
}
use fcitx5_scribe.Engine.Refinement.{Represents, handle-Represents}
use fcitx5_scribe.Engine.Run.{transcript, init-Represents}

-- The open session, and the number of the next commit.
abbrev pub Open : Type 0
Open = Option (Bytes × ℕ)

abbrev close_if : Bytes → Open → Open
close_if id none = none
close_if id (some (open_id, n)) = if bytes_equal id open_id then none else some (open_id, n)

-- What an event says about the session, before the engine answers.
abbrev pub hear : Event → Open → Open
hear (Event.connection_configured r) o = none
hear Event.connection_closed o = none
hear (Event.connection_failed e) o = none
hear (Event.connection_vad_timeout m) o = close_if m.session_id o
hear (Event.connection_error_message m) o = close_if m.session_id o
hear _ o = o

abbrev IsOpenAs : Bytes → Open → Type 0
IsOpenAs id none = ⊥
IsOpenAs id (some (open_id, n)) = id ≡ open_id

-- The text is that of a message for the open session, with the number that is due.
abbrev pub Delivers : Event → String → Open → Type 0
Delivers (Event.connection_commit_text m) text (some (id, n)) =
    (bytes_equal m.session_id id ≡ true) × (m.sequence_no ≡ n) × (m.text ≡ text)
Delivers _ text o = ⊥

abbrev advance : Open → Open
advance none = none
advance (some (id, n)) = some (id, (n + 1) % 2 ^ 64)

-- The answer to an event keeps to the protocol, and `k` holds of the session that it leaves: a
-- session starts only when none is open, only the open one is interrupted, text is committed only
-- for a message that is due, and no other kind of envelope is sent.
abbrev pub Answers : Event → List Effect → Open → (Open → Type 0) → Type 0
Answers e [] o k = k o
Answers e (accept_key ∷ es) o k = Answers e es o k
Answers e (connect ∷ es) o k = Answers e es o k
Answers e (disconnect ∷ es) o k = Answers e es o k
Answers e (log level message ∷ es) o k = Answers e es o k
Answers e (commit_text c text ∷ es) o k = Delivers e text o × Answers e es (advance o) k
Answers e (send_envelope (Envelope.start_session m) ∷ es) o k =
    (o ≡ none) × Answers e es (some (m.session_id, 1)) k
Answers e (send_envelope (Envelope.interrupt_session m) ∷ es) o k =
    IsOpenAs m.session_id o × Answers e es none k
Answers e (send_envelope _ ∷ es) o k = ⊥

abbrev pub IsCompliant : List (Event × List Effect) → Open → Type 0
IsCompliant [] o = Unit
IsCompliant ((e, effects) ∷ rest) o = Answers e effects (hear e o) (IsCompliant rest)

abbrev open_of : Phase → Open
open_of (active x) = some (x.id, x.next_sequence_no)
open_of _ = none

Answers-visible :
    (e : Event) (es : List Effect) (o : Open) (k : Open → Type 0)
    → Answers e (visible es) o k
    → Answers e es o k
Answers-visible e [] o k h = h
Answers-visible e (accept_key ∷ es) o k h = Answers-visible e es o k h
Answers-visible e (connect ∷ es) o k h = Answers-visible e es o k h
Answers-visible e (disconnect ∷ es) o k h = Answers-visible e es o k h
Answers-visible e (log level message ∷ es) o k h = Answers-visible e es o k h
Answers-visible e (commit_text c text ∷ es) o k h = (h.0, Answers-visible e es (advance o) k h.1)
Answers-visible e (send_envelope (Envelope.start_session m) ∷ es) o k h =
    (h.0, Answers-visible e es _ k h.1)
Answers-visible e (send_envelope (Envelope.interrupt_session m) ∷ es) o k h =
    (h.0, Answers-visible e es _ k h.1)
Answers-visible e (send_envelope _ ∷ es) o k h = h

module _ (generator : ℕ → Result SessionId) where
  step-Answers :
      (e : Event) (v : View) (k : Open → Type 0)
      → k (open_of (Spec.step generator e v).0.phase)
      → Answers e (Spec.step generator e v).1 (hear e (open_of v.phase)) k
  unfolding Spec.step
  step-Answers (Event.toggle c f) v k h = ground arith
  step-Answers _ v k h = ground arith

  module _ (uuid_to_string : SessionId → String) where
    transcript-IsCompliant :
        (es : List Event) (s : Engine) (v : View)
        → Represents generator s v
        → IsCompliant (transcript uuid_to_string es s) (open_of v.phase)
    unfolding transcript
    transcript-IsCompliant [] s v h = tt
    transcript-IsCompliant (e ∷ es) s v h =
        let (h1, same) = handle-Represents generator uuid_to_string e s v h in
        let rest : Open → Type 0 =
          IsCompliant (transcript uuid_to_string es (handle uuid_to_string e s).0) in
        let answers = step-Answers e v rest (transcript-IsCompliant es _ _ h1) in
        Answers-visible e (handle uuid_to_string e s).1 (hear e (open_of v.phase)) rest
          (rw same answers)

    -- Whatever events come, the engine's side of the conversation keeps to the protocol: a session is
    -- started only while none is open, only the open one is interrupted, text is committed only for a
    -- message of the open session with the number that is due, and no other envelope is sent.
    pub init-IsCompliant :
        (es : List Event) → IsCompliant (transcript uuid_to_string es (init generator)) none
    unfolding start_view
    init-IsCompliant es = transcript-IsCompliant es _ start_view (init-Represents generator)
