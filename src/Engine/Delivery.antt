-- ===== src/Engine/Delivery.antt =====
-- Commits that come in order are delivered, each once and none lost; anything else ends the session
-- or is ignored.
use fcitx5_scribe.Common.{
  ℕ, suc, ◌+◌, ◌%◌, ◌^◌, ◌<◌, ◌≡◌, ◌≢◌, refl, true, Option, none, some, String, List, [], ◌∷◌, map,
  arith, length,
}
use fcitx5_scribe.Proto.{Bytes, Envelope, CommitText, InterruptReason}
use fcitx5_scribe.Engine.Event.{Event, Effect, debug, send_envelope, log}
use fcitx5_scribe.Engine.State.{
  Engine, SessionId, SessionState, ConnectionState, ready, context_can_commit,
}
use fcitx5_scribe.Engine.Session.{addressed}
use fcitx5_scribe.Engine.Session.Identity.{bytes_equal_refl, IsNotFor, addressed-none}
use fcitx5_scribe.Engine.Handlers.{handle}
use fcitx5_scribe.Engine.Spec.{visible}
use fcitx5_scribe.Engine.Run.{run}

-- Messages for a session with these texts, numbered from `n` as `uint64`.
unfoldable pub numbered : SessionId → ℕ → List String → List Event
numbered id n [] = []
numbered id n (text ∷ texts) =
    Event.connection_commit_text (record { session_id = id; sequence_no = n; text = text })
    ∷ numbered id ((n + 1) % 2 ^ 64) texts

abbrev pub in_session : SessionState → ℕ → Engine → Engine
in_session x n s = record s { session = some (record x { next_sequence_no = n }) }

pub wrapped : (n k : ℕ) → ((n + 1) % 2 ^ 64 + k) % 2 ^ 64 ≡ (n + suc k) % 2 ^ 64
wrapped n k = omega arith

module _ (uuid_to_string : SessionId → String) where
  pub commit_one :
      (x : SessionState) (text : String) (s : Engine)
      → s.session ≡ some x
      → context_can_commit s x.context ≡ true
      → handle uuid_to_string
          (Event.connection_commit_text
            (record { session_id = x.id; sequence_no = x.next_sequence_no; text = text }))
          s
        ≡ (
          in_session x ((x.next_sequence_no + 1) % 2 ^ 64) s,
          Effect.commit_text x.context text ∷ [],
        )
  unfolding handle context_can_commit
  commit_one x text s h c = ground (arith, bytes_equal_refl x.id)

  -- Messages that carry a session's identifier and consecutive numbers, from the next expected one on
  -- and modulo 2^64, are all delivered while the session's context may be written to: one text each,
  -- in their order, to that context, and nothing else is asked for. Only the expected number changes.
  pub numbered-deliver :
      (texts : List String) (x : SessionState) (s : Engine)
      → x.next_sequence_no < 2 ^ 64
      → s.session ≡ some x
      → context_can_commit s x.context ≡ true
      → run uuid_to_string (numbered x.id x.next_sequence_no texts) s ≡ (
        in_session x ((x.next_sequence_no + length texts) % 2 ^ 64) s,
        map (λ text. Effect.commit_text x.context text) texts,
      )
  unfolding numbered run
  numbered-deliver [] x s h e c = ground arith
  numbered-deliver (text ∷ texts) x s h e c =
      let n' = (x.next_sequence_no + 1) % 2 ^ 64 in
      let rest =
        numbered-deliver texts (record x { next_sequence_no = n' }) (in_session x n' s)
          (omega arith) refl (unfold context_can_commit in c) in
      rw (commit_one x text s e c, rest, wrapped x.next_sequence_no (length texts))

-- What an unexpected commit asks for: the session is interrupted if the connection is ready.
abbrev pub interrupted_on : ConnectionState → SessionState → List Effect
interrupted_on ready x =
    send_envelope (
      Envelope.interrupt_session
        (record { session_id = x.id; reason = InterruptReason.transport_failure }))
    ∷ []
interrupted_on _ x = []

abbrev pub DebugOnly : List Effect → Type 0
DebugOnly (log debug message ∷ []) = Unit
DebugOnly _ = ⊥

-- The identifier that a message of the transcriber carries.
abbrev pub session_message : Event → Option Bytes
session_message (Event.connection_commit_text m) = some m.session_id
session_message (Event.connection_vad_timeout m) = some m.session_id
session_message (Event.connection_error_message m) = some m.session_id
session_message _ = none

module _ (uuid_to_string : SessionId → String) where
  -- A commit for the session with another number than the expected one writes nothing: the session
  -- ends, nothing is pending, all else stays, and the transcriber is told if the connection is ready.
  pub mismatch_interrupts :
      (m : CommitText) (x : SessionState) (s : Engine)
      → s.session ≡ some x
      → m.session_id ≡ x.id
      → m.sequence_no ≢ x.next_sequence_no
      → let (t, effects) = handle uuid_to_string (Event.connection_commit_text m) s in
        (t ≡ record s { session = none; pending_context = none })
        × (visible effects ≡ interrupted_on s.connection_state x)
  unfolding handle
  mismatch_interrupts m x s e i n = ground (arith, bytes_equal_refl x.id)

  not_addressed :
      (e : Event) (id : Bytes) (s : Engine)
      → session_message e ≡ some id
      → addressed id s.session ≡ none
      → let (t, effects) = handle uuid_to_string e s in (t ≡ s) × DebugOnly effects
  unfolding handle
  not_addressed (Event.connection_commit_text m) id s h a = ground arith
  not_addressed _ id s h a = ground arith

  -- A message for another session, or while there is none, changes nothing and asks for nothing but
  -- one line in the debug log.
  pub inactive_ignored :
      (e : Event) (id : Bytes) (s : Engine)
      → session_message e ≡ some id
      → IsNotFor id s.session
      → let (t, effects) = handle uuid_to_string e s in (t ≡ s) × DebugOnly effects
  inactive_ignored e id s h n = not_addressed e id s h (addressed-none id s.session n)
