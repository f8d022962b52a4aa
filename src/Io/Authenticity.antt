-- ===== src/Io/Authenticity.antt =====
-- Where published messages come from: what is read, and by which coroutines.
pub mod Executions
use mathlib.Core.List.{
  Mem, Subset, append-nil, append_assoc, mem-append_left, mem-append_right, mem-cons_self,
}
use fcitx5_scribe.Common.{
  ℕ, ◌≡◌, ◌⊎◌, inl, inr, refl, sym, ap, ◌∙◌, Bool, true, false, Option, none, some, List, [], ◌∷◌,
  ◌++◌, All, All-append, All-split, All-mono, All-members, map, arith,
}
use fcitx5_scribe.Io.Untouched.{
  Untouched, connect-Untouched, disconnect-Untouched, send-Untouched, stop-Untouched,
}
use fcitx5_scribe.Error.{ConnectionConfig, Result, ok, unexpected}
use fcitx5_scribe.Proto.{Bytes, Envelope}
use fcitx5_scribe.Protocol.{Crypto, Codec, decode_frame}
use fcitx5_scribe.Io.State.{
  Shared, Publication, commit_text, vad_timeout, protocol_error, Task, await_command,
  await_hello_payload, start_read, await_header, await_payload, Wakeup, returned, received, init,
  close_connection,
}
use fcitx5_scribe.Io.Handshake.{validate_server_hello}
use fcitx5_scribe.Io.Tasks.{resume}
use fcitx5_scribe.Io.System.{
  Step, connects, disconnects, sends, stops, resumes, Reach, start, later, taken, MayWake,
}

-- The generation of a coroutine that reads messages.
abbrev pub reader : Task → List ℕ
reader (start_read g) = g ∷ []
reader (await_header g) = g ∷ []
reader (await_payload g n) = g ∷ []
reader _ = []

abbrev pub readers : List Task → List ℕ
readers [] = []
readers (t ∷ ts) = reader t ++ readers ts

pub readers-append : (xs ys : List Task) → readers (xs ++ ys) ≡ readers xs ++ readers ys
readers-append [] ys = refl
readers-append (x ∷ xs) ys =
    ap (λ gs. reader x ++ gs) (readers-append xs ys)
    ∙ sym (append_assoc (reader x) (readers xs) (readers ys))

readers-snoc : (ts : List Task) (t : Task) → readers (ts ++ (t ∷ [])) ≡ readers ts ++ reader t
readers-snoc ts t = readers-append ts (t ∷ []) ∙ ap (λ gs. readers ts ++ gs) (append-nil (reader t))

-- The messages of the transcriber among the publications.
abbrev pub message_in : Publication → List Publication
message_in (commit_text m) = commit_text m ∷ []
message_in (vad_timeout m) = vad_timeout m ∷ []
message_in (protocol_error m) = protocol_error m ∷ []
message_in _ = []

abbrev pub messages_of : List Publication → List Publication
messages_of [] = []
messages_of (p ∷ ps) = message_in p ++ messages_of ps

pub messages_of-snoc :
    (ps : List Publication) (p : Publication)
    → messages_of (ps ++ (p ∷ [])) ≡ messages_of ps ++ message_in p
messages_of-snoc [] p = append-nil (message_in p)
messages_of-snoc (q ∷ ps) p =
    ap (λ xs. message_in q ++ xs) (messages_of-snoc ps p)
    ∙ sym (append_assoc (message_in q) (messages_of ps) (message_in p))

abbrev pub message_decoded : Result Envelope → List Publication
message_decoded (ok (Envelope.commit_text m)) = commit_text m ∷ []
message_decoded (ok (Envelope.vad_timeout m)) = vad_timeout m ∷ []
message_decoded (ok (Envelope.error m)) = protocol_error m ∷ []
message_decoded _ = []

abbrev pub granted : ℕ → Result (Unit {0}) → List ℕ
granted g (ok _) = g ∷ []
granted g (unexpected e) = []

module _ (codec : Codec) where
  -- The messages that a finished read decodes to.
  abbrev pub message_read : Task → Wakeup → List Publication
  message_read (await_payload g n) (returned none payload) =
      message_decoded (decode_frame codec payload)
  message_read _ w = []

module _ (crypto : Crypto) (codec : Codec) where
  -- The generation, if this is an answer that passes the validation.
  abbrev pub answered : ℕ → Result Envelope → Shared → List ℕ
  answered g (ok (Envelope.server_hello hello)) s = granted g (validate_server_hello crypto hello s)
  answered g _ s = []

  abbrev pub validates : Task → Wakeup → Shared → List ℕ
  validates (await_hello_payload g n) (returned none payload) s =
      answered g (decode_frame codec payload) s
  validates _ w s = []

  pub resume-messages :
      (t : Task) (w : Wakeup) (s u : Shared)
      → resume crypto codec t w s ≡ some u
      → messages_of u.published ≡ messages_of s.published ++ message_read codec t w
  unfolding resume close_connection
  resume-messages await_command w s u h = grind (arith, messages_of-snoc, append-nil)
  resume-messages _ w s u h = grind (arith, messages_of-snoc, append-nil)

  pub resume-readers :
      (t : Task) (w : Wakeup) (s u : Shared)
      → resume crypto codec t w s ≡ some u
      → (readers u.tasks ≡ readers s.tasks)
        ⊎ (readers u.tasks ≡ readers s.tasks ++ (reader t ++ validates t w s))
  unfolding resume close_connection
  resume-readers await_command w s u h = grind (arith, readers-snoc, append-nil)
  resume-readers _ w s u h = grind (arith, readers-snoc, append-nil)
