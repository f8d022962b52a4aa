-- ===== src/Program/Delivered.antt =====
-- The program after texts of a session were delivered, and the frames that carry them.
use mathlib.Core.List.{append_assoc}
use fcitx5_scribe.Common.{
  ℕ, ◌+◌, ◌%◌, ◌^◌, ◌≡◌, refl, ap, none, String, List, [], ◌∷◌, ◌++◌, length, map,
}
use fcitx5_scribe.Proto.{Bytes}
use fcitx5_scribe.Protocol.{Codec, network_bytes}
use fcitx5_scribe.Engine.State.{SessionState}
use fcitx5_scribe.Io.State.{
  Publication, commit_text, Task, await_header, await_payload, Wakeup, returned,
}
use fcitx5_scribe.Io.Reading.{commit, IsSent}
use fcitx5_scribe.Addon.Delivery.{next_message}
use fcitx5_scribe.Program.{Program}
use fcitx5_scribe.Program.Delivery.{messages, with_texts, one_more}

abbrev pub advanced : SessionState → SessionState
advanced x = record x { next_sequence_no = (x.next_sequence_no + 1) % 2 ^ 64 }

-- Each text has a payload that decodes to the next message of the session.
abbrev pub AreSent : Codec → SessionState → List (String × Bytes) → Type 0
AreSent codec x [] = Unit
AreSent codec x ((text, payload) ∷ more) =
    IsSent codec (commit (next_message x text), payload) × AreSent codec (advanced x) more

abbrev pub texts_of : List (String × Bytes) → List String
texts_of sent = map (λ (s : String × Bytes). s.0) sent

-- The waits of the reader: for the header of each, and for as many bytes as its payload has.
abbrev pub wakes_of : ℕ → List (String × Bytes) → List (Task × Wakeup)
wakes_of g [] = []
wakes_of g ((text, payload) ∷ more) =
    (await_header g, returned none (network_bytes (length payload)))
    ∷ (await_payload g (length payload), returned none payload)
    ∷ wakes_of g more

module _ (g : ℕ) (others : List Task) where
  -- After a message the reader is the last of the coroutines that wait.
  abbrev pub reader_after : List Publication → List Task → List Task
  reader_after [] tasks = tasks
  reader_after _ tasks = others ++ (await_header g ∷ [])

  -- These publications are heard.
  abbrev pub reads_on : List Publication → Program → Program
  reads_on ps p = record p {
    addon = record p.addon {
      io = record p.addon.io {
        published = p.addon.io.published ++ ps;
        tasks = reader_after ps p.addon.io.tasks;
      };
    };
  }

  abbrev pub with_heard : SessionState → ℕ → List String → Program → Program
  with_heard x object texts p = record {
    addon = with_texts x object texts (reads_on (messages x texts) p).addon;
    heard = p.heard ++ messages x texts;
  }

  reader_after-last :
      (ps : List Publication)
      → reader_after ps (others ++ (await_header g ∷ [])) ≡ others ++ (await_header g ∷ [])
  reader_after-last [] = refl
  reader_after-last (p ∷ ps) = refl

  pub more_heard :
      (x : SessionState) (object : ℕ) (text : String) (texts : List String) (p : Program)
      → with_heard (advanced x) object texts (with_heard x object (text ∷ []) p)
        ≡ with_heard x object (text ∷ texts) p
  more_heard x object text texts p =
      let first = commit_text (next_message x text) ∷ [] in
      let more = messages (advanced x) texts in
      rw
        (
          append_assoc p.heard first more,
          append_assoc p.addon.io.published first more,
          reader_after-last more,
        )
        (ap (λ a. record { addon = a; heard = p.heard ++ messages x (text ∷ texts) })
          (one_more x object text texts (reads_on (messages x (text ∷ texts)) p).addon))
