-- ===== src/Program/Delivery.antt =====
-- Messages of a live session are written when their callbacks run, one after the other.
use mathlib.Core.Option
use mathlib.Core.List.{append_assoc}
use fcitx5_scribe.Common.{
  ℕ, ◌+◌, ◌%◌, ◌^◌, ◌≡◌, refl, ap, Bool, Option, some, String, List, [], ◌∷◌, ◌++◌, map, length,
}
use fcitx5_scribe.Config.{Platform}
use fcitx5_scribe.Engine.State.{SessionState}
use fcitx5_scribe.Engine.Delivery.{in_session, wrapped}
use fcitx5_scribe.Io.State.{Shared, Publication, commit_text}
use fcitx5_scribe.Addon.State.{Addon}
use fcitx5_scribe.Addon.History.{Moment, from_transport, world, perform}
use fcitx5_scribe.Addon.Delivery.{IsLive, next_message, with_text, dispatch_message}
use fcitx5_scribe.Program.{event_of, io_transport, Outside, call}

-- The messages that go on with a session: one for each text, numbered from the next number on.
abbrev pub messages : SessionState → List String → List Publication
messages x [] = []
messages x (text ∷ texts) =
    commit_text (next_message x text)
    ∷ messages (record x { next_sequence_no = (x.next_sequence_no + 1) % 2 ^ 64 }) texts

-- The texts are written, and the session expects the number after them.
abbrev pub with_texts : SessionState → ℕ → List String → Addon Shared → Addon Shared
with_texts x object texts a = record a {
  engine = in_session x ((x.next_sequence_no + length texts) % 2 ^ 64) a.engine;
  committed = a.committed ++ map (λ text. (object, text)) texts;
}

pub one_more :
    (x : SessionState) (object : ℕ) (text : String) (texts : List String) (a : Addon Shared)
    → with_texts
        (record x { next_sequence_no = (x.next_sequence_no + 1) % 2 ^ 64 })
        object
        texts
        (with_text x object ((x.next_sequence_no + 1) % 2 ^ 64) text a)
      ≡ with_texts x object (text ∷ texts) a
one_more x object text texts a =
    rw
      (
        wrapped x.next_sequence_no (length texts),
        append_assoc a.committed ((object, text) ∷ []) (map (λ text. (object, text)) texts),
      )
      refl

module _ (o : Outside) (room : Shared → Bool) (platform : Platform) (live : ℕ → Bool) where
  abbrev pub moment : Publication → Moment
  moment q = record { platform = platform; live = live; call = from_transport (event_of q) }

  -- The callback of a publication.
  abbrev pub hear : Publication → Addon Shared → Option (Addon Shared)
  hear q a = call o room (moment q) a

  -- A session whose texts go to an object.
  abbrev pub IsOpen : SessionState → ℕ → Addon Shared → Type 0
  IsOpen x object a =
      IsLive
        (record {
          platform = platform;
          uuid_to_string = o.uuid_to_string;
          transport = io_transport o.codec room;
          live = live;
        })
        x object a

  pub hear_message :
      (x : SessionState) (object : ℕ) (text : String) (a : Addon Shared)
      → IsOpen x object a
      → hear (commit_text (next_message x text)) a
        ≡ some (with_text x object ((x.next_sequence_no + 1) % 2 ^ 64) text a)
  unfolding perform
  hear_message x object text a h =
      let q = commit_text (next_message x text) in
      ap (Option.map (λ (r : Bool × Addon Shared). r.1)) (
        dispatch_message (world o.uuid_to_string (io_transport o.codec room) (moment q)) x object
          text a h)
