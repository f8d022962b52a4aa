-- ===== src/Io/Reading.antt =====
-- `readLoop` on a stream of bytes: each wait is given as many bytes as it asks for.
use mathlib.Core.List.{append_assoc, append-nil}
use fcitx5_scribe.Common.{
  ℕ, ◌≤◌, ◌≡◌, refl, sym, ap, inl, ◌∙◌, true, false, Option, none, some, List, [], ◌∷◌, ◌++◌, map,
  arith, length, All,
}
use fcitx5_scribe.Proto.{Bytes, Envelope, CommitText, VadTimeout, ProtoError}
use fcitx5_scribe.Protocol.{Crypto, Codec, network_bytes, decode_frame}
use fcitx5_scribe.Io.State.{
  Shared, Publication, commit_text, vad_timeout, protocol_error, await_header, await_payload,
  await_hello_header, await_hello_payload, returned, Task,
}
use fcitx5_scribe.Io.Framing.{frame_size-network_bytes, bad_frame_size_iff}
use fcitx5_scribe.Io.Tasks.{resume}
use fcitx5_scribe.Io.System.{taken}
use fcitx5_scribe.Io.Orderly.Runs.{IsDue}
use fcitx5_scribe.Io.Orderly.Going.{taken-last}

-- The messages that a transcriber sends to an authenticated client.
pub data Message : Type 0 where
  commit : CommitText → Message
  timeout : VadTimeout → Message
  problem : ProtoError → Message

abbrev pub envelope_of : Message → Envelope
envelope_of (commit m) = Envelope.commit_text m
envelope_of (timeout m) = Envelope.vad_timeout m
envelope_of (problem m) = Envelope.error m

abbrev pub publication_of : Message → Publication
publication_of (commit m) = commit_text m
publication_of (timeout m) = vad_timeout m
publication_of (problem m) = protocol_error m

-- A message with the payload in which it is sent.
abbrev pub Sent : Type 0
Sent = Message × Bytes

-- The frames of the messages, one behind the other.
unfoldable pub stream : List Sent → Bytes
stream [] = []
stream ((m, payload) ∷ rest) = network_bytes (length payload) ++ (payload ++ stream rest)

-- A payload of an admitted length that decodes to its message.
abbrev pub IsSent : Codec → Sent → Type 0
IsSent c (m, payload) =
    (1 ≤ length payload)
    × (length payload ≤ 65536)
    × (c.parse_from_array payload ≡ some (envelope_of m))

pub record IsServing (g : ℕ) (s : Shared) : Type 0 where
  pub running : s.stopping ≡ false
  pub is_current : g ≡ s.active_generation
  pub is_open : s.socket_open ≡ true

length-network_bytes : (n : ℕ) → some 4 ≡ some (length (network_bytes n))
unfolding network_bytes
length-network_bytes n = refl

-- The reader of a generation waits for a header, beside these coroutines.
pub record IsReading (g : ℕ) (others tasks : List Task) : Type 0 where
  pub before : List Task
  pub after : List Task
  pub waits : tasks ≡ before ++ (await_header g ∷ after)
  pub beside : before ++ after ≡ others

pub last-IsReading :
    (g : ℕ) (others : List Task) → IsReading g others (others ++ (await_header g ∷ []))
last-IsReading g others = record {
  before = others;
  after = [];
  waits = refl;
  beside = append-nil others;
}

-- How many bytes a coroutine asks the socket for.
abbrev pub asked : Task → Option ℕ
asked (await_hello_header g) = some 4
asked (await_hello_payload g n) = some n
asked (await_header g) = some 4
asked (await_payload g n) = some n
asked _ = none

module _ (crypto : Crypto) (codec : Codec) where
  -- Coroutines that read resume, one after the other, each with as many bytes from the front of the
  -- stream as it asks for: from a state and the bytes in the socket to a state and the bytes left.
  pub data Reads : Shared → Bytes → Shared → Bytes → Type 0 where
    stays : {s : Shared} {bytes : Bytes} → Reads s bytes s bytes
    reads :
        {s v u : Shared} {more rest : Bytes} (before after : List Task) (t : Task) (chunk : Bytes)
        → asked t ≡ some (length chunk)
        → IsDue crypto codec t (returned none chunk) before after s
        → resume crypto codec t
            (returned none chunk)
            (taken (before ++ after) (returned none chunk) s)
          ≡ some v
        → Reads v more u rest
        → Reads s (chunk ++ more) u rest

module _ (crypto : Crypto) (codec : Codec) (g : ℕ) where
  -- The reader waits for a payload, or for the next header after a message.
  abbrev pub waiting_for_payload : ℕ → Shared → Shared
  waiting_for_payload n s = record s { tasks = s.tasks ++ (await_payload g n ∷ []) }

  abbrev pub after_message : Message → Shared → Shared
  after_message m s = record s {
    published = s.published ++ (publication_of m ∷ []);
    tasks = s.tasks ++ (await_header g ∷ []);
  }

  pub header_step :
      (n : ℕ) (s : Shared)
      → 1 ≤ n
      → n ≤ 65536
      → resume crypto codec (await_header g) (returned none (network_bytes n)) s
        ≡ some (waiting_for_payload n s)
  unfolding resume
  header_step n s low high = ground (arith, frame_size-network_bytes n, (bad_frame_size_iff n).1)

  pub payload_step :
      (m : Message) (n : ℕ) (payload : Bytes) (s : Shared)
      → IsServing g s
      → codec.parse_from_array payload ≡ some (envelope_of m)
      → resume crypto codec (await_payload g n) (returned none payload) s ≡ some (after_message m s)
  unfolding resume decode_frame
  payload_step (commit m) n payload s r h = ground arith
  payload_step (timeout m) n payload s r h = ground arith
  payload_step (problem m) n payload s r h = ground arith

  abbrev pub beside : List Task → Shared → Shared
  beside others s = record s { tasks = others }

  pub beside-IsServing :
      (others : List Task) (s : Shared) → IsServing g s → IsServing g (beside others s)
  beside-IsServing others s r = record {
    running = r.running;
    is_current = r.is_current;
    is_open = r.is_open;
  }

  frame-Reads :
      (others : List Task) (m : Message) (payload more rest : Bytes) (s u : Shared)
      → IsReading g others s.tasks
      → s.context_stopped ≡ false
      → IsServing g s
      → IsSent codec (m, payload)
      → Reads crypto codec (after_message m (beside others s)) more u rest
      → Reads crypto codec s (network_bytes (length payload) ++ (payload ++ more)) u rest
  frame-Reads others m payload more rest s u k runs r (low, high, parsed) next =
      let n = length payload in
      let turn = ap some r.is_current in
      reads k.before k.after (await_header g) (network_bytes n) (length-network_bytes n)
        (record { waits = k.waits; runs = runs; may = tt; fits = tt; turn = inl turn })
        (ap
            (λ ts.
              resume crypto codec (await_header g) (returned none (network_bytes n)) (beside ts s))
            k.beside
          ∙ header_step n (beside others s) low high)
        (reads others [] (await_payload g n) payload refl
          (record { waits = refl; runs = runs; may = tt; fits = tt; turn = inl turn })
          (ap (resume crypto codec (await_payload g n) (returned none payload))
              (taken-last others payload (waiting_for_payload n (beside others s)))
            ∙ payload_step m n payload (beside others s) (beside-IsServing others s r) parsed)
          next)

  -- On an open connection of the current generation, while the actor runs, a reader waits for a header,
  -- at any place among other coroutines. When the socket gives each of its waits as many bytes as it
  -- asks for, from a stream that begins with the frames of any messages, and nothing else happens, then
  -- it takes exactly the bytes of these frames, publishes exactly these messages, in their order, and
  -- waits for the next header, beside the same coroutines.
  pub read_frames-stream :
      (others : List Task) (ms : List Sent) (rest : Bytes) (s : Shared)
      → IsReading g others s.tasks
      → s.context_stopped ≡ false
      → IsServing g s
      → All (IsSent codec) ms
      → (u : Shared) × Reads crypto codec s (stream ms ++ rest) u rest
        × IsServing g u
        × IsReading g others u.tasks
        × (u.published ≡ s.published ++ map (λ m. publication_of m.0) ms)
  unfolding stream
  read_frames-stream others [] rest s k runs r h = (s, stays, r, k, sym (append-nil s.published))
  read_frames-stream others ((m, payload) ∷ ms) rest s k runs r h =
      let next = after_message m (beside others s) in
      let r' : IsServing g next = record {
        running = r.running;
        is_current = r.is_current;
        is_open = r.is_open;
      } in
      let (u, e, v, l, p) =
        read_frames-stream others ms rest next (last-IsReading g others) runs r' h.1 in
      (
        u,
        rw (append_assoc (network_bytes (length payload)), append_assoc payload)
            (frame-Reads others m payload (stream ms ++ rest) rest s u k runs r h.0 e),
        v,
        l,
        p ∙ append_assoc s.published (publication_of m ∷ []) _,
      )
