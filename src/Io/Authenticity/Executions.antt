-- ===== src/Io/Authenticity/Executions.antt =====
-- Where published messages come from, in every order of calls and resumptions.
use mathlib.Core.List.{Mem, append-nil, mem-append_left, mem-append_right}
use fcitx5_scribe.Common.{
  ℕ, ◌≡◌, inl, inr, refl, sym, ap, ◌∙◌, some, List, [], ◌∷◌, ◌++◌, All, All-append, All-split,
  All-mono, All-members, map, arith,
}
use fcitx5_scribe.Io.Untouched.{
  Untouched, connect-Untouched, disconnect-Untouched, send-Untouched, stop-Untouched,
}
use fcitx5_scribe.Protocol.{Crypto, Codec}
use fcitx5_scribe.Io.State.{Shared, Publication, Task, await_payload, Wakeup, init}
use fcitx5_scribe.Io.Tasks.{resume}
use fcitx5_scribe.Io.System.{
  Step, connects, disconnects, sends, stops, resumes, Reach, start, later, taken,
}
use fcitx5_scribe.Io.Authenticity.{
  reader, readers, readers-append, messages_of, validates, message_read, resume-messages,
  resume-readers,
}

-- Messages without their generations.
abbrev pub untagged : List (ℕ × Publication) → List Publication
untagged xs = map (λ (x : ℕ × Publication). x.1) xs

module _ (crypto : Crypto) (codec : Codec) where
  abbrev pub step_validates : {s u : Shared} → Step crypto codec s u → List ℕ
  step_validates {s} (resumes before others t w at running may h) =
      validates crypto codec t w (taken (before ++ others) w s)
  step_validates _ = []

  -- The generations whose handshake ended with an answer that passed the validation.
  abbrev pub validated : {s : Shared} → Reach crypto codec s → List ℕ
  validated start = []
  validated (later r st) = validated r ++ step_validates st

  -- What a step publishes of the transcriber's messages, each with the generation of its reader.
  abbrev pub step_messages : {s u : Shared} → Step crypto codec s u → List (ℕ × Publication)
  step_messages (resumes before others (await_payload g n) w at running may h) =
      map (λ p. (g, p)) (message_read codec (await_payload g n) w)
  step_messages _ = []

  -- Each was validated.
  Known : List ℕ → List ℕ → Type 0
  Known vs gs = All (λ g. Mem g vs) gs

  Known-more : (vs ns gs : List ℕ) → Known vs gs → Known (vs ++ ns) gs
  unfolding Known
  Known-more vs ns gs h = All-mono (λ g m. mem-append_left ns m) gs h

  Known-new : (vs ns : List ℕ) → Known (vs ++ ns) ns
  unfolding Known
  Known-new vs ns = All-mono (λ g m. mem-append_right vs m) ns (All-members ns)

  -- The coroutine that is taken, and the others.
  Known-picked :
      (vs : List ℕ) (before others : List Task) (t : Task)
      → Known vs (readers (before ++ (t ∷ others)))
      → Known vs (reader t) × Known vs (readers (before ++ others))
  unfolding Known
  Known-picked vs before others t h =
      let (first, rest) =
        All-split (λ g. Mem g vs) (readers before) (reader t ++ readers others)
          (rw (readers-append before (t ∷ others)) at h) in
      let (one, last) = All-split (λ g. Mem g vs) (reader t) (readers others) rest in
      (
        one,
        rw (readers-append before others)
            (All-append (λ g. Mem g vs) (readers before) (readers others) first last),
      )

  more-Known :
      (vs : List ℕ) (t : Task) (w : Wakeup) (s : Shared)
      → Known vs (reader t)
      → Known vs (readers s.tasks)
      → Known
          (vs ++ validates crypto codec t w s)
          (readers s.tasks ++ (reader t ++ validates crypto codec t w s))
  unfolding Known
  more-Known vs t w s one rest =
      let ns = validates crypto codec t w s in
      let P : ℕ → Type 0 = λ g. Mem g (vs ++ ns) in
      All-append P (readers s.tasks) (reader t ++ ns) (Known-more vs ns (readers s.tasks) rest)
        (All-append P (reader t) ns (Known-more vs ns (reader t) one) (Known-new vs ns))

  resumed-Known :
      (vs : List ℕ) (t : Task) (w : Wakeup) (s u : Shared)
      → resume crypto codec t w s ≡ some u
      → Known vs (reader t)
      → Known vs (readers s.tasks)
      → Known (vs ++ validates crypto codec t w s) (readers u.tasks)
  resumed-Known vs t w s u h one rest = elim (resume-readers crypto codec t w s u h) [
    | inl same ↦ rw same (Known-more vs (validates crypto codec t w s) (readers s.tasks) rest)
    | inr more ↦ rw more (more-Known vs t w s one rest)
  ]

  taken-tasks : (rest : List Task) (w : Wakeup) (s : Shared) → (taken rest w s).tasks ≡ rest
  taken-tasks rest w s = ground arith

  taken-published :
      (rest : List Task) (w : Wakeup) (s : Shared) → (taken rest w s).published ≡ s.published
  taken-published rest w s = ground arith

  left-Known :
      (vs : List ℕ) (s u : Shared)
      → Untouched s u
      → Known vs (readers s.tasks)
      → Known (vs ++ []) (readers u.tasks)
  left-Known vs s u k h = rw (append-nil vs, k.tasks) h

  step-Known :
      {s u : Shared} (vs : List ℕ) (st : Step crypto codec s u)
      → Known vs (readers s.tasks)
      → Known (vs ++ step_validates st) (readers u.tasks)
  step-Known {s} vs (connects queued config) h =
      left-Known vs s _ (connect-Untouched queued config s) h
  step-Known {s} vs (disconnects queued) h = left-Known vs s _ (disconnect-Untouched queued s) h
  step-Known {s} vs (sends queued e) h = left-Known vs s _ (send-Untouched codec queued e s) h
  step-Known {s} vs stops h = left-Known vs s _ (stop-Untouched s) h
  step-Known {s} {u} vs (resumes before others t w e running may h) k =
      let (one, rest) = Known-picked vs before others t (rw e at k) in
      resumed-Known vs t w (taken (before ++ others) w s) u h one
        (rw (taken-tasks (before ++ others) w s) rest)

  readers-Known : {s : Shared} (r : Reach crypto codec s) → Known (validated r) (readers s.tasks)
  unfolding init Known
  readers-Known start = tt
  readers-Known (later r st) = step-Known (validated r) st (readers-Known r)

  tag-Known :
      (vs : List ℕ) (g : ℕ) (ps : List Publication)
      → Mem g vs
      → All (λ (x : ℕ × Publication). Mem x.0 vs) (map (λ p. (g, p)) ps)
  tag-Known vs g [] m = tt
  tag-Known vs g (p ∷ ps) m = (m, tag-Known vs g ps m)

  untagged-map : (g : ℕ) (ps : List Publication) → untagged (map (λ p. (g, p)) ps) ≡ ps
  untagged-map g [] = refl
  untagged-map g (p ∷ ps) = ap (◌∷◌ p) (untagged-map g ps)

  sources-Known :
      {s u : Shared} (vs : List ℕ) (st : Step crypto codec s u)
      → Known vs (readers s.tasks)
      → All (λ (x : ℕ × Publication). Mem x.0 vs) (step_messages st)
  unfolding Known
  sources-Known vs (resumes before others (await_payload g n) w e running may h) k =
      tag-Known vs g (message_read codec (await_payload g n) w)
        (Known-picked vs before others (await_payload g n) (rw e at k)).0.0
  sources-Known vs _ k = tt

  same_messages :
      (s u : Shared) → Untouched s u → messages_of u.published ≡ messages_of s.published ++ []
  same_messages s u k = rw (append-nil (messages_of s.published), k.published) refl

  resumed_messages :
      (rest : List Task) (t : Task) (w : Wakeup) (s u : Shared) (ms : List Publication)
      → resume crypto codec t w (taken rest w s) ≡ some u
      → message_read codec t w ≡ ms
      → messages_of u.published ≡ messages_of s.published ++ ms
  resumed_messages rest t w s u ms h e =
      resume-messages crypto codec t w (taken rest w s) u h
      ∙ ap (λ ps. messages_of ps ++ message_read codec t w) (taken-published rest w s)
      ∙ ap (λ ps. messages_of s.published ++ ps) e

  step_adds :
      {s u : Shared} (st : Step crypto codec s u)
      → messages_of u.published ≡ messages_of s.published ++ untagged (step_messages st)
  step_adds {s} (connects queued config) = same_messages s _ (connect-Untouched queued config s)
  step_adds {s} (disconnects queued) = same_messages s _ (disconnect-Untouched queued s)
  step_adds {s} (sends queued e) = same_messages s _ (send-Untouched codec queued e s)
  step_adds {s} stops = same_messages s _ (stop-Untouched s)
  step_adds {s} {u} (resumes before others (await_payload g n) w e running may h) =
      resumed_messages (before ++ others) (await_payload g n) w s u _ h
        (sym (untagged-map g (message_read codec (await_payload g n) w)))
  step_adds {s} {u} (resumes before others t w e running may h) =
      resumed_messages (before ++ others) t w s u _ h refl

  -- In every order of calls and resumptions, also when coroutines of closed connections go on: a
  -- message of the transcriber is published only when a coroutine has read and decoded it that was
  -- started for a generation whose handshake had ended before with an answer that passed the validation.
  pub messages_authentic :
      {s u : Shared} (r : Reach crypto codec s) (st : Step crypto codec s u)
      → (messages_of u.published ≡ messages_of s.published ++ untagged (step_messages st))
        × All (λ (x : ℕ × Publication). Mem x.0 (validated r)) (step_messages st)
  messages_authentic r st = (step_adds st, sources-Known (validated r) st (readers-Known r))
