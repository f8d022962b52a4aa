-- ===== src/Program/Liveness.antt =====
-- From the bytes in the socket to the text in the input context.
use fcitx5_scribe.Common.{
  ℕ, ◌≤◌, ◌≡◌, refl, ap, ◌∙◌, Bool, false, none, some, String, List, [], ◌∷◌, length, inl,
}
use fcitx5_scribe.Proto.{Bytes}
use fcitx5_scribe.Protocol.{network_bytes}
use fcitx5_scribe.Config.{Platform}
use fcitx5_scribe.Engine.State.{SessionState}
use fcitx5_scribe.Io.State.{Shared, commit_text, Task, await_header, await_payload, returned}
use fcitx5_scribe.Io.Tasks.{resume}
use fcitx5_scribe.Io.Orderly.Going.{taken-last}
use fcitx5_scribe.Program.Going.{StepOn}
use fcitx5_scribe.Io.Reading.{
  commit, IsSent, IsServing, IsReading, beside, beside-IsServing, waiting_for_payload, header_step,
  payload_step,
}
use fcitx5_scribe.Addon.State.{Addon}
use fcitx5_scribe.Addon.Delivery.{next_message}
use fcitx5_scribe.Program.{Program, Outside, ran}
use fcitx5_scribe.Program.Delivery.{IsOpen}
use fcitx5_scribe.Program.Delivered.{reads_on, with_heard}

module _ (g : ℕ) (others : List Task) (o : Outside) (room : Shared → Bool) (platform : Platform)
    (live : ℕ → Bool) where
  -- An open connection of the current generation, whose reader waits for a header, at any place beside
  -- these coroutines, and whose publications are all heard, and a session whose texts go to an object.
  pub record IsOpenThrough (x : SessionState) (object : ℕ) (p : Program) : Type 0 where
    pub reading : IsReading g others p.addon.io.tasks
    pub serving : IsServing g p.addon.io
    pub runs : p.addon.io.context_stopped ≡ false
    pub all_heard : p.addon.io.published ≡ p.heard
    pub opened : IsOpen o room platform live x object p.addon

  abbrev with_header : ℕ → Program → Program
  with_header n p = record p {
    addon = record p.addon {
      io = waiting_for_payload o.crypto o.codec g n (beside o.crypto o.codec g others p.addon.io);
    };
  }

  header_read :
      (n : ℕ) (x : SessionState) (object : ℕ) (p : Program)
      → IsOpenThrough x object p
      → 1 ≤ n
      → n ≤ 65536
      → StepOn o ((await_header g, returned none (network_bytes n)) ∷ []) p (with_header n p)
  header_read n x object p k low high = (
    ran k.reading.before k.reading.after (await_header g) (returned none (network_bytes n))
        (record {
          waits = k.reading.waits;
          runs = k.runs;
          may = tt;
          fits = tt;
          turn = inl (ap some k.serving.is_current);
        })
        (ap
            (λ ts.
              resume o.crypto o.codec (await_header g) (returned none (network_bytes n))
                (beside o.crypto o.codec g ts p.addon.io))
            k.reading.beside
          ∙ header_step o.crypto o.codec g n (beside o.crypto o.codec g others p.addon.io) low
              high),
    refl,
  )

  abbrev with_message : SessionState → String → Program → Program
  with_message x text p = reads_on g others (commit_text (next_message x text) ∷ []) p

  payload_read :
      (x : SessionState) (object : ℕ) (text : String) (payload : Bytes) (p : Program)
      → IsOpenThrough x object p
      → IsSent o.codec (commit (next_message x text), payload)
      → StepOn o
          ((await_payload g (length payload), returned none payload) ∷ [])
          (with_header (length payload) p)
          (with_message x text p)
  payload_read x object text payload p k sent =
      let m = commit (next_message x text) in
      let n = length payload in
      let s = beside o.crypto o.codec g others p.addon.io in
      let serves = beside-IsServing o.crypto o.codec g others p.addon.io k.serving in
      (
        ran others [] (await_payload g n) (returned none payload)
            (record {
              waits = refl;
              runs = k.runs;
              may = tt;
              fits = tt;
              turn = inl (ap some k.serving.is_current);
            })
            (ap (resume o.crypto o.codec (await_payload g n) (returned none payload))
                (taken-last others payload (waiting_for_payload o.crypto o.codec g n s))
              ∙ payload_step o.crypto o.codec g m n payload s serves sent.2),
        refl,
      )

  abbrev with_one : SessionState → ℕ → String → Program → Program
  with_one x object text p = with_heard g others x object (text ∷ []) p
