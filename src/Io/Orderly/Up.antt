-- ===== src/Io/Orderly/Up.antt =====
-- While a connection is authenticated: the reader and the writer go on to their next waits, or the
-- connection is closed.
use fcitx5_scribe.Common.{
  ℕ, ◌≡◌, inl, inr, refl, ap, ◌∙◌, Bool, true, false, none, some, List, [], ◌∷◌, ◌++◌, All, arith,
  ==_refl,
}
use fcitx5_scribe.Error.{Error, Result, ok, unexpected, ConnectionConfig}
use fcitx5_scribe.Proto.{Bytes, Envelope}
use fcitx5_scribe.Protocol.{Crypto, Codec, decode_frame}
use fcitx5_scribe.Io.State.{
  Shared, Publication, Task, start_read, await_header, await_payload, start_write, await_written,
  Wakeup, returned, commit_text, vad_timeout, protocol_error, close_connection,
}
use fcitx5_scribe.Io.Handshake.{frame_size, bad_frame_size}
use fcitx5_scribe.Io.Tasks.{resume, next_read, dispatch_envelope, next_write}
use fcitx5_scribe.Io.Orderly.{is_worker, others, IsCurrent, Fits, IsReader, IsWriter, talk, up}
use fcitx5_scribe.Io.Orderly.Picking.{others-waits}
use fcitx5_scribe.Io.Orderly.Steps.{
  Proceeds, if-Proceeds, Current, talk_then, failure-Proceeds, end-Proceeds,
}

abbrev pub up_state : ConnectionConfig → Bool → List Bytes → Shared → Shared
up_state config running frames s = record s {
  stopping = false;
  connection_active = true;
  connected = true;
  socket_open = true;
  current_config = some config;
  writer_running = running;
  outgoing_frames = frames;
}

-- The coroutines beside the reader.
abbrev pub WriterPart : ℕ → Bool → List Bytes → List Task → Type 0
WriterPart a running frames [] = (running ≡ false) × (frames ≡ [])
WriterPart a running frames (w ∷ []) = (running ≡ true) × IsWriter a frames w
WriterPart a running frames _ = ⊥

pub IsReader-IsCurrent : (a : ℕ) (x : Task) → IsReader a x → IsCurrent a x
IsReader-IsCurrent a x h = ground arith

pub IsWriter-IsCurrent :
    (a : ℕ) (frames : List Bytes) (x : Task) → IsWriter a frames x → IsCurrent a x
IsWriter-IsCurrent a frames x h = ground arith

WriterPart-Current :
    (a : ℕ) (running : Bool) (frames : List Bytes) (ws : List Task)
    → WriterPart a running frames ws
    → All (IsCurrent a) ws
WriterPart-Current a running frames [] h = tt
WriterPart-Current a running frames (w ∷ []) h = (IsWriter-IsCurrent a frames w h.1, tt)
WriterPart-Current a running frames (w ∷ v ∷ ws) h = absurd h

module _ (s : Shared) (config : ConnectionConfig) (running : Bool) (frames : List Bytes) where
  -- The reader waits again.
  reader_waits :
      (ps : List Publication) (x : Task) (ws : List Task)
      → WriterPart s.active_generation running frames ws
      → others s.tasks ≡ ws
      → IsReader s.active_generation x
      → is_worker x ≡ false
      → talk (some false) ps ≡ some true
      → Proceeds (
          some (record (up_state config running frames s) {
            published = ps;
            tasks = s.tasks ++ (x ∷ []);
          }))
  reader_waits ps x [] h o r w t = (
    _,
    refl,
    (
      refl,
      t,
      up (
        refl,
        refl,
        refl,
        refl,
        x,
        r,
        [],
        (h.0, h.1, others-waits s.tasks x w ∙ ap (λ xs. xs ++ (x ∷ [])) o),
      ),
    ),
  )
  reader_waits ps x (y ∷ []) h o r w t = (
    _,
    refl,
    (
      refl,
      t,
      up (
        refl,
        refl,
        refl,
        refl,
        x,
        r,
        y ∷ [],
        (h.0, h.1, inr (others-waits s.tasks x w ∙ ap (λ xs. xs ++ (x ∷ [])) o)),
      ),
    ),
  )
  reader_waits ps x (y ∷ z ∷ ws) h o r w t = absurd h

  module _ (ws : List Task) (h : WriterPart s.active_generation running frames ws)
      (o : others s.tasks ≡ ws) (t : talk (some false) s.published ≡ some true) where
    current : Current s
    current = rw o (WriterPart-Current s.active_generation running frames ws h)

    reader_fails :
        (e : Error) → Proceeds (close_connection (some e) true (up_state config running frames s))
    unfolding close_connection
    reader_fails e = failure-Proceeds e true (up_state config running frames s) t current

    reads_next :
        (g : ℕ) (ps : List Publication)
        → g ≡ s.active_generation
        → talk (some false) ps ≡ some true
        → Proceeds (next_read g (record (up_state config running frames s) { published = ps }))
    unfolding next_read
    reads_next g ps e p =
        let a = s.active_generation in
        rw e (rw (==_refl a) (reader_waits ps (await_header a) ws h o refl refl p))

    message_read :
        (g : ℕ) (r : Result Envelope)
        → g ≡ s.active_generation
        → Proceeds (dispatch_envelope g r (up_state config running frames s))
    unfolding dispatch_envelope
    message_read g (unexpected e) a = reader_fails e
    message_read g (ok (Envelope.commit_text m)) a =
        reads_next g _ a (talk_then s.published (commit_text m) true t)
    message_read g (ok (Envelope.vad_timeout m)) a =
        reads_next g _ a (talk_then s.published (vad_timeout m) true t)
    message_read g (ok (Envelope.error m)) a =
        reads_next g _ a (talk_then s.published (protocol_error m) true t)
    message_read g (ok _) a = reader_fails _

    pub reader_resumes :
        (crypto : Crypto) (codec : Codec) (x : Task) (w : Wakeup)
        → IsReader s.active_generation x
        → Fits x w
        → Proceeds (resume crypto codec x w (up_state config running frames s))
    unfolding resume
    reader_resumes crypto codec (start_read g) w r f = reads_next g s.published r t
    reader_resumes crypto codec (await_header g) (returned (some code) bytes) r f =
        if-Proceeds code.is_eof _ _ _ (end-Proceeds (up_state config running frames s) t current)
          (reader_fails _)
    reader_resumes crypto codec (await_header g) (returned none bytes) r f =
        if-Proceeds (bad_frame_size (frame_size bytes)) _ _ _ (reader_fails _)
          (reader_waits s.published (await_payload g (frame_size bytes)) ws h o r refl t)
    reader_resumes crypto codec (await_payload g n) (returned (some code) bytes) r f =
        reader_fails _
    reader_resumes crypto codec (await_payload g n) (returned none bytes) r f =
        message_read g (decode_frame codec bytes) r
    reader_resumes crypto codec x w r f = absurd (ground arith)

-- The writer waits again, or has ended.
writer_waits :
    (s : Shared) (config : ConnectionConfig) (frame : Bytes) (rest : List Bytes) (r : Task)
    → others s.tasks ≡ r ∷ []
    → IsReader s.active_generation r
    → talk (some false) s.published ≡ some true
    → Proceeds (
        some (record (up_state config true (frame ∷ rest) s) {
          tasks = s.tasks ++ (await_written s.active_generation frame ∷ []);
        }))
writer_waits s config frame rest r o h t =
    let w = await_written s.active_generation frame in
    (
      _,
      refl,
      (
        refl,
        t,
        up (
          refl,
          refl,
          refl,
          refl,
          r,
          h,
          w ∷ [],
          (refl, (refl, refl), inl (others-waits s.tasks w refl ∙ ap (λ xs. xs ++ (w ∷ [])) o)),
        ),
      ),
    )

writer_ended :
    (s : Shared) (config : ConnectionConfig) (r : Task)
    → others s.tasks ≡ r ∷ []
    → IsReader s.active_generation r
    → talk (some false) s.published ≡ some true
    → Proceeds (some (up_state config false [] s))
writer_ended s config r o h t =
    (_, refl, (refl, t, up (refl, refl, refl, refl, r, h, [], (refl, refl, o))))

module _ (s : Shared) (config : ConnectionConfig) (r : Task) (o : others s.tasks ≡ r ∷ [])
    (h : IsReader s.active_generation r) (t : talk (some false) s.published ≡ some true) where
  writes_next :
      (g : ℕ) (frames : List Bytes)
      → g ≡ s.active_generation
      → Proceeds (next_write g (up_state config true frames s))
  unfolding next_write
  writes_next g [] e = rw e (rw (==_refl s.active_generation) (writer_ended s config r o h t))
  writes_next g (frame ∷ rest) e =
      rw e (rw (==_refl s.active_generation) (writer_waits s config frame rest r o h t))

  pub writer_resumes :
      (crypto : Crypto) (codec : Codec) (frames : List Bytes) (x : Task) (w : Wakeup)
      → IsWriter s.active_generation frames x
      → Fits x w
      → Proceeds (resume crypto codec x w (up_state config true frames s))
  unfolding resume
  writer_resumes crypto codec frames (start_write g) w h' f = writes_next g frames h'
  writer_resumes crypto codec frames (await_written g frame) (returned (some code) bytes) h' f =
      failure-Proceeds _ true (up_state config true frames s) t
        (rw o (IsReader-IsCurrent s.active_generation r h, tt))
  writer_resumes crypto codec [] (await_written g frame) (returned none bytes) h' f = absurd h'.1
  writer_resumes crypto codec (front ∷ rest) (await_written g frame) (returned none bytes) h' f =
      writes_next g rest h'.0
  writer_resumes crypto codec frames x w h' f = absurd (ground arith)
