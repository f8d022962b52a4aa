-- ===== src/Io/Reads.antt =====
-- The messages that are published are those that are read, in their order.
use mathlib.Core.List.{append-nil}
use fcitx5_scribe.Common.{
  ◌≡◌, ◌⊎◌, inl, inr, refl, sym, ap, ◌∙◌, none, some, List, [], ◌∷◌, ◌++◌, arith,
}
use fcitx5_scribe.Error.{Result, ok}
use fcitx5_scribe.Proto.{Envelope, CommitText}
use fcitx5_scribe.Protocol.{Crypto, Codec, decode_frame}
use fcitx5_scribe.Io.State.{
  Shared, Publication, commit_text, Task, await_command, await_payload, Wakeup, returned,
  close_connection,
}
use fcitx5_scribe.Io.Tasks.{resume}

abbrev pub commits_of : List Publication → List CommitText
commits_of [] = []
commits_of (commit_text m ∷ ps) = m ∷ commits_of ps
commits_of (_ ∷ ps) = commits_of ps

abbrev pub commits_in : Publication → List CommitText
commits_in (commit_text m) = m ∷ []
commits_in _ = []

pub commits_of-snoc :
    (ps : List Publication) (p : Publication)
    → commits_of (ps ++ (p ∷ [])) ≡ commits_of ps ++ commits_in p
commits_of-snoc [] p = ground arith
commits_of-snoc (commit_text m ∷ ps) p = ap (◌∷◌ m) (commits_of-snoc ps p)
commits_of-snoc (_ ∷ ps) p = commits_of-snoc ps p

abbrev pub commit_decoded : Result Envelope → List CommitText
commit_decoded (ok (Envelope.commit_text m)) = m ∷ []
commit_decoded _ = []

-- All but the last.
front : List Publication → List Publication
front [] = []
front (p ∷ []) = []
front (p ∷ q ∷ ps) = p ∷ front (q ∷ ps)

front-snoc : (ps : List Publication) (p : Publication) → front (ps ++ (p ∷ [])) ≡ ps
unfolding front
front-snoc [] p = refl
front-snoc (q ∷ []) p = refl
front-snoc (q ∷ r ∷ ps) p = ap (◌∷◌ q) (front-snoc (r ∷ ps) p)

front-rest : (xs : List Publication) → (ps : List Publication) × (xs ≡ front xs ++ ps)
unfolding front
front-rest [] = ([], refl)
front-rest (p ∷ []) = (p ∷ [], refl)
front-rest (p ∷ q ∷ ps) = let (rest, e) = front-rest (q ∷ ps) in (rest, ap (◌∷◌ p) e)

grown :
    (xs ys : List Publication)
    → (xs ≡ ys) ⊎ (front xs ≡ ys)
    → (ps : List Publication) × (xs ≡ ys ++ ps)
grown xs ys (inl e) = ([], e ∙ sym (append-nil ys))
grown xs ys (inr e) = let (ps, same) = front-rest xs in (ps, same ∙ ap (λ zs. zs ++ ps) e)

module _ (crypto : Crypto) (codec : Codec) where
  -- The commit that a finished read decodes to.
  abbrev pub commit_read : Task → Wakeup → List CommitText
  commit_read (await_payload g n) (returned none payload) =
      commit_decoded (decode_frame codec payload)
  commit_read _ _ = []

  pub resume-reads :
      (t : Task) (w : Wakeup) (s u : Shared)
      → resume crypto codec t w s ≡ some u
      → commits_of u.published ≡ commits_of s.published ++ commit_read t w
  unfolding resume close_connection
  resume-reads await_command w s u h = grind (arith, commits_of-snoc, append-nil)
  resume-reads _ w s u h = grind (arith, commits_of-snoc, append-nil)

  resume-front :
      (t : Task) (w : Wakeup) (s u : Shared)
      → resume crypto codec t w s ≡ some u
      → (u.published ≡ s.published) ⊎ (front u.published ≡ s.published)
  unfolding resume close_connection
  resume-front await_command w s u h = grind (arith, front-snoc)
  resume-front _ w s u h = grind (arith, front-snoc)

  -- What was published stays.
  pub resume-grows :
      (t : Task) (w : Wakeup) (s u : Shared)
      → resume crypto codec t w s ≡ some u
      → (ps : List Publication) × (u.published ≡ s.published ++ ps)
  resume-grows t w s u h = grown u.published s.published (resume-front t w s u h)
