-- ===== src/Io/Link/Promises.antt =====
-- What every run of the link promises: frames in order, each at most once, and a conversation that makes sense.
use mathlib.Core.List.Sublist
use mathlib.Core.List.{Sublist, nil-sublist, append-nil, append_assoc}
use fcitx5_scribe.Common.{
  ◌≡◌, refl, ap, ◌∙◌, Bool, true, false, Option, some, List, [], ◌∷◌, ◌++◌, arith,
}
use fcitx5_scribe.Proto.{Bytes}
use fcitx5_scribe.Protocol.{Crypto, Codec}
use fcitx5_scribe.Io.Orderly.Runs.{TurnReach}
use fcitx5_scribe.Io.Link.Refinement.{ever_handed, ever_written, runs_the_link}
use fcitx5_scribe.Io.State.{Shared, Publication}
use fcitx5_scribe.Io.Orderly.{hear_next, talk}
use fcitx5_scribe.Io.Link.{
  Phase, serving, IsMessage, Move, Run, begins, moves, rests, dials, waits, given_up, fails, opens,
  works, tells, breaks, ends, phase_of,
}

-- The frames that wait in a phase.
abbrev pub waiting_in : Phase → List Bytes
waiting_in (serving frames) = frames
waiting_in _ = []

abbrev pub serves : Phase → Bool
serves (serving frames) = true
serves _ = false

-- A move writes from those that waited and those it was handed, from the front; the rest goes on
-- waiting or is dropped.
Move-Sublist :
    {p q : Phase} {handed written : List Bytes} {news : List Publication}
    → Move p handed written news q
    → Sublist (written ++ waiting_in q) (waiting_in p ++ handed)
Move-Sublist (rests handed) = nil-sublist handed
Move-Sublist dials = nil-sublist []
Move-Sublist (waits handed) = nil-sublist handed
Move-Sublist given_up = nil-sublist []
Move-Sublist (fails e) = nil-sublist []
Move-Sublist opens = nil-sublist []
Move-Sublist (works frames others handed written e) = rw e (Sublist.refl (frames ++ handed))
Move-Sublist (tells frames p k) = rw (append-nil frames) (Sublist.refl frames)
Move-Sublist (breaks frames e) = nil-sublist (frames ++ [])
Move-Sublist (ends frames) = nil-sublist (frames ++ [])

hear_message : (p : Publication) → IsMessage p → hear_next p (some true) ≡ some true
hear_message p k = ground arith

Move-talk :
    {p q : Phase} {handed written : List Bytes} {news : List Publication}
    → Move p handed written news q
    → talk (some (serves p)) news ≡ some (serves q)
Move-talk (rests handed) = refl
Move-talk dials = refl
Move-talk (waits handed) = refl
Move-talk given_up = refl
Move-talk (fails e) = refl
Move-talk opens = refl
Move-talk (works frames others handed written e) = refl
Move-talk (tells frames p k) = hear_message p k
Move-talk (breaks frames e) = refl
Move-talk (ends frames) = refl

talk-append : (o : Option Bool) (ps qs : List Publication) → talk o (ps ++ qs) ≡ talk (talk o ps) qs
talk-append o [] qs = refl
talk-append o (p ∷ ps) qs = talk-append (hear_next p o) ps qs

-- Lists that end in a common one, of which the second goes on with more.
Sublist-goes_on :
    (ws hs written others waiting handed : List Bytes)
    → Sublist (ws ++ waiting) hs
    → Sublist (written ++ others) (waiting ++ handed)
    → Sublist ((ws ++ written) ++ others) (hs ++ handed)
Sublist-goes_on ws hs written others waiting handed before move =
    Sublist.trans
      (rw (append_assoc ws written others, append_assoc ws waiting handed)
        (Sublist.append (Sublist.refl ws) move))
      (Sublist.append before (Sublist.refl handed))

pub Run-Sublist :
    {hs ws : List Bytes} {ps : List Publication} {p : Phase}
    → Run hs ws ps p
    → Sublist (ws ++ waiting_in p) hs
Run-Sublist begins = nil-sublist []
Run-Sublist (moves {hs} {ws} {ps} {p} {q} {handed} {written} r m) =
    Sublist-goes_on ws hs written (waiting_in q) (waiting_in p) handed (Run-Sublist r)
      (Move-Sublist m)

pub Run-talk :
    {hs ws : List Bytes} {ps : List Publication} {p : Phase}
    → Run hs ws ps p
    → talk (some false) ps ≡ some (serves p)
Run-talk begins = refl
Run-talk (moves {ps} {p} {news} r m) =
    talk-append (some false) ps news ∙ ap (λ o. talk o news) (Run-talk r) ∙ Move-talk m

-- In every execution in which the commands come in turn, over all its connections: the frames that
-- were written, followed by those that wait, are a sublist of those that the actor was handed. No frame
-- is written twice, before an earlier one, or without having been handed over.
pub written_from_handed :
    (crypto : Crypto) (codec : Codec) {s : Shared} (r : TurnReach crypto codec s)
    → Sublist (ever_written crypto codec r ++ waiting_in (phase_of s)) (ever_handed crypto codec r)
written_from_handed crypto codec r = Run-Sublist (runs_the_link crypto codec r)
