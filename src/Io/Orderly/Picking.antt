-- ===== src/Io/Orderly/Picking.antt =====
-- Taking one coroutine out of those that wait.
use mathlib.Core.List.{append-nil}
use fcitx5_scribe.Common.{
  ◌≡◌, ◌⊎◌, inl, inr, refl, sym, ap, ◌∙◌, Bool, true, false, Option, List, [], ◌∷◌, ◌++◌, All,
  arith, Bool-cases,
}
use fcitx5_scribe.Io.State.{Task, await_command, Publication}
use fcitx5_scribe.Io.Orderly.{is_worker, others, talk, hear_next}

pub others-append : (xs ys : List Task) → others (xs ++ ys) ≡ others xs ++ others ys
others-append [] ys = refl
others-append (x ∷ xs) ys = ground (arith, others-append xs ys)

-- The list with the element, and without it.
pub record Picked (t : Task) (with without : List Task) : Type 0 where
  pub before : List Task
  pub after : List Task
  pub has : with ≡ before ++ (t ∷ after)
  pub lacks : without ≡ before ++ after

pub Picked-one : (t x : Task) (ys : List Task) → Picked t (x ∷ []) ys → (t ≡ x) × (ys ≡ [])
Picked-one t x ys p = go p.before p.after p.has p.lacks
  where
    go : (b a : List Task) → x ∷ [] ≡ b ++ (t ∷ a) → ys ≡ b ++ a → (t ≡ x) × (ys ≡ [])
    go [] a h l = ground arith
    go (z ∷ []) a h l = ground arith
    go (z ∷ z' ∷ b) a h l = ground arith

pub Picked-two :
    (t x y : Task) (ys : List Task)
    → Picked t (x ∷ y ∷ []) ys
    → ((t ≡ x) × (ys ≡ y ∷ [])) ⊎ ((t ≡ y) × (ys ≡ x ∷ []))
Picked-two t x y ys p = go p.before p.after p.has p.lacks
  where
    go :
        (b a : List Task)
        → x ∷ y ∷ [] ≡ b ++ (t ∷ a)
        → ys ≡ b ++ a
        → ((t ≡ x) × (ys ≡ y ∷ [])) ⊎ ((t ≡ y) × (ys ≡ x ∷ []))
    go [] a h l = inl (ground arith)
    go (z ∷ []) a h l = inr (ground arith)
    go (z ∷ z' ∷ []) a h l = ground arith
    go (z ∷ z' ∷ z'' ∷ b) a h l = ground arith

-- A coroutine of a connection is picked among those of the connection.
pub others-Picked :
    (before after : List Task) (t : Task)
    → is_worker t ≡ false
    → Picked t (others (before ++ (t ∷ after))) (others (before ++ after))
others-Picked before after t w = record {
  before = others before;
  after = others after;
  has = others-append before (t ∷ after) ∙ (rw w refl);
  lacks = others-append before after;
}

pub others-worker :
    (before after : List Task)
    → others (before ++ (await_command ∷ after)) ≡ others (before ++ after)
others-worker before after =
    others-append before (await_command ∷ after) ∙ sym (others-append before after)

pub All-Picked {κ} :
    (P : Task → Type κ) (t : Task) (xs ys : List Task) → Picked t xs ys → All P xs → P t × All P ys
All-Picked P t xs ys p h = go p.before xs ys p.has p.lacks h
  where
    go :
        (b xs ys : List Task)
        → xs ≡ b ++ (t ∷ p.after)
        → ys ≡ b ++ p.after
        → All P xs
        → P t × All P ys
    go [] xs ys x y h = rw y (rw x at h)
    go (z ∷ b) xs ys x y h =
        let split = (rw x at h) in
        let (found, rest) = go b (b ++ (t ∷ p.after)) (b ++ p.after) refl refl split.1 in
        (found, rw y (split.0, rest))

pub talk-append :
    (o : Option Bool) (ps : List Publication) (p : Publication)
    → talk o (ps ++ (p ∷ [])) ≡ hear_next p (talk o ps)
talk-append o [] p = refl
talk-append o (q ∷ ps) p = talk-append (hear_next q o) ps p

-- The worker waits again, and a coroutine of the connection waits or was spawned.
pub others-worker_waits : (ts : List Task) → others (ts ++ (await_command ∷ [])) ≡ others ts
others-worker_waits ts = others-append ts (await_command ∷ []) ∙ append-nil (others ts)

pub others-waits :
    (ts : List Task) (t : Task)
    → is_worker t ≡ false
    → others (ts ++ (t ∷ [])) ≡ others ts ++ (t ∷ [])
others-waits ts t w = others-append ts (t ∷ []) ∙ (rw w refl)

pub others-begins :
    (ts xs : List Task) (t : Task)
    → is_worker t ≡ false
    → others ts ≡ xs
    → others ((ts ++ (t ∷ [])) ++ (await_command ∷ [])) ≡ xs ++ (t ∷ [])
others-begins ts xs t w e =
    others-worker_waits (ts ++ (t ∷ [])) ∙ others-waits ts t w ∙ ap (λ xs. xs ++ (t ∷ [])) e

abbrev pub Pick : Task → List Task → List Task → Type 0
Pick t with without =
    ((t ≡ await_command) × (without ≡ with)) ⊎ ((is_worker t ≡ false) × Picked t with without)

worker_is : (t : Task) → is_worker t ≡ true → t ≡ await_command
worker_is t h = ground arith

-- What is taken is the worker, or one of the others.
pub picks :
    (before after ts : List Task) (t : Task)
    → ts ≡ before ++ (t ∷ after)
    → Pick t (others ts) (others (before ++ after))
picks before after ts t e = elim (Bool-cases (is_worker t)) [
  | inl w ↦ inl (worker_is t w, rw (e, worker_is t w) (sym (others-worker before after)))
  | inr w ↦ inr (w, rw e (others-Picked before after t w))
]
