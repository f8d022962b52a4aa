-- ===== src/Addon/Identity.antt =====
-- The bimap of `contexts_` is one, and identifiers are not used twice.
use fcitx5_scribe.Common.{
  ℕ, suc, ◌+◌, ◌^◌, ◌≤◌, ◌<◌, ◌≡◌, refl, ◌∙◌, sym, true, none, some, [], ◌∷◌, Option-cases, inl,
  inr, ◌≢◌, arith, has_value, holds, ◌==◌, if◌then◌else◌,
}
use fcitx5_scribe.Common.Map
use fcitx5_scribe.Common.Map.{Map, find-emplace, find-erase}
use fcitx5_scribe.Error.{ContextId}
use fcitx5_scribe.Addon.State.{Addon, InputContext}
use fcitx5_scribe.Addon.Contexts.{
  find_right, erase_right, insert_pair, find_context_id, ensure_context_id, allocate, erase_context,
}

-- No address and no identifier is there twice.
abbrev pub IsBimap : Map ContextId → Type 0
IsBimap [] = Unit
IsBimap ((address, id) ∷ m) = (Map.find address m ≡ none) × (find_right id m ≡ none) × IsBimap m

find-left_of_right :
    (m : Map ContextId) (address id : ℕ)
    → IsBimap m
    → find_right id m ≡ some address
    → Map.find address m ≡ some id
unfolding find_right Map.find
find-left_of_right [] address id h e = ground arith
find-left_of_right ((x, y) ∷ m) address id h e = ground (arith, find-left_of_right m address id h.2)

find-right_of_left :
    (m : Map ContextId) (address id : ℕ)
    → IsBimap m
    → Map.find address m ≡ some id
    → find_right id m ≡ some address
unfolding find_right Map.find
find-right_of_left [] address id h e = ground arith
find-right_of_left ((x, y) ∷ m) address id h e = ground (arith, find-right_of_left m address id h.2)

find_right-erase_right :
    (id j : ContextId) (m : Map ContextId)
    → find_right j (erase_right id m) ≡ (if id == j then none else find_right j m)
unfolding find_right erase_right
find_right-erase_right id j [] = ground arith
find_right-erase_right id j ((x, y) ∷ m) = ground (arith, find_right-erase_right id j m)

find-erase_right-none :
    (id : ContextId) (address : ℕ) (m : Map ContextId)
    → Map.find address m ≡ none
    → Map.find address (erase_right id m) ≡ none
unfolding Map.find erase_right
find-erase_right-none id address [] h = ground arith
find-erase_right-none id address ((x, y) ∷ m) h = ground (arith, find-erase_right-none id address m)

find-erase_right :
    (id : ContextId) (address : ℕ) (m : Map ContextId)
    → IsBimap m
    → Map.find address (erase_right id m)
      ≡ (if holds (Map.find address m) id then none else Map.find address m)
unfolding Map.find erase_right
find-erase_right id address [] h = ground arith
find-erase_right id address ((x, y) ∷ m) h =
    ground (arith, find-erase_right id address m h.2, find-erase_right-none id address m)

erase_right-IsBimap : (id : ContextId) (m : Map ContextId) → IsBimap m → IsBimap (erase_right id m)
unfolding erase_right
erase_right-IsBimap id [] h = tt
erase_right-IsBimap id ((x, y) ∷ m) h = ground (
  arith,
  erase_right-IsBimap id m h.2,
  find-erase_right-none id x m h.0,
  find_right-erase_right id y m,
)

distinct :
    (c d : InputContext) (id : ContextId) (m : Map ContextId)
    → IsBimap m
    → c.address ≢ d.address
    → Map.find c.address m ≡ some id
    → Map.find d.address m ≢ some id
distinct c d id m h n e f =
    let x = find-right_of_left m c.address id h e in
    let y = find-right_of_left m d.address id h f in n (ground arith)

-- The two maps fit together: the numbers from `next` on are unused, and an identifier of the bimap
-- has a tracked object.
pub record IsTable (next : ContextId) (contexts : Map ContextId) (by_id : Map ℕ) : Type 0 where
  pub bimap : IsBimap contexts
  pub unused : (id : ContextId) → next ≤ id → find_right id contexts ≡ none
  pub untracked : (id : ContextId) → next ≤ id → Map.find id by_id ≡ none
  pub tracked :
      (id : ContextId) (address : ℕ)
      → find_right id contexts ≡ some address
      → has_value (Map.find id by_id) ≡ true

module _ {T : Type 0} where
  abbrev pub HasTable : Addon T → Type 0
  HasTable a = IsTable a.next_context_id a.contexts a.contexts_by_id

  allocate-HasTable :
      (c : InputContext) (a : Addon T)
      → a.next_context_id + 1 < 2 ^ 64
      → Map.find c.address a.contexts ≡ none
      → HasTable a
      → HasTable (allocate c a).1
  unfolding allocate insert_pair find_right Map.find
  allocate-HasTable c a b e h = record {
    bimap = ground (arith, h.bimap, h.unused a.next_context_id);
    unused = λ id le. ground (arith, h.unused id, h.unused a.next_context_id);
    untracked = λ id le.
        ground (arith, h.untracked id, find-emplace a.next_context_id id c.object a.contexts_by_id);
    tracked = λ id address f. ground (
      arith,
      h.tracked id address,
      h.unused a.next_context_id,
      find-emplace a.next_context_id id c.object a.contexts_by_id,
    );
  }

  ensure_known :
      (c : InputContext) (a : Addon T) (id : ContextId)
      → Map.find c.address a.contexts ≡ some id
      → ensure_context_id c a ≡ (id, a)
  unfolding ensure_context_id
  ensure_known c a id e = rw (ensure_context_id, e) refl

  ensure_new :
      (c : InputContext) (a : Addon T)
      → Map.find c.address a.contexts ≡ none
      → ensure_context_id c a ≡ allocate c a
  unfolding ensure_context_id
  ensure_new c a e = rw (ensure_context_id, e) refl

  pub ensure_context_id-HasTable :
      (c : InputContext) (a : Addon T)
      → a.next_context_id + 1 < 2 ^ 64
      → HasTable a
      → HasTable (ensure_context_id c a).1
  ensure_context_id-HasTable c a b h = elim (Option-cases (Map.find c.address a.contexts)) [
    | inl e ↦ rw (ensure_new c a e) (allocate-HasTable c a b e h)
    | inr (id, e) ↦ rw (ensure_known c a id e) h
  ]

  allocate-find :
      (c : InputContext) (a : Addon T)
      → Map.find c.address a.contexts ≡ none
      → HasTable a
      → Map.find c.address (allocate c a).1.contexts ≡ some a.next_context_id
  unfolding allocate insert_pair Map.find
  allocate-find c a e h = ground (arith, h.unused a.next_context_id)

  allocate-others :
      (c d : InputContext) (a : Addon T)
      → c.address ≢ d.address
      → Map.find d.address (allocate c a).1.contexts ≡ Map.find d.address a.contexts
  unfolding allocate insert_pair Map.find
  allocate-others c d a n = ground arith

  unissued :
      (address : ℕ) (a : Addon T)
      → HasTable a
      → Map.find address a.contexts ≢ some a.next_context_id
  unissued address a h e =
      let x = find-right_of_left a.contexts address a.next_context_id h.bimap e in
      let y = h.unused a.next_context_id (omega arith) in ground arith

  -- In a sound table, a context has its identifier after `ensureContextId` and gets the same one when
  -- it asks again; the other contexts keep theirs, which are different from it.
  pub ensure_context_id-stable :
      (c d : InputContext) (a : Addon T)
      → HasTable a
      → c.address ≢ d.address
      → let (id, b) = ensure_context_id c a in
        (find_context_id c b ≡ some id)
        × (ensure_context_id c b ≡ (id, b))
        × (find_context_id d b ≡ find_context_id d a)
        × (find_context_id d b ≢ some id)
  unfolding find_context_id allocate
  ensure_context_id-stable c d a h n = elim (Option-cases (Map.find c.address a.contexts)) [
    | inl e ↦
        let f = allocate-find c a e h in
        let o = allocate-others c d a n in
        rw (ensure_new c a e) (
          f,
          ensure_known c (allocate c a).1 a.next_context_id f,
          o,
          λ g. unissued d.address a h (sym o ∙ g),
        )
    | inr (id, e) ↦
        rw (ensure_known c a id e)
          (e, ensure_known c a id e, refl, distinct c d id a.contexts h.bimap n e)
  ]

  pub erase_context-HasTable :
      (id : ContextId) (a : Addon T) → HasTable a → HasTable (erase_context id a)
  unfolding erase_context
  erase_context-HasTable id a h = elim (Option-cases (Map.find id a.contexts_by_id)) [
    | inl e ↦ rw e h
    | inr (object, e) ↦ rw e (record {
      bimap = erase_right-IsBimap id a.contexts h.bimap;
      unused = λ j le. ground (arith, h.unused j, find_right-erase_right id j a.contexts);
      untracked = λ j le. ground (arith, h.untracked j, find-erase id j a.contexts_by_id);
      tracked = λ j address f. ground (
        arith,
        h.tracked j address,
        find_right-erase_right id j a.contexts,
        find-erase id j a.contexts_by_id,
      );
    })
  ]

  pub ensure_context_id-engine :
      (c : InputContext) (a : Addon T) → (ensure_context_id c a).1.engine ≡ a.engine
  unfolding ensure_context_id allocate
  ensure_context_id-engine c a = ground arith

  pub ensure_context_id-next :
      (c : InputContext) (a : Addon T)
      → (ensure_context_id c a).1.next_context_id ≤ suc a.next_context_id
  unfolding ensure_context_id allocate
  ensure_context_id-next c a = ground arith
