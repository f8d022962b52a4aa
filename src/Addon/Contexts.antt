-- ===== src/Addon/Contexts.antt =====
-- The table from input contexts to identifiers (addon.cpp).
use fcitx5_scribe.Common.{
  ℕ, ◌+◌, ◌%◌, ◌^◌, Option, none, some, [], ◌∷◌, ◌==◌, has_value, if◌then◌else◌,
}
use fcitx5_scribe.Common.Map
use fcitx5_scribe.Common.Map.{Map}
use fcitx5_scribe.Error.{ContextId}
use fcitx5_scribe.Addon.State.{Addon, InputContext}

-- `contexts_.right.find(id)`: the address.
unfoldable pub find_right : ContextId → Map ContextId → Option ℕ
find_right id [] = none
find_right id ((address, j) ∷ m) = if j == id then some address else find_right id m

-- `contexts_.right.erase`.
unfoldable pub erase_right : ContextId → Map ContextId → Map ContextId
erase_right id [] = []
erase_right id ((address, j) ∷ m) =
    let rest = erase_right id m in if j == id then rest else (address, j) ∷ rest

-- `contexts_.insert`: a pair goes in if neither of its parts is there.
unfoldable pub insert_pair : ℕ → ContextId → Map ContextId → Map ContextId
insert_pair address id m =
    if has_value (Map.find address m)
    then m
    else if has_value (find_right id m)
    then m
    else (address, id) ∷ m

module _ {T : Type 0} where
  unfoldable pub find_context_id : InputContext → Addon T → Option ContextId
  find_context_id c a = Map.find c.address a.contexts

  -- The allocation of a new identifier.
  unfoldable pub allocate : InputContext → Addon T → ContextId × Addon T
  allocate c a = (
    a.next_context_id,
    record a {
      next_context_id = (a.next_context_id + 1) % 2 ^ 64;
      contexts_by_id = Map.emplace a.next_context_id c.object a.contexts_by_id;
      contexts = insert_pair c.address a.next_context_id a.contexts;
    },
  )

  unfoldable pub ensure_context_id : InputContext → Addon T → ContextId × Addon T
  unfolding allocate
  ensure_context_id c a = elim (Map.find c.address a.contexts) [
    | some id ↦ (id, a)
    | none ↦ allocate c a
  ]

  unfoldable pub erase_context : ContextId → Addon T → Addon T
  erase_context id a =
      if has_value (Map.find id a.contexts_by_id)
      then record a {
        contexts = erase_right id a.contexts;
        contexts_by_id = Map.erase id a.contexts_by_id;
      }
      else a
