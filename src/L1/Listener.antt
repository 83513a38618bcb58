-- ===== src/L1/Listener.antt =====
-- The observers of the L1 manager: `Listener` of mini_llmcache/l1/manager.py and its two classes,
-- `LRUPolicy` (mini_llmcache/l1/eviction.py) and `StoreController`
-- (mini_llmcache/l1/store_controller.py), each with the state that its handlers change.
use mini_llmcache.Base.{
  ℕ, List, [], ◌∷◌, ◌++◌, Bool, ite, max, ◌*◌, ◌/◌, leb, length, if◌then◌else◌,
}
use mini_llmcache.Protocol.{ChunkKey, key_dec}

pub data Event : Type 0 where
  on_created on_write_finished on_touched on_removed : Event

-- `policy order`: the keys of the `OrderedDict`, the least recent first. `writer pending`: the
-- queue of the write-back thread, the oldest batch first.
pub data Listener : Type 0 where
  policy : List ChunkKey → Listener
  writer : List (List ChunkKey) → Listener

-- `order.pop(key, None)`
unfoldable pub discard : ChunkKey → List ChunkKey → List ChunkKey
discard key [] = []
discard key (k ∷ order) = ite (key_dec key k) order (k ∷ discard key order)

-- `LRUPolicy.on_created`, which is also `on_touched`: from the last key to the first, each becomes
-- the most recent one.
unfoldable pub created : List ChunkKey → List ChunkKey → List ChunkKey
created [] order = order
created (key ∷ keys) order = discard key (created keys order) ++ (key ∷ [])

-- `LRUPolicy.on_removed`
unfoldable pub removed : List ChunkKey → List ChunkKey → List ChunkKey
removed [] order = order
removed (key ∷ keys) order = removed keys (discard key order)

-- `getattr(listener, event)(keys)`
unfoldable pub deliver : Event → List ChunkKey → Listener → Listener
deliver on_created keys (policy order) = policy (created keys order)
deliver on_touched keys (policy order) = policy (created keys order)
deliver on_removed keys (policy order) = policy (removed keys order)
deliver on_write_finished keys (policy order) = policy order
deliver on_write_finished keys (writer pending) = writer (pending ++ (keys ∷ []))
deliver on_created keys (writer pending) = writer pending
deliver on_touched keys (writer pending) = writer pending
deliver on_removed keys (writer pending) = writer pending

-- The loop of `get_victims`, which has found `victims` keys so far.
unfoldable pub collect : ℕ → (ChunkKey → Bool) → List ChunkKey → List ChunkKey → List ChunkKey
collect target eligible [] victims = victims
collect target eligible (key ∷ order) victims =
    let rest =
      collect target eligible order (if eligible key then victims ++ (key ∷ []) else victims) in
    if leb target (length victims) then victims else rest

-- `LRUPolicy.get_victims`, at the ratio `num / den`.
unfoldable pub get_victims : ℕ → ℕ → (ChunkKey → Bool) → List ChunkKey → List ChunkKey
get_victims num den eligible order = collect (max 1 (length order * num / den)) eligible order []
