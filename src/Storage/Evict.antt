-- ===== src/Storage/Evict.antt =====
-- The rounds of the two background threads: `EvictionController.run` of
-- mini_llmcache/l1/eviction.py and `StoreController.run` of mini_llmcache/l1/store_controller.py.
pub mod Victims
pub mod Rounds
pub mod Keeps
use mini_llmcache.Base.{
  ℕ, ◌*◌, List, [], ◌∷◌, map, Option, none, some, Bool, true, false, Action, ok, pure, raise, ◌>>=◌,
  if◌then◌else◌, ltb, ◌==◌, zero_division_error,
}
use mini_llmcache.Base.Int.{ℤ, pos, negsuc}
use mini_llmcache.Base.Dict
use mini_llmcache.Protocol.{ChunkKey, key_dec}
use mini_llmcache.L1.Memory.{MemoryObj}
use mini_llmcache.L1.Listener.{Listener, policy, writer, get_victims}
use mini_llmcache.L1.Manager.{
  L1Manager, Reserved, is_evictable, delete, usage, reserve_read, finish_read,
}
use mini_llmcache.L2.{Adapter}
use mini_llmcache.L2
use mini_llmcache.Storage.{Storage, on_l1}

-- The order that the policy keeps, among the listeners.
unfoldable pub policy_order : List Listener → List ChunkKey
policy_order [] = []
policy_order (policy order ∷ ls) = order
policy_order (writer pending ∷ ls) = policy_order ls

-- `used / total < WATERMARK`, at the watermark 4/5 and with exact quotients.
unfoldable pub below_watermark : ℤ → ℕ → Bool
below_watermark (pos used) total = ltb (5 * used) (4 * total)
below_watermark (negsuc n) total = true

-- One round of the eviction thread; the ratio is 1/5. A pool of 0 bytes raises
-- ZeroDivisionError.
unfoldable pub evict_round : Action L1Manager (Unit {0})
unfolding below_watermark policy_order
evict_round m =
    let (used, total) = usage m in
    if total == 0
    then raise zero_division_error m
    else if below_watermark used total
    then (ok tt, m)
    else (delete (get_victims 1 5 (is_evictable m) (policy_order m.listeners)) false >>= λ _.
          pure tt)
        m

-- `pending.get()`: the oldest batch, and the listeners without it.
unfoldable pub take_batch : List Listener → Option (List ChunkKey × List Listener)
take_batch [] = none
take_batch (writer (keys ∷ pending) ∷ ls) = some (keys, writer pending ∷ ls)
take_batch (writer [] ∷ ls) = none
take_batch (policy order ∷ ls) = elim (take_batch ls) [
  | none ↦ none
  | some (keys, ls') ↦ some (keys, policy order ∷ ls')
]

-- The keys that were locked, with their objects.
unfoldable pub locked_objs : List ChunkKey → Reserved → List (ChunkKey × MemoryObj)
locked_objs [] reserved = []
locked_objs (key ∷ keys) reserved = elim (Dict.lookup key_dec key reserved) [
  | none ↦ locked_objs keys reserved
  | some found ↦ elim found [
    | none ↦ locked_objs keys reserved
    | some obj ↦ (key, obj) ∷ locked_objs keys reserved
  ]
]

-- One round of the write-back thread, on a batch that it has taken from its queue. Where nothing
-- could be locked, nothing is stored. The adapters' stores return.
unfoldable pub store_batch : List ChunkKey → Action Storage (Unit {0})
unfolding locked_objs
store_batch keys s =
    let (reserved, m) = reserve_read keys s.l1 in
    let locked = locked_objs keys reserved in
    on_l1 (finish_read (map (λ p. p.0) locked)) (record s {
      l1 = m;
      l2s = map (L2.store (map (λ p. p.0) locked) (map (λ p. p.1) locked) m.allocator) s.l2s;
    })

-- One round of the thread; with an empty queue it waits.
unfoldable pub store_round : Action Storage (Unit {0})
unfolding take_batch store_batch
store_round s = elim (take_batch s.l1.listeners) [
  | none ↦ (ok tt, s)
  | some (keys, ls) ↦ store_batch keys (record s { l1 = record s.l1 { listeners = ls } })
]
