-- ===== src/Storage.antt =====
-- mini_llmcache/storage_manager.py: the storage stack of the cache server, as one state that its
-- threads share. A step of a thread is what it does under one lock.
pub mod Keeps
pub mod Prefetch
pub mod Evict
use mini_llmcache.Base.{ℕ, List, [], ◌∷◌, Option, none, some, Action, Outcome, if◌then◌else◌, Bool}
use mini_llmcache.Base.Dict.{Dict}
use mini_llmcache.Protocol.{Text, ChunkKey}
use mini_llmcache.L1.Memory
use mini_llmcache.L1.Listener.{Listener, policy, writer}
use mini_llmcache.L1.Manager.{L1Manager, register_listener}
use mini_llmcache.L1.Manager
use mini_llmcache.L2.{Adapter}

-- An element of the prefetcher's queue.
pub record Job : Type 0 where
  pub request_id : Text
  pub keys : List ChunkKey
  pub chunk_nbytes : Option ℕ

-- `hits` maps a request to `None` while its lookup is pending, else to the numbers of L1 and L2
-- hits; the transfer rate that it also holds is only printed. `held` maps it to the keys that it
-- holds read locks on, in order.
pub record Storage : Type 0 where
  pub l1 : L1Manager
  pub l2s : List Adapter
  pub jobs : List Job
  pub hits : Dict Text (Option (ℕ × ℕ))
  pub held : Dict Text (List ChunkKey)

-- The store controller registers itself if there is an adapter, and before the policy.
abbrev pub add_writer : List Adapter → L1Manager → L1Manager
add_writer [] m = m
add_writer (a ∷ l2s) m = register_listener (writer []) m

-- `StorageManager(capacity_bytes, l2s)`
unfoldable pub init : ℕ → (ℕ → ℕ) → List Adapter → Storage
init capacity contents l2s = record {
  l1 =
      register_listener (policy []) (add_writer l2s (Manager.init (Memory.init capacity contents)));
  l2s = l2s;
  jobs = [];
  hits = [];
  held = [];
}

-- A call of a method of `self.l1`.
abbrev pub on_l1 : {A : Type 0} → Action L1Manager A → Action Storage A
on_l1 f s = let (r, m) = f s.l1 in (r, record s { l1 = m })
