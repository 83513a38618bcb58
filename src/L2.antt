-- ===== src/L2.antt =====
-- mini_llmcache/l2: the adapters of the secondary storage. `L2Adapter` has two subclasses, which are
-- the constructors here. An adapter's worker runs its tasks one by one, so a task is one step, and
-- an exception in it is what the future's `result()` raises.
pub mod Mock
pub mod Fs
pub mod Found
pub mod Writes
pub mod Loads
use mini_llmcache.Base.{ℕ, List, Outcome, ok, raised, Action}
use mini_llmcache.Protocol.{ChunkKey}
use mini_llmcache.L1.Memory.{MemoryObj, PoolAllocator}
use Mock.{MockAdapter}
use Fs.{FsAdapter}

pub data Adapter : Type 0 where
  mock : MockAdapter → Adapter
  fs : FsAdapter → Adapter

-- `submit_lookup(keys).result()`
unfoldable pub lookup : List ChunkKey → Adapter → ℕ
lookup keys (mock a) = Mock.lookup keys a
lookup keys (fs a) = Fs.lookup keys a

-- `submit_load(keys, objs).result()`, which writes into the pool.
unfoldable pub load : List ChunkKey → List MemoryObj → Adapter → Action PoolAllocator ℕ
load keys objs (mock a) = Mock.load keys objs a
load keys objs (fs a) = Fs.load keys objs a

-- `submit_store(keys, objs).result()`
unfoldable pub store : List ChunkKey → List MemoryObj → PoolAllocator → Adapter → Adapter
store keys objs pool (mock a) = mock (Mock.store keys objs pool a)
store keys objs pool (fs a) = fs (Fs.store keys objs pool a)
