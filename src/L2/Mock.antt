-- ===== src/L2/Mock.antt =====
-- mini_llmcache/l2/mock.py: the in-memory adapter.
use mini_llmcache.Base.{ℕ, suc, List, [], ◌∷◌, none, some, Action, pure, ◌>>=◌, ◌>>◌, if◌then◌else◌}
use mini_llmcache.Base.Dict.{Dict, insert, contains}
use mini_llmcache.Base.Dict
use mini_llmcache.Protocol.{Bytes, ChunkKey, key_dec}
use mini_llmcache.L1.Memory.{MemoryObj, PoolAllocator, read_bytes, write_obj}

pub record MockAdapter : Type 0 where
  pub chunks : Dict ChunkKey Bytes

-- The loop over `zip(keys, objs)`.
unfoldable pub store : List ChunkKey → List MemoryObj → PoolAllocator → MockAdapter → MockAdapter
store (key ∷ keys) (obj ∷ objs) pool a =
    store keys objs pool (record a {
      chunks = insert key_dec key (read_bytes pool.pool obj.offset obj.nbytes) a.chunks;
    })
store [] objs pool a = a
store (key ∷ keys) [] pool a = a

unfoldable pub lookup : List ChunkKey → MockAdapter → ℕ
lookup [] a = 0
lookup (key ∷ keys) a = if contains key_dec key a.chunks then suc (lookup keys a) else 0

unfoldable pub load : List ChunkKey → List MemoryObj → MockAdapter → Action PoolAllocator ℕ
load (key ∷ keys) (obj ∷ objs) a = elim (Dict.lookup key_dec key a.chunks) [
  | none ↦ pure 0
  | some bytes ↦ do write_obj obj bytes; loaded ← load keys objs a; pure (suc loaded)
]
load [] objs a = pure 0
load (key ∷ keys) [] a = pure 0
