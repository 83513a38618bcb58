-- ===== src/Tests/Data.antt =====
-- A small cache: chunks of four bytes in a pool of twelve, one entry being written and a temporary
-- one that is read.
use mini_llmcache.Base.{◌≢◌, refl, ap, [], ◌∷◌, true, false, arith, Distinct, All}
use mini_llmcache.Base.Int.{pos}
use mini_llmcache.Protocol.{ChunkKey, key_dec}
use mini_llmcache.L1.Memory.{MemoryObj, PoolAllocator}
use mini_llmcache.L1.Memory.Allocate
use mini_llmcache.L1.Listener.{policy, writer}
use mini_llmcache.L1.Manager.{Entry, L1Manager}
use mini_llmcache.L1.Manager.Alter.{IsPresent}
use mini_llmcache.L1.Manager.Valid.{IsValid}

abbrev pub key_a : ChunkKey
key_a = record { chunk_hash = 1 ∷ []; model = 2 ∷ []; rank = 0 }

abbrev pub key_b : ChunkKey
key_b = record { chunk_hash = 1 ∷ []; model = 2 ∷ []; rank = 1 }

abbrev pub key_c : ChunkKey
key_c = record { chunk_hash = 1 ∷ []; model = 2 ∷ []; rank = 2 }

pub key_a_ne : key_a ≢ key_b
key_a_ne h = ground (arith, ap (λ (k : ChunkKey). k.rank) h)

abbrev pub obj_a : MemoryObj
obj_a = record { offset = 0; nbytes = 4 }

abbrev pub obj_b : MemoryObj
obj_b = record { offset = 4; nbytes = 4 }

abbrev pub pool : PoolAllocator
pool = record {
  capacity = 12;
  pool = λ x. x;
  brk = 8;
  free_segments = (4, []) ∷ [];
  used_bytes = pos 8;
}

pub pool-IsValid : Allocate.IsValid (obj_a ∷ obj_b ∷ []) pool
pool-IsValid = record {
  fits = omega arith;
  tiled = λ x. ground arith;
  used = refl;
  sized = (ground arith, (ground arith, tt));
}

abbrev pub writing : Entry
writing = record { obj = obj_a; write_locked = true; read_count = pos 0; is_temporary = false }

abbrev pub reading : Entry
reading = record { obj = obj_b; write_locked = false; read_count = pos 1; is_temporary = true }

abbrev pub cache : L1Manager
cache = record {
  allocator = pool;
  entries = (key_a, writing) ∷ (key_b, reading) ∷ [];
  listeners = writer [] ∷ policy (key_b ∷ []) ∷ [];
}

pub keys-Distinct : Distinct key_dec (key_a ∷ key_b ∷ [])
keys-Distinct = ground (arith, key_a_ne)

pub cache-IsValid : IsValid cache
cache-IsValid = record { pool = pool-IsValid; dict = keys-Distinct }

pub one-Distinct : Distinct key_dec (key_a ∷ [])
one-Distinct = (refl, tt)

pub c-Distinct : Distinct key_dec (key_c ∷ [])
c-Distinct = (refl, tt)

pub keys-IsPresent : All (IsPresent cache.entries) (key_a ∷ key_b ∷ [])
keys-IsPresent = (ground arith, (ground (arith, key_a_ne), tt))

pub b-Distinct : Distinct key_dec (key_b ∷ [])
b-Distinct = (refl, tt)
