-- ===== src/L2/Found.antt =====
-- What has been stored in an adapter of mini_llmcache/l2 is found.
use mini_llmcache.Base.{
  suc, ◌≤◌, ◌≡◌, refl, ap, ◌∙◌, List, [], ◌∷◌, All, Bool, true, arith, length, some, Bool-cases,
  inl, inr, if_pos, ite,
}
use mini_llmcache.Base.Dict.{Dict, contains, insert, lookup-insert}
use mini_llmcache.Base.Dict
use mini_llmcache.Protocol.{Text, Bytes, ChunkKey, key_dec, text_dec}
use mini_llmcache.L1.Memory.{MemoryObj, PoolAllocator, read_bytes}
use mini_llmcache.L2.{Adapter, mock, fs, lookup, store}
use mini_llmcache.L2.Mock.{MockAdapter}
use mini_llmcache.L2.Mock
use mini_llmcache.L2.Fs.{FsAdapter, filename, store_one, write_tmp, replace}
use mini_llmcache.L2.Fs

-- Whether an adapter has a chunk.
abbrev pub has : Adapter → ChunkKey → Bool
has (mock a) key = contains key_dec key a.chunks
has (fs a) key = contains text_dec (filename key) a.files

-- A file that is written and renamed.
placed :
    (a : FsAdapter) (name : Text) (bytes : Bytes)
    → (replace name (write_tmp name bytes a)).files ≡ insert text_dec name bytes a.files
unfolding write_tmp replace
placed a name bytes =
    let found : Dict.lookup text_dec name (insert text_dec name bytes a.tmp) ≡ some bytes =
      lookup-insert text_dec name name bytes a.tmp ∙ if_pos (text_dec name name) refl _ _ in
    rw (found, replace) refl

-- Storing one chunk keeps every file, and leaves one for the chunk.
store_one-keeps :
    (a : FsAdapter) (key : ChunkKey) (bytes : Bytes) (name : Text)
    → contains text_dec name (store_one key bytes a).files
      ≡ ite (text_dec name (filename key)) true (contains text_dec name a.files)
unfolding store_one
store_one-keeps a key bytes name = elim (Bool-cases (contains text_dec (filename key) a.files)) [
  | inl there ↦ rw (there, store_one) (ground (arith, there))
  | inr missing ↦
      rw (missing, placed a (filename key) bytes, store_one)
        (ground (arith, lookup-insert text_dec name (filename key) bytes a.files))
]

store-has_mock :
    (keys : List ChunkKey) (objs : List MemoryObj) (pool : PoolAllocator) (a : MockAdapter)
    (j : ChunkKey)
    → contains key_dec j a.chunks ≡ true
    → contains key_dec j (Mock.store keys objs pool a).chunks ≡ true
unfolding Mock.store
store-has_mock [] objs pool a j h = h
store-has_mock (key ∷ keys) [] pool a j h = h
store-has_mock (key ∷ keys) (obj ∷ objs) pool a j h = store-has_mock keys objs pool _ j (
    ground
      (arith, h, lookup-insert key_dec j key (read_bytes pool.pool obj.offset obj.nbytes) a.chunks))

store-has_fs :
    (keys : List ChunkKey) (objs : List MemoryObj) (pool : PoolAllocator) (a : FsAdapter)
    (name : Text)
    → contains text_dec name a.files ≡ true
    → contains text_dec name (Fs.store keys objs pool a).files ≡ true
unfolding Fs.store
store-has_fs [] objs pool a name h = h
store-has_fs (key ∷ keys) [] pool a name h = h
store-has_fs (key ∷ keys) (obj ∷ objs) pool a name h =
    store-has_fs keys objs pool _ name
      (ground (arith, h, store_one-keeps a key (read_bytes pool.pool obj.offset obj.nbytes) name))

stored_mock :
    (keys : List ChunkKey) (objs : List MemoryObj) (pool : PoolAllocator) (a : MockAdapter)
    → length keys ≤ length objs
    → All (λ k. has (mock (Mock.store keys objs pool a)) k ≡ true) keys
unfolding Mock.store
stored_mock [] objs pool a h = tt
stored_mock (key ∷ keys) [] pool a h = absurd (omega arith)
stored_mock (key ∷ keys) (obj ∷ objs) pool a h = (
  store-has_mock keys objs pool _ key (
      ground (
        arith,
        lookup-insert key_dec key key (read_bytes pool.pool obj.offset obj.nbytes) a.chunks,
      )),
  stored_mock keys objs pool _ (omega arith),
)

stored_fs :
    (keys : List ChunkKey) (objs : List MemoryObj) (pool : PoolAllocator) (a : FsAdapter)
    → length keys ≤ length objs
    → All (λ k. has (fs (Fs.store keys objs pool a)) k ≡ true) keys
unfolding Fs.store
stored_fs [] objs pool a h = tt
stored_fs (key ∷ keys) [] pool a h = absurd (omega arith)
stored_fs (key ∷ keys) (obj ∷ objs) pool a h = (
  store-has_fs keys objs pool _ (filename key) (
      ground
        (arith, store_one-keeps a key (read_bytes pool.pool obj.offset obj.nbytes) (filename key))),
  stored_fs keys objs pool _ (omega arith),
)

lookup-has :
    (keys : List ChunkKey) (a : Adapter)
    → All (λ k. has a k ≡ true) keys
    → lookup keys a ≡ length keys
unfolding lookup Mock.lookup Fs.lookup
lookup-has [] (mock a) h = refl
lookup-has [] (fs a) h = refl
lookup-has (key ∷ keys) (mock a) h = rw (h.0, Mock.lookup) (ap suc (lookup-has keys (mock a) h.1))
lookup-has (key ∷ keys) (fs a) h = rw (h.0, Fs.lookup) (ap suc (lookup-has keys (fs a) h.1))

-- After a store of keys with an object for each, either adapter, the one in memory or the one on
-- files, finds all of them.
pub lookup-store :
    (keys : List ChunkKey) (objs : List MemoryObj) (pool : PoolAllocator) (a : Adapter)
    → length keys ≤ length objs
    → lookup keys (store keys objs pool a) ≡ length keys
unfolding store
lookup-store keys objs pool (mock a) h = lookup-has keys _ (stored_mock keys objs pool a h)
lookup-store keys objs pool (fs a) h = lookup-has keys _ (stored_fs keys objs pool a h)
