-- ===== src/L2/Writes.antt =====
-- What a load of mini_llmcache/l2 does to the pool: it changes its bytes only.
use mini_llmcache.Base.{
  ℕ, suc, ◌≡◌, refl, subst, sym, List, [], ◌∷◌, Action, pure, ◌>>=◌, Preserves, Preserves-bind,
  Preserves-if, Bool-cases, Option-cases, inl, inr, length, ◌==◌, take, if◌then◌else◌,
}
use mini_llmcache.Base.Dict
use mini_llmcache.Protocol.{Bytes, ChunkKey, key_dec, text_dec}
use mini_llmcache.L1.Memory.{MemoryObj, PoolAllocator, write_obj, write_bytes}
use mini_llmcache.L2.{Adapter, mock, fs, load}
use mini_llmcache.L2.Mock
use mini_llmcache.L2.Mock.{MockAdapter}
use mini_llmcache.L2.Fs
use mini_llmcache.L2.Fs.{FsAdapter, filename, read_into}

-- The allocator differs from the first one in its bytes only.
abbrev pub HasBytes : PoolAllocator → PoolAllocator → Type 0
HasBytes a b = (bytes : ℕ → ℕ) × (b ≡ record a { pool = bytes })

abbrev pub Writes : {A : Type 0} → Action PoolAllocator A → Type 0
Writes f = (a : PoolAllocator) → Preserves (HasBytes a) f

rewrites :
    (a b : PoolAllocator) (g : PoolAllocator → ℕ → ℕ)
    → HasBytes a b
    → HasBytes a (record b { pool = g b })
rewrites a b g (bytes, same) =
    subst (λ c. HasBytes a (record c { pool = g c })) (sym same)
      (g (record a { pool = bytes }), refl)

write_obj-Writes : (obj : MemoryObj) (blob : Bytes) → Writes (write_obj obj blob)
unfolding write_obj
write_obj-Writes obj blob a b h = elim (Bool-cases (length blob == obj.nbytes)) [
  | inl fits ↦ rw (fits, write_obj) (rewrites a b (λ c. write_bytes c.pool obj.offset blob) h)
  | inr differs ↦ rw (differs, write_obj) h
]

counted-Writes :
    (f : Action PoolAllocator ℕ) → Writes f → Writes (f >>= λ loaded. pure (suc loaded))
counted-Writes f h a = Preserves-bind f (λ loaded. pure (suc loaded)) (h a) (λ loaded b g. g)

mock_load-Writes :
    (keys : List ChunkKey) (objs : List MemoryObj) (m : MockAdapter)
    → Writes (Mock.load keys objs m)
unfolding Mock.load
mock_load-Writes [] objs m a b h = h
mock_load-Writes (key ∷ keys) [] m a b h = h
mock_load-Writes (key ∷ keys) (obj ∷ objs) m a b h =
    elim (Option-cases (Dict.lookup key_dec key m.chunks)) [
      | inl missing ↦ rw (missing, Mock.load) h
      | inr (bytes, found) ↦
          rw (found, Mock.load)
            (Preserves-bind (write_obj obj bytes)
              (λ _. Mock.load keys objs m >>= λ loaded. pure (suc loaded))
              (write_obj-Writes obj bytes a)
              (λ _. counted-Writes (Mock.load keys objs m) (mock_load-Writes keys objs m) a) b h)
    ]

read_into-Writes : (obj : MemoryObj) (bytes : Bytes) → Writes (read_into obj bytes)
unfolding read_into
read_into-Writes obj bytes a b h =
    rewrites a b (λ c. write_bytes c.pool obj.offset (take obj.nbytes bytes)) h

fs_load-Writes :
    (keys : List ChunkKey) (objs : List MemoryObj) (m : FsAdapter) → Writes (Fs.load keys objs m)
unfolding Fs.load
fs_load-Writes [] objs m a b h = h
fs_load-Writes (key ∷ keys) [] m a b h = h
fs_load-Writes (key ∷ keys) (obj ∷ objs) m a b h =
    elim (Option-cases (Dict.lookup text_dec (filename key) m.files)) [
      | inl missing ↦ rw (missing, Fs.load) h
      | inr (bytes, found) ↦
          let rest : Action PoolAllocator ℕ = Fs.load keys objs m >>= λ loaded. pure (suc loaded) in
          rw (found, Fs.load)
            (Preserves-bind (read_into obj bytes)
              (λ count. if count == obj.nbytes then rest else pure 0) (read_into-Writes obj bytes a)
              (λ count.
                Preserves-if (count == obj.nbytes) rest (pure 0)
                  (counted-Writes (Fs.load keys objs m) (fs_load-Writes keys objs m) a) (λ d g. g))
              b h)
    ]

pub load-Writes :
    (keys : List ChunkKey) (objs : List MemoryObj) (l2 : Adapter) → Writes (load keys objs l2)
unfolding load
load-Writes keys objs (mock m) = mock_load-Writes keys objs m
load-Writes keys objs (fs m) = fs_load-Writes keys objs m
