-- ===== src/L2/Loads.antt =====
-- When a load of mini_llmcache/l2 returns: the adapter on files never raises, and the one in memory
-- raises only on a chunk of another size than the object's.
use mini_llmcache.Base.{
  ℕ, suc, ◌≡◌, refl, ◌∙◌, List, [], ◌∷◌, All, some, arith, length, inl, inr, Bool-cases,
  Option-cases, ok, Action, >>=-ok, pure, ◌>>=◌, ◌==◌, sym, take, min, subst,
}
use mini_llmcache.Base.Dict
use mini_llmcache.Protocol.{Bytes, ChunkKey, key_dec, text_dec}
use mini_llmcache.L1.Memory.{MemoryObj, PoolAllocator, write_obj, write_bytes}
use mini_llmcache.L1.Memory.Contents.{write_obj_lem}
use mini_llmcache.L2.{Adapter, mock, fs, load}
use mini_llmcache.L2.Mock
use mini_llmcache.L2.Mock.{MockAdapter}
use mini_llmcache.L2.Fs
use mini_llmcache.L2.Fs.{FsAdapter, filename, read_into}

-- The task returns on this pool.
abbrev Returns : Action PoolAllocator ℕ → PoolAllocator → Type 0
Returns f a = (count : ℕ) × (a' : PoolAllocator) × (f a ≡ (ok count, a'))

-- Loads of the adapter into objects of this size return.
abbrev pub LoadsBack : ℕ → Adapter → Type 0
LoadsBack n l2 =
    (keys : List ChunkKey) (objs : List MemoryObj) (a : PoolAllocator)
    → All (λ (o : MemoryObj). o.nbytes ≡ n) objs
    → (count : ℕ) × (a' : PoolAllocator) × (load keys objs l2 a ≡ (ok count, a'))

counted-Returns :
    (f : Action PoolAllocator ℕ) (a : PoolAllocator)
    → Returns f a
    → Returns (f >>= λ loaded. pure (suc loaded)) a
counted-Returns f a (count, a', returned) =
    (suc count, a', >>=-ok f (λ loaded. pure (suc loaded)) a returned)

-- A chunk of the adapter has the size of the chunks.
stored_size :
    (n : ℕ) (key : ChunkKey) (d : Dict.Dict ChunkKey Bytes) (bytes : Bytes)
    → All (λ (e : ChunkKey × Bytes). length e.1 ≡ n) d
    → Dict.lookup key_dec key d ≡ some bytes
    → length bytes ≡ n
stored_size n key [] bytes h found = absurd (cc)
stored_size n key (e ∷ d) bytes h found = elim (key_dec key e.0) [
  | yes here ↦
      let same : e.1 ≡ bytes = ground (arith, here, found) in subst (λ b. length b ≡ n) same h.0
  | no other ↦ stored_size n key d bytes h.1 (ground (arith, other, found))
]

mock_load-Returns :
    (n : ℕ) (keys : List ChunkKey) (objs : List MemoryObj) (m : MockAdapter) (a : PoolAllocator)
    → All (λ (e : ChunkKey × Bytes). length e.1 ≡ n) m.chunks
    → All (λ (o : MemoryObj). o.nbytes ≡ n) objs
    → Returns (Mock.load keys objs m) a
unfolding Mock.load
mock_load-Returns n [] objs m a stored sized = (0, a, refl)
mock_load-Returns n (key ∷ keys) [] m a stored sized = (0, a, refl)
mock_load-Returns n (key ∷ keys) (obj ∷ objs) m a stored sized =
    elim (Option-cases (Dict.lookup key_dec key m.chunks)) [
      | inl missing ↦ (0, a, rw (missing, Mock.load) refl)
      | inr (bytes, found) ↦
          let a₁ = record a { pool = write_bytes a.pool obj.offset bytes } in
          let fits = stored_size n key m.chunks bytes stored found ∙ sym sized.0 in
          let rest = Mock.load keys objs m >>= λ loaded. pure (suc loaded) in
          let (count, a', returned) =
            counted-Returns (Mock.load keys objs m) a₁
              (mock_load-Returns n keys objs m a₁ stored sized.1) in
          (
            count,
            a',
            rw (found, Mock.load)
                (>>=-ok (write_obj obj bytes) (λ _. rest) a (write_obj_lem obj bytes a fits)
                  ∙ returned),
          )
    ]

pub mock-LoadsBack :
    (n : ℕ) (m : MockAdapter)
    → All (λ (e : ChunkKey × Bytes). length e.1 ≡ n) m.chunks
    → LoadsBack n (mock m)
unfolding load
mock-LoadsBack n m stored keys objs a sized = mock_load-Returns n keys objs m a stored sized

-- `load` of the adapter on files, with one file at hand.
fs_load-Returns :
    (keys : List ChunkKey) (objs : List MemoryObj) (m : FsAdapter) (a : PoolAllocator)
    → Returns (Fs.load keys objs m) a
unfolding Fs.load read_into
fs_load-Returns [] objs m a = (0, a, refl)
fs_load-Returns (key ∷ keys) [] m a = (0, a, refl)
fs_load-Returns (key ∷ keys) (obj ∷ objs) m a =
    elim (Option-cases (Dict.lookup text_dec (filename key) m.files)) [
      | inl missing ↦ (0, a, rw (missing, Fs.load) refl)
      | inr (bytes, found) ↦
          let a₁ = record a { pool = write_bytes a.pool obj.offset (take obj.nbytes bytes) } in
          elim (Bool-cases (min (length bytes) obj.nbytes == obj.nbytes)) [
            | inl full ↦
                let (count, a', returned) =
                  counted-Returns (Fs.load keys objs m) a₁ (fs_load-Returns keys objs m a₁) in
                (count, a', rw (found, full, Fs.load) returned)
            | inr short ↦ (0, a₁, rw (found, short, Fs.load) refl)
          ]
    ]

pub fs-LoadsBack : (n : ℕ) (m : FsAdapter) → LoadsBack n (fs m)
unfolding load
fs-LoadsBack n m keys objs a sized = fs_load-Returns keys objs m a
