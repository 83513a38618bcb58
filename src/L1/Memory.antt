-- ===== src/L1/Memory.antt =====
-- mini_llmcache/l1/memory.py: the pinned host buffer and its allocator. `capacity` is the size of
-- the tensor, and `pool` its bytes. A list of free offsets has the end of the Python list as its
-- head. `used_bytes` is a Python int, which may be negative.
pub mod Segments
pub mod Allocate
pub mod Release
pub mod Contents
use mini_llmcache.Base.{
  ℕ, zero, suc, ◌+◌, ◌-◌, ◌*◌, min, List, [], ◌∷◌, ◌++◌, map, Option, none, some, Bool, true, false,
  ◌&&◌, if◌then◌else◌, ltb, leb, ◌==◌, length, Action, Error, key_error, value_error, pure, raise,
  or_raise, gets, modify, for_each, ◌>>=◌, ◌>>◌, ℕ_discrete,
}
use mini_llmcache.Base.Int.{ℤ, add, sub}
use mini_llmcache.Base.Dict.{Dict, lookup, insert}

-- A slice of the pool: the view `pool[offset : offset + nbytes]`.
pub record MemoryObj : Type 0 where
  pub offset : ℕ
  pub nbytes : ℕ

pub record PoolAllocator : Type 0 where
  pub capacity : ℕ
  pub pool : ℕ → ℕ
  pub brk : ℕ
  pub free_segments : Dict ℕ (List ℕ)
  pub used_bytes : ℤ

-- `PoolAllocator(capacity_bytes)`. The bytes of `torch.empty` are arbitrary.
unfoldable pub init : ℕ → (ℕ → ℕ) → PoolAllocator
init capacity contents = record {
  capacity = capacity;
  pool = contents;
  brk = 0;
  free_segments = [];
  used_bytes = ℤ.pos 0;
}

-- `free_segments.setdefault(nbytes, [])`, as a value.
unfoldable pub free_list : ℕ → Dict ℕ (List ℕ) → List ℕ
free_list nbytes d = elim (lookup ℕ_discrete nbytes d) [ none ↦ [] | some offsets ↦ offsets ]

-- The first loop: pop up to `wanted` offsets; the popped ones and what is left.
unfoldable pub pop_free : ℕ → List ℕ → List ℕ × List ℕ
pop_free zero free = ([], free)
pop_free (suc wanted) [] = ([], [])
pop_free (suc wanted) (o ∷ free) = let (popped, rest) = pop_free wanted free in (o ∷ popped, rest)

-- The second loop: move `brk` for up to `wanted` more; the new offsets and the new `brk`.
unfoldable pub bump : ℕ → ℕ → ℕ → ℕ → List ℕ × ℕ
bump zero nbytes capacity brk = ([], brk)
bump (suc wanted) nbytes capacity brk =
    let more = bump wanted nbytes capacity (brk + nbytes) in
    if leb (brk + nbytes) capacity then (brk ∷ more.0, more.1) else ([], brk)

-- `free.extend(offsets)`
unfoldable pub extend : List ℕ → List ℕ → List ℕ
extend free [] = free
extend free (o ∷ offsets) = extend (o ∷ free) offsets

-- `MemoryObj(self.pool[o : o + nbytes], o)`: slicing a tensor stops at its end.
unfoldable pub mem_obj : ℕ → ℕ → ℕ → MemoryObj
mem_obj capacity nbytes o = record { offset = o; nbytes = min (o + nbytes) capacity - o }

-- The end of `allocate`, after both loops.
unfoldable pub finish_allocate :
    PoolAllocator → ℕ → ℕ → List ℕ → List ℕ → ℕ → Option (List MemoryObj) × PoolAllocator
finish_allocate a wanted nbytes offsets free brk =
    if ltb (length offsets) wanted
    then (
      none,
      record a {
        brk = brk;
        free_segments = insert ℕ_discrete nbytes (extend free offsets) a.free_segments;
      },
    )
    else (
      some (map (mem_obj a.capacity nbytes) offsets),
      record a {
        brk = brk;
        free_segments = insert ℕ_discrete nbytes free a.free_segments;
        used_bytes = add a.used_bytes (wanted * nbytes);
      },
    )

unfoldable pub allocate : PoolAllocator → ℕ → ℕ → Option (List MemoryObj) × PoolAllocator
unfolding finish_allocate
allocate a wanted nbytes =
    let (popped, free) = pop_free wanted (free_list nbytes a.free_segments) in
    let (bumped, brk) = bump (wanted - length popped) nbytes a.capacity a.brk in
    finish_allocate a wanted nbytes (popped ++ bumped) free brk

unfoldable pub free_one : MemoryObj → Action PoolAllocator (Unit {0})
free_one obj = do
  modify (λ a. record a { used_bytes = sub a.used_bytes obj.nbytes })
  offsets ← or_raise (← gets (λ a. lookup ℕ_discrete obj.nbytes a.free_segments)) key_error
  modify (λ a. record a {
    free_segments = insert ℕ_discrete obj.nbytes (obj.offset ∷ offsets) a.free_segments;
  })

unfoldable pub free : List MemoryObj → Action PoolAllocator (Unit {0})
unfolding free_one
free = for_each free_one

unfoldable pub usage : PoolAllocator → ℤ × ℕ
usage a = (a.used_bytes, a.capacity)

-- `bytes(obj.byte_array)`
unfoldable pub read_bytes : (ℕ → ℕ) → ℕ → ℕ → List ℕ
read_bytes pool offset zero = []
read_bytes pool offset (suc n) = pool offset ∷ read_bytes pool (offset + 1) n

-- The pool after the bytes of `blob` have been written from `offset` on.
unfoldable pub write_bytes : (ℕ → ℕ) → ℕ → List ℕ → ℕ → ℕ
write_bytes pool offset [] x = pool x
write_bytes pool offset (b ∷ blob) x =
    if x == offset then b else write_bytes pool (offset + 1) blob x

-- `obj.byte_array[:] = blob`: a memoryview takes only a value of its own length.
unfoldable pub write_obj : MemoryObj → List ℕ → Action PoolAllocator (Unit {0})
write_obj obj blob a =
    if length blob == obj.nbytes
    then modify (λ s. record s { pool = write_bytes s.pool obj.offset blob }) a
    else raise value_error a
