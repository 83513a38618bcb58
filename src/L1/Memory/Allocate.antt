-- ===== src/L1/Memory/Allocate.antt =====
-- The allocator of mini_llmcache/l1/memory.py keeps the pool tiled: every byte below `brk` lies in
-- exactly one segment, live or free.
use mini_llmcache.Base.{
  ℕ, zero, suc, ◌+◌, ◌-◌, ◌*◌, ◌≤◌, ◌≡◌, refl, ap, ◌∙◌, List, [], ◌∷◌, ◌++◌, map, ltb, to_nat, All,
  All-append, true, Bool-cases, length, length-append, arith, ℕ_discrete, Option, none, some, inl,
  inr,
}
use mini_llmcache.Base.Int.{pos}
use mini_llmcache.Base.Dict.{Dict, insert, contains, lookup-insert}
use mini_llmcache.L1.Memory.{
  MemoryObj, PoolAllocator, init, free_list, pop_free, bump, extend, mem_obj, finish_allocate,
  allocate,
}
use mini_llmcache.L1.Memory.Segments.{
  cover_objs, cover_offsets, cover_free, total, cover_objs-append, total-append,
  cover_offsets-append, cover_offsets-extend, cover_free-insert, cover-pop_free, cover-bump,
  bump-le, cover_objs-map,
}

-- Where objects of `n` bytes have been allocated before.
abbrev pub IsSized : Dict ℕ (List ℕ) → MemoryObj → Type 0
IsSized d m = contains ℕ_discrete m.nbytes d ≡ true

-- The allocator, while `live` are the objects handed out and not yet freed.
pub record IsValid (live : List MemoryObj) (a : PoolAllocator) : Type 0 where
  pub fits : a.brk ≤ a.capacity
  pub tiled : (x : ℕ) → cover_objs x live + cover_free x a.free_segments ≡ to_nat (ltb x a.brk)
  pub used : a.used_bytes ≡ pos (total live)
  pub sized : All (IsSized a.free_segments) live

pub init-IsValid : (capacity : ℕ) (contents : ℕ → ℕ) → IsValid [] (init capacity contents)
unfolding init
init-IsValid capacity contents = record {
  fits = omega arith;
  tiled = λ x. ground arith;
  used = refl;
  sized = tt;
}

cover_objs-mem_obj :
    (x n capacity : ℕ) (os : List ℕ)
    → All (λ m. m.nbytes ≡ n) (map (mem_obj capacity n) os)
    → cover_objs x (map (mem_obj capacity n) os) ≡ cover_offsets x n os
unfolding mem_obj
cover_objs-mem_obj x n capacity [] h = refl
cover_objs-mem_obj x n capacity (o ∷ os) h = ground (arith, cover_objs-mem_obj x n capacity os h.1)

total-mem_obj :
    (n capacity : ℕ) (os : List ℕ)
    → All (λ m. m.nbytes ≡ n) (map (mem_obj capacity n) os)
    → total (map (mem_obj capacity n) os) ≡ length os * n
total-mem_obj n capacity [] h = omega arith
total-mem_obj n capacity (o ∷ os) h = omega (arith, h.0, total-mem_obj n capacity os h.1)

length-pop_free-le : (wanted : ℕ) (free : List ℕ) → length (pop_free wanted free).0 ≤ wanted
unfolding pop_free
length-pop_free-le zero free = omega arith
length-pop_free-le (suc wanted) [] = omega arith
length-pop_free-le (suc wanted) (o ∷ free) = omega (arith, length-pop_free-le wanted free)

length-bump-le : (wanted n capacity brk : ℕ) → length (bump wanted n capacity brk).0 ≤ wanted
unfolding bump
length-bump-le zero n capacity brk = omega arith
length-bump-le (suc wanted) n capacity brk =
    ground (arith, length-bump-le wanted n capacity (brk + n))

module _ (n : ℕ) (os : List ℕ) (d : Dict ℕ (List ℕ)) where
  pub insert-All-IsSized :
      (live : List MemoryObj) → All (IsSized d) live → All (IsSized (insert ℕ_discrete n os d)) live
  insert-All-IsSized [] h = tt
  insert-All-IsSized (m ∷ live) h =
      (ground (arith, lookup-insert ℕ_discrete m.nbytes n os d), insert-All-IsSized live h.1)

  All-nbytes-IsSized :
      (objs : List MemoryObj)
      → All (λ m. m.nbytes ≡ n) objs
      → All (IsSized (insert ℕ_discrete n os d)) objs
  All-nbytes-IsSized [] h = tt
  All-nbytes-IsSized (m ∷ objs) h =
      (ground (arith, lookup-insert ℕ_discrete m.nbytes n os d), All-nbytes-IsSized objs h.1)

-- What a call of `allocate` has done, by its result.
abbrev pub Allocates :
    PoolAllocator → List MemoryObj → ℕ → ℕ → Option (List MemoryObj) × PoolAllocator → Type 0
Allocates a live wanted n (none, b) = IsValid live b × (b.pool ≡ a.pool) × (b.capacity ≡ a.capacity)
Allocates a live wanted n (some objs, b) =
    IsValid (objs ++ live) b
    × (length objs ≡ wanted)
    × All (λ m. m.nbytes ≡ n) objs
    × (b.pool ≡ a.pool)
    × (b.capacity ≡ a.capacity)

module _ (a : PoolAllocator) (live : List MemoryObj) (valid : IsValid live a) (wanted n : ℕ) where
  -- The two loops have moved segments from the free list and from above `brk`.
  module _ (offsets free : List ℕ) (brk : ℕ)
      (moved : (x : ℕ)
        → cover_offsets x n offsets + cover_offsets x n free + to_nat (ltb x a.brk)
          ≡ cover_offsets x n (free_list n a.free_segments) + to_nat (ltb x brk))
      (within : brk ≤ a.capacity) (at_most : length offsets ≤ wanted) where
    below : (x : ℕ) → cover_offsets x n offsets ≤ to_nat (ltb x brk)
    below x = omega (arith, moved x, valid.tiled x, cover_free-insert x n [] a.free_segments)

    whole : All (λ m. m.nbytes ≡ n) (map (mem_obj a.capacity n) offsets)
    whole = cover_objs-map n a.capacity brk offsets below within

    length-map : (os : List ℕ) → length (map (mem_obj a.capacity n) os) ≡ length os
    length-map [] = refl
    length-map (o ∷ os) = omega (arith, length-map os)

    refused : IsValid live (record a {
      brk = brk;
      free_segments = insert ℕ_discrete n (extend free offsets) a.free_segments;
    })
    refused = record {
      fits = within;
      tiled = λ x. omega (
        arith,
        moved x,
        valid.tiled x,
        cover_free-insert x n (extend free offsets) a.free_segments,
        cover_offsets-extend x n free offsets,
      );
      used = valid.used;
      sized = insert-All-IsSized n (extend free offsets) a.free_segments live valid.sized;
    }

    granted :
        length offsets ≡ wanted
        → IsValid (map (mem_obj a.capacity n) offsets ++ live) (record a {
          brk = brk;
          free_segments = insert ℕ_discrete n free a.free_segments;
          used_bytes = pos (total live + wanted * n);
        })
    granted e = record {
      fits = within;
      tiled = λ x. omega (
        arith,
        moved x,
        valid.tiled x,
        cover_free-insert x n free a.free_segments,
        cover_objs-append x (map (mem_obj a.capacity n) offsets) live,
        cover_objs-mem_obj x n a.capacity offsets whole,
      );
      used = ap pos (
          omega (
            arith,
            ap (λ (t : ℕ). t * n) e,
            total-append (map (mem_obj a.capacity n) offsets) live,
            total-mem_obj n a.capacity offsets whole,
          ));
      sized =
          All-append (IsSized _) (map (mem_obj a.capacity n) offsets) live
            (All-nbytes-IsSized n free a.free_segments (map (mem_obj a.capacity n) offsets) whole)
            (insert-All-IsSized n free a.free_segments live valid.sized);
    }

    finish_allocate-Allocates :
        Allocates a live wanted n (finish_allocate a wanted n offsets free brk)
    unfolding finish_allocate
    finish_allocate-Allocates = elim (Bool-cases (ltb (length offsets) wanted)) [
      | inl short ↦ rw short (refused, refl, refl)
      | inr enough ↦
          let e : length offsets ≡ wanted = ground arith in
          rw (enough, valid.used) (granted e, length-map offsets ∙ e, whole, refl, refl)
    ]

  -- Whatever a valid allocator answers to `allocate`, each byte below `brk` stays in exactly one
  -- segment, live or free, the live ones being joined by the new objects where it grants them,
  -- which are as many and as long as asked; `used_bytes` is the sum of the live sizes.
  pub allocate-Allocates : Allocates a live wanted n (allocate a wanted n)
  unfolding allocate
  allocate-Allocates =
      let popped = pop_free wanted (free_list n a.free_segments) in
      let bumped = bump (wanted - length popped.0) n a.capacity a.brk in
      finish_allocate-Allocates (popped.0 ++ bumped.0) popped.1 bumped.1
        (λ x. omega (
          arith,
          cover_offsets-append x n popped.0 bumped.0,
          cover-pop_free x n wanted (free_list n a.free_segments),
          cover-bump x (wanted - length popped.0) n a.capacity a.brk,
        ))
        (bump-le (wanted - length popped.0) n a.capacity a.brk valid.fits)
        (omega (
          arith,
          length-append popped.0 bumped.0,
          length-pop_free-le wanted (free_list n a.free_segments),
          length-bump-le (wanted - length popped.0) n a.capacity a.brk,
        ))
