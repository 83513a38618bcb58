-- ===== src/L1/Memory/Segments.antt =====
-- The pool as a tiling: how many of the live and free segments cover an address, and how the steps
-- of the allocator of mini_llmcache/l1/memory.py change that number.
use mini_llmcache.Base.{
  ℕ, zero, suc, ◌+◌, ◌-◌, min, ◌≤◌, ◌≡◌, List, [], ◌∷◌, ◌++◌, map, ◌&&◌, leb, ltb, to_nat, All,
  arith, ℕ_discrete,
}
use mini_llmcache.Base.Dict.{Dict, insert}
use mini_llmcache.L1.Memory.{MemoryObj, free_list, pop_free, bump, extend, mem_obj}

-- 1 if the segment of `n` bytes at `o` holds the address `x`, else 0.
abbrev pub covers : ℕ → ℕ → ℕ → ℕ
covers x o n = to_nat (leb o x && ltb x (o + n))

abbrev pub cover_objs : ℕ → List MemoryObj → ℕ
cover_objs x [] = 0
cover_objs x (m ∷ objs) = covers x m.offset m.nbytes + cover_objs x objs

abbrev pub cover_offsets : ℕ → ℕ → List ℕ → ℕ
cover_offsets x n [] = 0
cover_offsets x n (o ∷ offsets) = covers x o n + cover_offsets x n offsets

abbrev pub cover_free : ℕ → Dict ℕ (List ℕ) → ℕ
cover_free x [] = 0
cover_free x (e ∷ d) = cover_offsets x e.0 e.1 + cover_free x d

abbrev pub total : List MemoryObj → ℕ
total [] = 0
total (m ∷ objs) = m.nbytes + total objs

pub cover_objs-append :
    (x : ℕ) (ms ns : List MemoryObj) → cover_objs x (ms ++ ns) ≡ cover_objs x ms + cover_objs x ns
cover_objs-append x [] ns = omega arith
cover_objs-append x (m ∷ ms) ns = omega (arith, cover_objs-append x ms ns)

pub total-append : (ms ns : List MemoryObj) → total (ms ++ ns) ≡ total ms + total ns
total-append [] ns = omega arith
total-append (m ∷ ms) ns = omega (arith, total-append ms ns)

pub cover_offsets-append :
    (x n : ℕ) (os ps : List ℕ)
    → cover_offsets x n (os ++ ps) ≡ cover_offsets x n os + cover_offsets x n ps
cover_offsets-append x n [] ps = omega arith
cover_offsets-append x n (o ∷ os) ps = omega (arith, cover_offsets-append x n os ps)

pub cover_offsets-extend :
    (x n : ℕ) (free os : List ℕ)
    → cover_offsets x n (extend free os) ≡ cover_offsets x n free + cover_offsets x n os
unfolding extend
cover_offsets-extend x n free [] = omega arith
cover_offsets-extend x n free (o ∷ os) = omega (arith, cover_offsets-extend x n (o ∷ free) os)

pub cover_free-insert :
    (x n : ℕ) (os : List ℕ) (d : Dict ℕ (List ℕ))
    → cover_free x (insert ℕ_discrete n os d) + cover_offsets x n (free_list n d)
      ≡ cover_free x d + cover_offsets x n os
unfolding free_list
cover_free-insert x n os [] = omega arith
cover_free-insert x n os (e ∷ d) = ground (arith, cover_free-insert x n os d)

pub cover-pop_free :
    (x n wanted : ℕ) (free : List ℕ)
    → cover_offsets x n (pop_free wanted free).0 + cover_offsets x n (pop_free wanted free).1
      ≡ cover_offsets x n free
unfolding pop_free
cover-pop_free x n zero free = omega arith
cover-pop_free x n (suc wanted) [] = omega arith
cover-pop_free x n (suc wanted) (o ∷ free) = omega (arith, cover-pop_free x n wanted free)

pub cover-bump :
    (x wanted n capacity brk : ℕ)
    → cover_offsets x n (bump wanted n capacity brk).0 + to_nat (ltb x brk)
      ≡ to_nat (ltb x (bump wanted n capacity brk).1)
unfolding bump
cover-bump x zero n capacity brk = omega arith
cover-bump x (suc wanted) n capacity brk = ground (arith, cover-bump x wanted n capacity (brk + n))

pub bump-le :
    (wanted n capacity brk : ℕ) → brk ≤ capacity → (bump wanted n capacity brk).1 ≤ capacity
unfolding bump
bump-le zero n capacity brk h = h
bump-le (suc wanted) n capacity brk h = ground (arith, bump-le wanted n capacity (brk + n))

-- A segment that lies below `brk` is not cut short by the end of the pool.
uncut :
    (n capacity brk o rest : ℕ)
    → ((x : ℕ) → covers x o n + rest ≤ to_nat (ltb x brk))
    → brk ≤ capacity
    → min (o + n) capacity - o ≡ n
uncut zero capacity brk o rest h le = omega arith
uncut (suc n) capacity brk o rest h le = ground (arith, h (o + n))

pub cover_objs-map :
    (n capacity brk : ℕ) (os : List ℕ)
    → ((x : ℕ) → cover_offsets x n os ≤ to_nat (ltb x brk))
    → brk ≤ capacity
    → All (λ m. m.nbytes ≡ n) (map (mem_obj capacity n) os)
unfolding mem_obj
cover_objs-map n capacity brk [] h le = tt
cover_objs-map n capacity brk (o ∷ os) h le = (
  uncut n capacity brk o 0 (λ x. omega (arith, h x)) le,
  cover_objs-map n capacity brk os (λ x. omega (arith, h x)) le,
)
