-- ===== src/Tests/Memory.antt =====
-- The allocator of mini_llmcache/l1/memory.py on the pool of the small cache.
use mini_llmcache.Base.{refl, [], ◌∷◌}
use mini_llmcache.L1.Memory.{allocate, free_one}
use mini_llmcache.L1.Memory.Allocate.{Allocates, allocate-Allocates}
use mini_llmcache.L1.Memory.Release.{Frees, Splits, free_one-Frees}
use mini_llmcache.Tests.Data.{obj_a, obj_b, pool, pool-IsValid}

allocate-Allocates_example : Allocates pool (obj_a ∷ obj_b ∷ []) 1 4 (allocate pool 1 4)
allocate-Allocates_example = allocate-Allocates pool (obj_a ∷ obj_b ∷ []) pool-IsValid 1 4

without_a : Splits (obj_a ∷ obj_b ∷ []) obj_a (obj_b ∷ [])
without_a = record { cover = λ x. refl; bytes = refl; sized = λ d h. h }

free_one-Frees_example : Frees pool (obj_b ∷ []) (free_one obj_a pool)
free_one-Frees_example =
    free_one-Frees pool (obj_a ∷ obj_b ∷ []) (obj_b ∷ []) obj_a pool-IsValid without_a
