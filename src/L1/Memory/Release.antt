-- ===== src/L1/Memory/Release.antt =====
-- `free` of mini_llmcache/l1/memory.py: on an object that is live it cannot raise, and gives the
-- segment back.
use mini_llmcache.Base.{
  ℕ, ◌+◌, ◌≡◌, refl, ap, List, [], ◌∷◌, All, Option-cases, arith, ℕ_discrete, some, inl, inr,
  Outcome, ok, raised,
}
use mini_llmcache.Base.Int.{pos, sub}
use mini_llmcache.Base.Dict.{Dict, lookup, insert}
use mini_llmcache.L1.Memory.{MemoryObj, PoolAllocator, free_list, free_one, free}
use mini_llmcache.L1.Memory.Segments.{covers, cover_objs, cover_offsets, total, cover_free-insert}
use mini_llmcache.L1.Memory.Allocate.{IsSized, IsValid, insert-All-IsSized}

-- `rest` is `live` without one copy of `m`.
pub record Splits (live : List MemoryObj) (m : MemoryObj) (rest : List MemoryObj) : Type 0 where
  pub cover : (x : ℕ) → cover_objs x live ≡ covers x m.offset m.nbytes + cover_objs x rest
  pub bytes : total live ≡ m.nbytes + total rest
  pub sized : (d : Dict ℕ (List ℕ)) → All (IsSized d) live → IsSized d m × All (IsSized d) rest

-- The call has returned; `rest` are the objects still live.
abbrev pub Frees : PoolAllocator → List MemoryObj → Outcome (Unit {0}) × PoolAllocator → Type 0
Frees a rest (ok _, b) = IsValid rest b × (b.pool ≡ a.pool) × (b.capacity ≡ a.capacity)
Frees a rest (raised _, b) = ⊥

sub-cancel : (m n : ℕ) → sub (pos (m + n)) m ≡ pos n
sub-cancel m n = ground arith

-- The state that `free` leaves.
abbrev released : PoolAllocator → MemoryObj → List ℕ → PoolAllocator
released a m offsets = record a {
  used_bytes = sub a.used_bytes m.nbytes;
  free_segments = insert ℕ_discrete m.nbytes (m.offset ∷ offsets) a.free_segments;
}

free_one-released :
    (a : PoolAllocator) (m : MemoryObj) (offsets : List ℕ)
    → lookup ℕ_discrete m.nbytes a.free_segments ≡ some offsets
    → free_one m a ≡ (ok tt, released a m offsets)
unfolding free_one
free_one-released a m offsets found = ground arith

free_list_found :
    (n : ℕ) (offsets : List ℕ) (d : Dict ℕ (List ℕ))
    → lookup ℕ_discrete n d ≡ some offsets
    → free_list n d ≡ offsets
unfolding free_list
free_list_found n offsets d found = ground arith

released-IsValid :
    (a : PoolAllocator) (live rest : List MemoryObj) (m : MemoryObj) (offsets : List ℕ)
    → IsValid live a
    → Splits live m rest
    → lookup ℕ_discrete m.nbytes a.free_segments ≡ some offsets
    → IsValid rest (released a m offsets)
released-IsValid a live rest m offsets valid split found = record {
  fits = valid.fits;
  tiled = λ x. omega (
    arith,
    valid.tiled x,
    split.cover x,
    ap (cover_offsets x m.nbytes) (free_list_found m.nbytes offsets a.free_segments found),
    cover_free-insert x m.nbytes (m.offset ∷ offsets) a.free_segments,
  );
  used = rw (valid.used, split.bytes) (sub-cancel m.nbytes (total rest));
  sized =
      insert-All-IsSized m.nbytes (m.offset ∷ offsets) a.free_segments rest
        (split.sized a.free_segments valid.sized).1;
}

-- Freeing an object that is live in a valid allocator returns and leaves the others live in a valid
-- allocator with the same bytes.
pub free_one-Frees :
    (a : PoolAllocator) (live rest : List MemoryObj) (m : MemoryObj)
    → IsValid live a
    → Splits live m rest
    → Frees a rest (free_one m a)
free_one-Frees a live rest m valid split =
    elim (Option-cases (lookup ℕ_discrete m.nbytes a.free_segments)) [
      | inl missing ↦ absurd (ground (arith, (split.sized a.free_segments valid.sized).0))
      | inr (offsets, found) ↦
          rw (free_one-released a m offsets found)
            (released-IsValid a live rest m offsets valid split found, refl, refl)
    ]

pub free_single : (a : PoolAllocator) (m : MemoryObj) → free (m ∷ []) a ≡ free_one m a
unfolding free
free_single a m = ground arith
