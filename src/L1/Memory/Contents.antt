-- ===== src/L1/Memory/Contents.antt =====
-- What the views of mini_llmcache/l1/memory.py hold: a write is read back, and leaves alone what
-- does not overlap it.
use mini_llmcache.Base.{
  ℕ, zero, suc, ◌+◌, ◌≤◌, ◌<◌, ◌≡◌, ◌≢◌, refl, ap₂, ◌∙◌, List, [], ◌∷◌, length, arith, ok, raised,
  value_error,
}
use mini_llmcache.L1.Memory.{MemoryObj, PoolAllocator, read_bytes, write_bytes, write_obj}
use mini_llmcache.L1.Memory.Segments.{covers}

-- `bytes(obj.byte_array)`
abbrev pub contents : PoolAllocator → MemoryObj → List ℕ
contents a m = read_bytes a.pool m.offset m.nbytes

-- No byte of the pool lies in both views.
abbrev pub AreDisjoint : MemoryObj → MemoryObj → Type 0
AreDisjoint m n = (x : ℕ) → covers x m.offset m.nbytes + covers x n.offset n.nbytes ≤ 1

read_bytes_cong :
    (f g : ℕ → ℕ) (o n : ℕ)
    → ((x : ℕ) → o ≤ x → x < o + n → f x ≡ g x)
    → read_bytes f o n ≡ read_bytes g o n
unfolding read_bytes
read_bytes_cong f g o zero h = refl
read_bytes_cong f g o (suc n) h =
    ap₂ ◌∷◌ (h o (omega arith) (omega arith))
      (read_bytes_cong f g (o + 1) n (λ x p q. h x (omega arith) (omega arith)))

write_bytes_outside :
    (pool : ℕ → ℕ) (o x : ℕ) (blob : List ℕ)
    → (o ≤ x → x < o + length blob → ⊥)
    → write_bytes pool o blob x ≡ pool x
unfolding write_bytes
write_bytes_outside pool o x [] h = refl
write_bytes_outside pool o x (b ∷ blob) h =
    ground
      (arith, h, write_bytes_outside pool (o + 1) x blob (λ p q. h (omega arith) (omega arith)))

write_bytes_above :
    (pool : ℕ → ℕ) (o b x : ℕ) (blob : List ℕ)
    → o + 1 ≤ x
    → write_bytes pool o (b ∷ blob) x ≡ write_bytes pool (o + 1) blob x
unfolding write_bytes
write_bytes_above pool o b x blob h = ground arith

head_written : (pool : ℕ → ℕ) (o b : ℕ) (blob : List ℕ) → write_bytes pool o (b ∷ blob) o ≡ b
unfolding write_bytes
head_written pool o b blob = ground arith

read_bytes-write_bytes :
    (pool : ℕ → ℕ) (o : ℕ) (blob : List ℕ)
    → read_bytes (write_bytes pool o blob) o (length blob) ≡ blob
unfolding read_bytes
read_bytes-write_bytes pool o [] = refl
read_bytes-write_bytes pool o (b ∷ blob) = ap₂ ◌∷◌ (head_written pool o b blob) (
    read_bytes_cong _ _ (o + 1) (length blob) (λ x p q. write_bytes_above pool o b x blob p)
    ∙ read_bytes-write_bytes pool (o + 1) blob)

-- `obj.byte_array[:] = blob` raises on a value of another length, and changes nothing.
pub write_obj_refused :
    (m : MemoryObj) (blob : List ℕ) (a : PoolAllocator)
    → length blob ≢ m.nbytes
    → write_obj m blob a ≡ (raised value_error, a)
unfolding write_obj
write_obj_refused m blob a h = ground arith

pub write_obj_lem :
    (m : MemoryObj) (blob : List ℕ) (a : PoolAllocator)
    → length blob ≡ m.nbytes
    → write_obj m blob a ≡ (ok tt, record a { pool = write_bytes a.pool m.offset blob })
unfolding write_obj
write_obj_lem m blob a h = ground arith

-- The bytes of the right length written into a view are read back from it.
pub contents-write_obj_self :
    (m : MemoryObj) (blob : List ℕ) (a : PoolAllocator)
    → length blob ≡ m.nbytes
    → contents (write_obj m blob a).1 m ≡ blob
contents-write_obj_self m blob a h =
    rw (write_obj_lem m blob a h, ← h) (read_bytes-write_bytes a.pool m.offset blob)

-- A write of the right length into one view leaves what a view without a common byte reads.
pub contents-write_obj_ne :
    (m n : MemoryObj) (blob : List ℕ) (a : PoolAllocator)
    → length blob ≡ m.nbytes
    → AreDisjoint m n
    → contents (write_obj m blob a).1 n ≡ contents a n
contents-write_obj_ne m n blob a h apart = rw (write_obj_lem m blob a h) (
    read_bytes_cong _ _ n.offset n.nbytes
      λ x p q. write_bytes_outside a.pool m.offset x blob (λ r s. ground (arith, apart x)))
