-- ===== src/L1/Manager/Valid.antt =====
-- The invariant of mini_llmcache/l1/manager.py: the entries' objects are the live objects of the
-- allocator, so no two entries share a byte of the pool, and no byte is lost.
use mini_llmcache.Base.{ℕ, ◌≡◌, refl, List, [], ◌∷◌, All, arith, none, some, if_pos, if_neg}
use mini_llmcache.Base.Dict.{Dict, lookup, insert, erase, IsDict}
use mini_llmcache.Protocol.{ChunkKey, key_dec}
use mini_llmcache.L1.Memory.{MemoryObj, PoolAllocator}
use mini_llmcache.L1.Memory.Segments.{cover_objs, total}
use mini_llmcache.L1.Memory.Allocate.{IsSized}
use mini_llmcache.L1.Memory.Allocate
use mini_llmcache.L1.Memory.Release.{Splits}
use mini_llmcache.L1.Manager.{Entry, L1Manager}

abbrev pub objs : Dict ChunkKey Entry → List MemoryObj
objs [] = []
objs (e ∷ d) = e.1.obj ∷ objs d

pub record IsValid (m : L1Manager) : Type 0 where
  pub pool : Allocate.IsValid (objs m.entries) m.allocator
  pub dict : IsDict key_dec m.entries

-- The same objects, in some order.
pub record SameObjs (ms ns : List MemoryObj) : Type 0 where
  pub cover : (x : ℕ) → cover_objs x ms ≡ cover_objs x ns
  pub bytes : total ms ≡ total ns
  pub sized : (d : Dict ℕ (List ℕ)) → All (IsSized d) ms → All (IsSized d) ns

pub SameObjs-IsValid :
    {ms ns : List MemoryObj} {a : PoolAllocator}
    → SameObjs ms ns
    → Allocate.IsValid ms a
    → Allocate.IsValid ns a
SameObjs-IsValid {a} same valid = record {
  fits = valid.fits;
  tiled = λ x. omega (arith, valid.tiled x, same.cover x);
  used = ground (arith, same.bytes, valid.used);
  sized = same.sized a.free_segments valid.sized;
}

-- A changed entry that keeps its object leaves the objects as they are.
pub objs-insert_same :
    (key : ChunkKey) (d : Dict ChunkKey Entry) (e e' : Entry)
    → lookup key_dec key d ≡ some e
    → e'.obj ≡ e.obj
    → objs (insert key_dec key e' d) ≡ objs d
objs-insert_same key [] e e' found same = cc
objs-insert_same key (p ∷ d) e e' found same = ground (arith, objs-insert_same key d e e')

pub insert-SameObjs :
    (key : ChunkKey) (e : Entry) (d : Dict ChunkKey Entry)
    → lookup key_dec key d ≡ none
    → SameObjs (e.obj ∷ objs d) (objs (insert key_dec key e d))
insert-SameObjs key e [] missing = record { cover = λ x. refl; bytes = refl; sized = λ d h. h }
insert-SameObjs key e (p ∷ d) missing = elim (key_dec key p.0) [
  | yes here ↦ absurd (ground arith)
  | no there ↦
      let rest = insert-SameObjs key e d (ground arith) in
      rw (if_neg _ there) (record {
        cover = λ x. omega (arith, rest.cover x);
        bytes = omega (arith, rest.bytes);
        sized = λ f h. (h.1.0, rest.sized f (h.0, h.1.1));
      })
]

pub erase-Splits :
    (key : ChunkKey) (e : Entry) (d : Dict ChunkKey Entry)
    → lookup key_dec key d ≡ some e
    → Splits (objs d) e.obj (objs (erase key_dec key d))
erase-Splits key e [] found = cc
erase-Splits key e (p ∷ d) found = elim (key_dec key p.0) [
  | yes here ↦ here_Splits here
  | no there ↦
      let rest = erase-Splits key e d (ground arith) in
      rw (if_neg _ there) (record {
        cover = λ x. omega (arith, rest.cover x);
        bytes = omega (arith, rest.bytes);
        sized = λ f h. ((rest.sized f h.1).0, (h.0, (rest.sized f h.1).1));
      })
]
  where
    here_Splits : key ≡ p.0 → Splits (objs (p ∷ d)) e.obj (objs (erase key_dec key (p ∷ d)))
    here_Splits here =
        let same : p.1 ≡ e = ground arith in
        rw (if_pos _ here, ← same) (record { cover = λ x. refl; bytes = refl; sized = λ f h. h })
