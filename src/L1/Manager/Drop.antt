-- ===== src/L1/Manager/Drop.antt =====
-- Freeing an entry in mini_llmcache/l1/manager.py: on a valid manager it cannot raise.
use mini_llmcache.Base.{◌≡◌, refl, List, [], ◌∷◌, arith, some, ok, raised, Outcome, ◌∙◌, >>=-ok}
use mini_llmcache.Base.Dict.{lookup, erase, erase-IsDict}
use mini_llmcache.Protocol.{ChunkKey, key_dec}
use mini_llmcache.L1.Memory.{MemoryObj, PoolAllocator, free}
use mini_llmcache.L1.Memory.Allocate
use mini_llmcache.L1.Memory.Release.{Frees, free_one-Frees, free_single}
use mini_llmcache.L1.Manager.{Entry, L1Manager, release_obj, drop_entry}
use mini_llmcache.L1.Manager.Valid.{IsValid, objs, erase-Splits}

-- The entry is gone, and nothing else has changed but the allocator's books.
pub record Drops (key : ChunkKey) (m m' : L1Manager) : Type 0 where
  pub valid : IsValid m'
  pub entries : m'.entries ≡ erase key_dec key m.entries
  pub bytes : m'.allocator.pool ≡ m.allocator.pool
  pub listeners : m'.listeners ≡ m.listeners

Frees-ok :
    (a : PoolAllocator) (rest : List MemoryObj) (p : Outcome (Unit {0}) × PoolAllocator)
    → Frees a rest p
    → (b : PoolAllocator) × (p ≡ (ok tt, b)) × Allocate.IsValid rest b × (b.pool ≡ a.pool)
Frees-ok a rest (ok _, b) h = (b, refl, h.0, h.1)
Frees-ok a rest (raised e, b) h = absurd h

release_obj_ok :
    (obj : MemoryObj) (m : L1Manager) (b : PoolAllocator)
    → free (obj ∷ []) m.allocator ≡ (ok tt, b)
    → release_obj obj m ≡ (ok tt, record m { allocator = b })
unfolding release_obj
release_obj_ok obj m b h = ground arith

-- Dropping an entry that the manager holds returns.
pub drop_entry-Drops :
    (key : ChunkKey) (e : Entry) (m : L1Manager)
    → IsValid m
    → lookup key_dec key m.entries ≡ some e
    → (m' : L1Manager) × (drop_entry key e m ≡ (ok tt, m')) × Drops key m m'
unfolding drop_entry
drop_entry-Drops key e m valid found =
    let (b, freed, pool, same) = Frees-ok m.allocator (objs (erase key_dec key m.entries)) _ (
      free_one-Frees m.allocator (objs m.entries) (objs (erase key_dec key m.entries)) e.obj
        valid.pool (erase-Splits key e m.entries found)) in
    (
      record m { allocator = b; entries = erase key_dec key m.entries },
      >>=-ok (release_obj e.obj)
          (λ _ s. (ok tt, record s { entries = erase key_dec key s.entries })) m
          (release_obj_ok e.obj m b (free_single m.allocator e.obj ∙ freed)),
      record {
        valid = record { pool = pool; dict = erase-IsDict key_dec key m.entries valid.dict };
        entries = refl;
        bytes = same;
        listeners = refl;
      },
    )
