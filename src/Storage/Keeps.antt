-- ===== src/Storage/Keeps.antt =====
-- What the threads of mini_llmcache/storage_manager.py do keeps the cache valid, exceptions
-- included.
use mini_llmcache.Base.{
  ℕ, ◌+◌, refl, sym, subst, List, [], ◌∷◌, Option, none, some, Bool, true, false, Action, ok, pure,
  modify, ◌>>=◌, ◌>>◌, Preserves, Preserves-bind, Preserves-if, if_run, take, drop, length, ◌==◌,
  ◌||◌, leb, Option-cases, inl, inr, if◌then◌else◌, ◌++◌,
}
use mini_llmcache.Base.Dict.{contains}
use mini_llmcache.Protocol.{Text, ChunkKey, text_dec}
use mini_llmcache.L1.Memory.{MemoryObj, PoolAllocator}
use mini_llmcache.L1.Manager.{L1Manager, reserve_read_prefix, finish_write_and_reserve_read, delete}
use mini_llmcache.L1.Manager.Valid.{IsValid}
use mini_llmcache.L1.Manager.Write.{reserve_write-Reserves}
use mini_llmcache.L1.Manager.Keeps.{
  Keeps, finish_read-Keeps, reserve_read_prefix-Keeps, finish_write_and_reserve_read-Keeps,
  delete-Keeps, rewritten-IsValid,
}
use mini_llmcache.L2.{Adapter, mock, fs}
use mini_llmcache.L2
use mini_llmcache.L2.Writes.{Writes, load-Writes}
use mini_llmcache.Storage.{Storage, on_l1}
use mini_llmcache.Storage.Prefetch.{
  repeats, give_released, take_released, release, release_first, end_session, held_keys, forget,
  resolve, reserve_one, reserve_load, on_pool, load_loop, load_from_l2s, by_hits, prefetch_l2,
  prefetch, max_hits, lookup_l2s, publish,
}

-- The L1 cache of the storage stays valid.
abbrev pub HasValid : Storage → Type 0
HasValid s = IsValid s.l1

abbrev pub KeepsL1 : {A : Type 0} → Action Storage A → Type 0
KeepsL1 f = Preserves HasValid f

pub on_l1-KeepsL1 : {A : Type 0} (f : Action L1Manager A) → Keeps f → KeepsL1 (on_l1 f)
on_l1-KeepsL1 f h s valid = h s.l1 valid

either-HasValid :
    (b : Bool) (s t : Storage) → HasValid s → HasValid t → HasValid (if b then s else t)
either-HasValid true s t h g = h
either-HasValid false s t h g = g

take_released-HasValid :
    (id : Text) (keys : Option (List ChunkKey)) (s : Storage)
    → HasValid s
    → HasValid (take_released id keys s).1
unfolding take_released
take_released-HasValid id keys s h = either-HasValid (contains text_dec id s.held) _ s h h

give_released-HasValid :
    (id : Text) (s : Storage) (p : List ChunkKey × Storage)
    → HasValid s
    → HasValid p.1
    → HasValid (give_released id s p).1
unfolding give_released
give_released-HasValid id s (released, s') h h' =
    if_run HasValid (repeats released) _ _ h (finish_read-Keeps released s'.l1 h')

pub release-KeepsL1 : (id : Text) (keys : Option (List ChunkKey)) → KeepsL1 (release id keys)
unfolding release
release-KeepsL1 id keys s h =
    give_released-HasValid id s (take_released id keys s) h (take_released-HasValid id keys s h)

pub release_first-KeepsL1 : (id : Text) (n : ℕ) → KeepsL1 (release_first id n)
unfolding release_first
release_first-KeepsL1 id n s h = release-KeepsL1 id (some (take n (held_keys id s))) s h

pub end_session-KeepsL1 : (id : Text) → KeepsL1 (end_session id)
unfolding end_session forget
end_session-KeepsL1 id =
    Preserves-bind (release id none) (λ _. modify (forget id)) (release-KeepsL1 id none)
      (λ a s h. h)

resolve-KeepsL1 :
    (id : Text) (l1_keys loaded_keys : List ChunkKey) → KeepsL1 (resolve id l1_keys loaded_keys)
unfolding resolve publish
resolve-KeepsL1 id l1_keys loaded_keys s h =
    if_run HasValid (contains text_dec id s.hits) _ _ h
      (finish_read-Keeps (l1_keys ++ loaded_keys) s.l1 h)

reserve_one-HasValid :
    (key : ChunkKey) (n : ℕ) (s : Storage) → HasValid s → HasValid (reserve_one key n s).1
unfolding reserve_one
reserve_one-HasValid key n s h = (reserve_write-Reserves s.l1 (key ∷ []) n true h (refl, tt)).valid

reserve_load-HasValid :
    (keys : List ChunkKey) (n : ℕ) (s : Storage) → HasValid s → HasValid (reserve_load keys n s).1
unfolding reserve_load
reserve_load-HasValid [] n s h = h
reserve_load-HasValid (key ∷ keys) n s h =
    let one = reserve_one key n s in
    let reserved = reserve_one-HasValid key n s h in
    elim (Option-cases one.0) [
      | inl full ↦ rw (full, reserve_load) reserved
      | inr (obj, got) ↦ rw (got, reserve_load) (reserve_load-HasValid keys n one.1 reserved)
    ]

on_pool-KeepsL1 : {A : Type 0} (f : Action PoolAllocator A) → Writes f → KeepsL1 (on_pool f)
on_pool-KeepsL1 f h s valid =
    let (bytes, same) = h s.l1.allocator s.l1.allocator (s.l1.allocator.pool, refl) in
    subst (λ a. IsValid (record s.l1 { allocator = a })) (sym same)
      (rewritten-IsValid s.l1 bytes valid)

load_loop-KeepsL1 :
    (l2s : List (ℕ × Adapter)) (load_keys : List ChunkKey) (objs : List MemoryObj) (loaded : ℕ)
    → KeepsL1 (load_loop l2s load_keys objs loaded)
unfolding load_loop
load_loop-KeepsL1 [] load_keys objs loaded = λ s h. h
load_loop-KeepsL1 ((hits, l2) ∷ l2s) load_keys objs loaded =
    let task : Action PoolAllocator ℕ = L2.load (drop loaded load_keys) (drop loaded objs) l2 in
    let next : ℕ → Action Storage ℕ = λ count. load_loop l2s load_keys objs (loaded + count) in
    Preserves-if ((loaded == length load_keys) || leb hits loaded) (pure loaded)
      (on_pool task >>= next) (λ s h. h)
      (Preserves-bind (on_pool task) next
        (on_pool-KeepsL1 task (load-Writes (drop loaded load_keys) (drop loaded objs) l2))
        (λ count. load_loop-KeepsL1 l2s load_keys objs (loaded + count)))

load_from_l2s-KeepsL1 :
    (load_keys : List ChunkKey) (objs : List MemoryObj) (l2_hits : List ℕ)
    → KeepsL1 (load_from_l2s load_keys objs l2_hits)
unfolding load_from_l2s
load_from_l2s-KeepsL1 [] objs l2_hits s h = h
load_from_l2s-KeepsL1 (key ∷ load_keys) objs l2_hits s h =
    load_loop-KeepsL1 (by_hits l2_hits s.l2s) (key ∷ load_keys) objs 0 s h

-- `reserve_load` as a step.
abbrev reserved_load : List ChunkKey → ℕ → Action Storage (List ChunkKey × List MemoryObj)
reserved_load keys n s = let (p, s') = reserve_load keys n s in (ok p, s')

-- What follows it in `prefetch`.
module _ (id : Text) (keys : List ChunkKey) (l1_hits : ℕ) where
  abbrev with_loaded : List ChunkKey → ℕ → Action Storage (Unit {0})
  with_loaded load_keys loaded =
      on_l1 (finish_write_and_reserve_read (take loaded load_keys))
      >> (on_l1 (delete (drop loaded load_keys) true)
          >> resolve id (take l1_hits keys) (take loaded load_keys))

  with_loaded-KeepsL1 :
      (load_keys : List ChunkKey) (loaded : ℕ) → KeepsL1 (with_loaded load_keys loaded)
  with_loaded-KeepsL1 load_keys loaded =
      let finish : Action L1Manager (Unit {0}) =
        finish_write_and_reserve_read (take loaded load_keys) in
      let drops : Action L1Manager ℕ = delete (drop loaded load_keys) true in
      let ends : Action Storage (Unit {0}) =
        resolve id (take l1_hits keys) (take loaded load_keys) in
      Preserves-bind (on_l1 finish) (λ _. on_l1 drops >> ends)
        (on_l1-KeepsL1 finish (finish_write_and_reserve_read-Keeps (take loaded load_keys)))
        (λ _.
          Preserves-bind (on_l1 drops) (λ _. ends)
            (on_l1-KeepsL1 drops (delete-Keeps (drop loaded load_keys) true))
            (λ _. resolve-KeepsL1 id (take l1_hits keys) (take loaded load_keys)))

  abbrev with_reserved : List ℕ → List ChunkKey × List MemoryObj → Action Storage (Unit {0})
  with_reserved l2_hits (load_keys, objs) =
      load_from_l2s load_keys objs l2_hits >>= λ loaded. with_loaded load_keys loaded

  with_reserved-KeepsL1 :
      (l2_hits : List ℕ) (p : List ChunkKey × List MemoryObj) → KeepsL1 (with_reserved l2_hits p)
  with_reserved-KeepsL1 l2_hits (load_keys, objs) =
      Preserves-bind (load_from_l2s load_keys objs l2_hits) (λ loaded. with_loaded load_keys loaded)
        (load_from_l2s-KeepsL1 load_keys objs l2_hits)
        (λ loaded. with_loaded-KeepsL1 load_keys loaded)

  prefetch_l2-KeepsL1 : (n : ℕ) → KeepsL1 (prefetch_l2 id keys n l1_hits)
  unfolding prefetch_l2
  prefetch_l2-KeepsL1 n s h =
      let l2_hits = lookup_l2s (drop l1_hits keys) s.l2s in
      Preserves-bind (reserved_load (take (max_hits l2_hits) (drop l1_hits keys)) n)
        (λ p. with_reserved l2_hits p)
        (λ t g. reserve_load-HasValid (take (max_hits l2_hits) (drop l1_hits keys)) n t g)
        (λ p. with_reserved-KeepsL1 l2_hits p) s h

-- A round of the prefetcher, with or without a known chunk size.
pub prefetch-KeepsL1 :
    (id : Text) (keys : List ChunkKey) (chunk_nbytes : Option ℕ)
    → KeepsL1 (prefetch id keys chunk_nbytes)
unfolding prefetch
prefetch-KeepsL1 id keys none =
    Preserves-bind (on_l1 (reserve_read_prefix keys)) (λ l1_hits. resolve id (take l1_hits keys) [])
      (on_l1-KeepsL1 (reserve_read_prefix keys) (reserve_read_prefix-Keeps keys))
      (λ l1_hits. resolve-KeepsL1 id (take l1_hits keys) [])
prefetch-KeepsL1 id keys (some n) =
    Preserves-bind (on_l1 (reserve_read_prefix keys)) (λ l1_hits. prefetch_l2 id keys n l1_hits)
      (on_l1-KeepsL1 (reserve_read_prefix keys) (reserve_read_prefix-Keeps keys))
      (λ l1_hits. prefetch_l2-KeepsL1 id keys l1_hits n)
