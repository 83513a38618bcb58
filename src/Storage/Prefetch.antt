-- ===== src/Storage/Prefetch.antt =====
-- mini_llmcache/l1/prefetch_controller.py.
pub mod Locks
pub mod Load
pub mod Hands
pub mod Fetch
pub mod Counts
pub mod Steps
pub mod Round
pub mod GiveBack
pub mod Release
pub mod Resolve
use mini_llmcache.Base.{
  key_error, ℕ, zero, suc, ◌+◌, max, List, [], ◌∷◌, ◌++◌, map, Option, none, some, Bool, true,
  false, not, ite, ◌||◌, Action, Outcome, ok, raised, pure, gets, modify, ◌>>=◌, ◌>>◌,
  if◌then◌else◌, ltb, leb, ◌==◌, length, take, drop, get_elem?, elem,
}
use mini_llmcache.Base.Dict.{Dict, insert, erase, contains}
use mini_llmcache.Base.Dict
use mini_llmcache.Protocol.{Text, text_dec, ChunkKey, key_dec}
use mini_llmcache.L1.Memory.{MemoryObj, PoolAllocator}
use mini_llmcache.L1.Listener.{discard}
use mini_llmcache.L1.Manager.{
  L1Manager, Reserved, reserve_read_prefix, reserve_write, finish_write_and_reserve_read,
  finish_read, delete,
}
use mini_llmcache.L2.{Adapter}
use mini_llmcache.L2
use mini_llmcache.Storage.{Storage, Job, on_l1}

-- `self.held.get(request_id, {})`
unfoldable pub held_keys : Text → Storage → List ChunkKey
held_keys id s = elim (Dict.lookup text_dec id s.held) [ none ↦ [] | some keys ↦ keys ]

-- `[key for key in keys if key in held]`
unfoldable pub released_keys : List ChunkKey → List ChunkKey → List ChunkKey
released_keys [] held = []
released_keys (key ∷ keys) held =
    if elem key_dec key held then key ∷ released_keys keys held else released_keys keys held

-- `for key in released: del held[key]`
unfoldable pub discard_all : List ChunkKey → List ChunkKey → List ChunkKey
unfolding discard
discard_all [] held = held
discard_all (key ∷ released) held = discard_all released (discard key held)

-- The part of `release` under the prefetcher's lock: the keys to be given back. A request that
-- holds nothing gets no entry.
unfoldable pub take_released : Text → Option (List ChunkKey) → Storage → List ChunkKey × Storage
unfolding held_keys
take_released id keys s =
    let held = held_keys id s in
    let released = released_keys (elim keys [ none ↦ held | some ks ↦ ks ]) held in
    (
      released,
      if contains text_dec id s.held
          then record s { held = insert text_dec id (discard_all released held) s.held }
          else s,
    )

-- `del` of a key that stands twice raises the second time: whether one does, and the keys before it.
unfoldable pub repeats : List ChunkKey → Bool
repeats [] = false
repeats (key ∷ released) = elem key_dec key released || repeats released

unfoldable pub before_repeat : List ChunkKey → List ChunkKey → List ChunkKey
before_repeat seen [] = []
before_repeat seen (key ∷ released) =
    let rest = before_repeat (key ∷ seen) released in
    if elem key_dec key seen then [] else key ∷ rest

-- The rest of `release`, on what `take_released` comes to.
unfoldable pub give_released :
    Text → Storage → List ChunkKey × Storage → Outcome (Unit {0}) × Storage
unfolding repeats before_repeat held_keys
give_released id s (released, s') =
    if repeats released
    then (
      raised key_error,
      record s {
        held = insert text_dec id (discard_all (before_repeat [] released) (held_keys id s)) s.held;
      },
    )
    else on_l1 (finish_read released) s'

unfoldable pub release : Text → Option (List ChunkKey) → Action Storage (Unit {0})
unfolding give_released
release id keys s = give_released id s (take_released id keys s)

unfoldable pub release_first : Text → ℕ → Action Storage (Unit {0})
release_first id n s = release id (some (take n (held_keys id s))) s

-- The part of `end_session` that forgets the request.
unfoldable pub forget : Text → Storage → Storage
forget id s = record s { hits = erase text_dec id s.hits; held = erase text_dec id s.held }

unfoldable pub end_session : Text → Action Storage (Unit {0})
unfolding forget
end_session id = release id none >> modify (forget id)

unfoldable pub start_session : Text → List ChunkKey → Option ℕ → Storage → Storage
start_session id keys chunk_nbytes s = record s {
  hits = insert text_dec id none s.hits;
  jobs = s.jobs ++ (record { request_id = id; keys = keys; chunk_nbytes = chunk_nbytes } ∷ []);
}

-- `self.hits.get(request_id)`: an unknown request looks like a pending one.
unfoldable pub query : Text → Storage → Option (ℕ × ℕ)
query id s = elim (Dict.lookup text_dec id s.hits) [ none ↦ none | some h ↦ h ]

-- `dict.fromkeys(keys)`, as the list of its keys.
unfoldable pub unique : List ChunkKey → List ChunkKey
unfolding discard
unique [] = []
unique (key ∷ keys) = key ∷ discard key (unique keys)

-- The part of `resolve` under the prefetcher's lock, for a session that is still there.
unfoldable pub publish : Text → List ChunkKey → List ChunkKey → Storage → Storage
unfolding unique
publish id l1_keys loaded_keys s = record s {
  hits = insert text_dec id (some (length l1_keys, length loaded_keys)) s.hits;
  held = insert text_dec id (unique (l1_keys ++ loaded_keys)) s.held;
}

unfoldable pub resolve : Text → List ChunkKey → List ChunkKey → Action Storage (Unit {0})
unfolding publish
resolve id l1_keys loaded_keys s =
    if contains text_dec id s.hits
    then (ok tt, publish id l1_keys loaded_keys s)
    else on_l1 (finish_read (l1_keys ++ loaded_keys)) s

-- `lookup_l2s`
unfoldable pub lookup_l2s : List ChunkKey → List Adapter → List ℕ
lookup_l2s [] l2s = []
lookup_l2s (key ∷ missing) l2s = map (L2.lookup (key ∷ missing)) l2s

-- `max(l2_hits, default=0)`
unfoldable pub max_hits : List ℕ → ℕ
max_hits [] = 0
max_hits (h ∷ hs) = max h (max_hits hs)

-- `self.l1.reserve_write([key], chunk_nbytes, is_temporary=True)[key]`
unfoldable pub reserve_one : ChunkKey → ℕ → Storage → Option MemoryObj × Storage
reserve_one key chunk_nbytes s =
    let (reserved, m) = reserve_write (key ∷ []) chunk_nbytes true s.l1 in
    (elim (Dict.lookup key_dec key reserved) [ none ↦ none | some obj ↦ obj ], record s { l1 = m })

-- The loop of `reserve_load` over `missing[:l2_hits]`.
unfoldable pub reserve_load :
    List ChunkKey → ℕ → Storage → (List ChunkKey × List MemoryObj) × Storage
unfolding reserve_one
reserve_load [] chunk_nbytes s = (([], []), s)
reserve_load (key ∷ keys) chunk_nbytes s =
    let (obj, s') = reserve_one key chunk_nbytes s in
    let more = reserve_load keys chunk_nbytes s' in
    elim obj [ none ↦ (([], []), s') | some o ↦ ((key ∷ more.0.0, o ∷ more.0.1), more.1) ]

-- `sorted(range(len(l2s)), key=lambda i: -l2_hits[i])`, which is stable: the adapters with their
-- hits, those of most hits first. An adapter with no hit count is out of the range of `l2_hits`.
unfoldable pub insert_by_hits : ℕ × Adapter → List (ℕ × Adapter) → List (ℕ × Adapter)
insert_by_hits p [] = p ∷ []
insert_by_hits p (q ∷ qs) =
    let rest = insert_by_hits p qs in if ltb p.0 q.0 then q ∷ rest else p ∷ q ∷ qs

unfoldable pub by_hits : List ℕ → List Adapter → List (ℕ × Adapter)
unfolding insert_by_hits
by_hits (h ∷ hs) (a ∷ l2s) = insert_by_hits (h, a) (by_hits hs l2s)
by_hits [] l2s = []
by_hits (h ∷ hs) [] = []

-- A task of an adapter on the pool of the L1 buffers.
abbrev pub on_pool : {A : Type 0} → Action PoolAllocator A → Action Storage A
on_pool f s = let (r, a) = f s.l1.allocator in (r, record s { l1 = record s.l1 { allocator = a } })

-- The loop of `load_from_l2s`, which has loaded `loaded` chunks so far.
unfoldable pub load_loop :
    List (ℕ × Adapter) → List ChunkKey → List MemoryObj → ℕ → Action Storage ℕ
load_loop [] load_keys objs loaded = pure loaded
load_loop ((hits, l2) ∷ l2s) load_keys objs loaded =
    if (loaded == length load_keys) || leb hits loaded then pure loaded else (do
      count ← on_pool (L2.load (drop loaded load_keys) (drop loaded objs) l2)
      load_loop l2s load_keys objs (loaded + count))

unfoldable pub load_from_l2s : List ChunkKey → List MemoryObj → List ℕ → Action Storage ℕ
unfolding by_hits load_loop
load_from_l2s [] objs l2_hits = pure 0
load_from_l2s (key ∷ load_keys) objs l2_hits = do
  l2s ← gets (λ s. s.l2s)
  load_loop (by_hits l2_hits l2s) (key ∷ load_keys) objs 0

-- The rest of `prefetch` where the chunk size is known.
unfoldable pub prefetch_l2 : Text → List ChunkKey → ℕ → ℕ → Action Storage (Unit {0})
unfolding lookup_l2s max_hits
prefetch_l2 id keys chunk_nbytes l1_hits = do
  l2_hits ← gets (λ s. lookup_l2s (drop l1_hits keys) s.l2s)
  (load_keys, objs) ← (λ s.
      let (p, s') = reserve_load (take (max_hits l2_hits) (drop l1_hits keys)) chunk_nbytes s in
      (ok p, s'))
  loaded ← load_from_l2s load_keys objs l2_hits
  on_l1 (finish_write_and_reserve_read (take loaded load_keys))
  on_l1 (delete (drop loaded load_keys) true)
  resolve id (take l1_hits keys) (take loaded load_keys)

-- `prefetch`: one round of the worker, without other threads in between.
unfoldable pub prefetch : Text → List ChunkKey → Option ℕ → Action Storage (Unit {0})
unfolding prefetch_l2
prefetch id keys none = do
  l1_hits ← on_l1 (reserve_read_prefix keys)
  resolve id (take l1_hits keys) []
prefetch id keys (some chunk_nbytes) = do
  l1_hits ← on_l1 (reserve_read_prefix keys)
  prefetch_l2 id keys chunk_nbytes l1_hits
