-- ===== src/L1/Manager/Write.antt =====
-- The write path of mini_llmcache/l1/manager.py: `reserve_write` and `finish_write`.
use mini_llmcache.Base.{
  ℕ, ◌≡◌, refl, List, [], ◌∷◌, All, Option, none, some, true, false, ◌⊎◌, inl, inr, map, ok, elem,
  Distinct, length, if◌then◌else◌, ◌&&◌, not, Bool, Option-cases, >>=-ok, ◌∙◌, for_each,
}
use mini_llmcache.Base.Dict.{lookup, contains}
use mini_llmcache.Protocol.{ChunkKey, key_dec}
use mini_llmcache.L1.Memory.{MemoryObj, PoolAllocator, allocate}
use mini_llmcache.L1.Memory.Allocate.{Allocates, allocate-Allocates}
use mini_llmcache.L1.Listener.{Listener, deliver, on_created, on_write_finished}
use mini_llmcache.L1.Manager.{
  Entry, L1Manager, Reserved, from_keys, missing_keys, grant, reserve_write, unlock, hold, alter,
  notify, finish_write, finish_write_and_reserve_read,
}
use mini_llmcache.L1.Manager.Valid.{IsValid, objs, SameObjs-IsValid}
use mini_llmcache.L1.Manager.Alter.{
  IsPresent, map_entry, altered_all, for_each-alter, lookup-altered_all, altered_all-IsValid,
}
use mini_llmcache.L1.Manager.Place.{
  fresh, lookup-from_keys, elem-missing_keys, missing_keys-Distinct, lookup-place_ne, lookup-place,
  place-SameObjs, place-IsDict,
}

-- A key of the request, or another, that is left untouched.
abbrev pub Untouched : L1Manager → List ChunkKey → ChunkKey → Reserved × L1Manager → Type 0
Untouched m keys j (r, m') =
    (lookup key_dec j m'.entries ≡ lookup key_dec j m.entries)
    × (lookup key_dec j r ≡ (if elem key_dec j keys then some none else none))

-- A key that is now write-locked, with an object of its own.
abbrev pub Locked : ℕ → Bool → ChunkKey → Reserved × L1Manager → Type 0
Locked n temp j (r, m') =
    (obj : MemoryObj) × (obj.nbytes ≡ n)
    × (lookup key_dec j m'.entries ≡ some (fresh temp obj))
    × (lookup key_dec j r ≡ some (some obj))

-- What `reserve_write` does: all of the missing keys, or nothing.
pub record Reserves (m : L1Manager) (keys : List ChunkKey) (n : ℕ) (temp : Bool)
    (p : Reserved × L1Manager) : Type 0 where
  pub valid : IsValid p.1
  pub bytes : p.1.allocator.pool ≡ m.allocator.pool
  pub listeners : p.1.listeners ≡ m.listeners
  pub all_or_nothing :
      ((j : ChunkKey) → Untouched m keys j p)
      ⊎ ((j : ChunkKey)
          → (((elem key_dec j keys && not (contains key_dec j m.entries)) ≡ false)
              → Untouched m keys j p)
            × (((elem key_dec j keys && not (contains key_dec j m.entries)) ≡ true)
                → Locked n temp j p))

module _ (m : L1Manager) (keys : List ChunkKey) (n : ℕ) (temp : Bool) (valid : IsValid m)
    (distinct : Distinct key_dec keys) where
  missing_absent :
      (ks : List ChunkKey)
      → All (λ k. lookup key_dec k m.entries ≡ none) (missing_keys ks m.entries)
  unfolding missing_keys
  missing_absent [] = tt
  missing_absent (k ∷ ks) = elim (Option-cases (lookup key_dec k m.entries)) [
    | inl absent ↦ rw (absent, missing_keys) (absent, missing_absent ks)
    | inr (e, found) ↦ rw (found, missing_keys) (missing_absent ks)
  ]

  grant-Reserves :
      (answer : Option (List MemoryObj) × PoolAllocator)
      → Allocates m.allocator (objs m.entries) (length (missing_keys keys m.entries)) n answer
      → Reserves m keys n temp
          (grant temp (missing_keys keys m.entries) (from_keys keys []) m answer)
  unfolding grant
  grant-Reserves (none, b) (ok_pool, same, cap) = record {
    valid = record { pool = ok_pool; dict = valid.dict };
    bytes = same;
    listeners = refl;
    all_or_nothing = inl λ j. (refl, lookup-from_keys j keys []);
  }
  grant-Reserves (some ms, b) (ok_pool, counted, sized, same, cap) =
      let missing = missing_keys keys m.entries in
      let apart = missing_keys-Distinct keys m.entries distinct in
      record {
        valid = record {
          pool =
              SameObjs-IsValid
                (place-SameObjs temp missing ms m.entries (from_keys keys []) apart counted
                  (missing_absent keys))
                ok_pool;
          dict = place-IsDict temp missing ms m.entries (from_keys keys []) valid.dict;
        };
        bytes = same;
        listeners = refl;
        all_or_nothing = inr λ j. (
          (λ old.
              let ne =
                lookup-place_ne temp j missing ms m.entries (from_keys keys [])
                  (elem-missing_keys j keys m.entries ∙ old) in
              (ne.0, ne.1 ∙ lookup-from_keys j keys [])),
          (λ new.
              lookup-place temp n j missing ms m.entries (from_keys keys []) apart counted sized
                (elem-missing_keys j keys m.entries ∙ new)),
        );
      }

  -- On a valid cache, `reserve_write` of distinct keys write-locks every missing key of the list
  -- with an object of its own of the asked size, or none; all other entries stay, and the cache
  -- stays valid, its pool tiled by the live and the free segments.
  pub reserve_write-Reserves : Reserves m keys n temp (reserve_write keys n temp m)
  unfolding reserve_write
  reserve_write-Reserves =
      grant-Reserves (allocate m.allocator (length (missing_keys keys m.entries)) n) (
        allocate-Allocates m.allocator (objs m.entries) valid.pool
          (length (missing_keys keys m.entries)) n)

-- What the loops over present keys do: the call returns, `f` is applied once at each key, and the
-- listeners are told.
pub record Finishes (f : Entry → Entry) (m : L1Manager) (keys : List ChunkKey) (ls : List Listener)
    (m' : L1Manager) : Type 0 where
  pub valid : IsValid m'
  pub changed :
      (j : ChunkKey)
      → lookup key_dec j m'.entries ≡ (
          if elem key_dec j keys
          then map_entry f (lookup key_dec j m.entries)
          else lookup key_dec j m.entries)
  pub allocator : m'.allocator ≡ m.allocator
  pub listeners : m'.listeners ≡ ls

module _ (m : L1Manager) (keys : List ChunkKey) (valid : IsValid m)
    (distinct : Distinct key_dec keys) (present : All (IsPresent m.entries) keys) where
  pub altered_all-Finishes :
      (f : Entry → Entry) (ls : List Listener)
      → ((e : Entry) → (f e).obj ≡ e.obj)
      → Finishes f m keys ls (record m { entries = altered_all f keys m.entries; listeners = ls })
  altered_all-Finishes f ls keeps =
      let kept = altered_all-IsValid f keeps keys m valid in
      record {
        valid = record { pool = kept.pool; dict = kept.dict };
        changed = λ j. lookup-altered_all f keys j m.entries distinct;
        allocator = refl;
        listeners = refl;
      }

  -- On a valid cache, `finish_write` of distinct present keys returns, unlocks exactly these, tells
  -- the listeners that they are created and then written, and keeps the cache valid.
  pub finish_write-Finishes :
      (m' : L1Manager) × (finish_write keys m ≡ (ok tt, m'))
      × Finishes unlock m keys
          (map (deliver on_write_finished keys) (map (deliver on_created keys) m.listeners))
          m'
  unfolding finish_write
  finish_write-Finishes = (
    record m {
      entries = altered_all unlock keys m.entries;
      listeners = map (deliver on_write_finished keys) (map (deliver on_created keys) m.listeners);
    },
    >>=-ok (for_each (alter unlock) keys)
        (λ _ s. (ok tt, notify on_write_finished keys (notify on_created keys s))) m
        (for_each-alter unlock keys m present),
    altered_all-Finishes unlock _ (λ e. refl),
  )

  -- On a valid cache, `finish_write_and_reserve_read` of distinct present keys returns, unlocks and
  -- holds exactly these, tells the listeners only that they are created, and keeps the cache valid.
  pub finish_write_and_reserve_read-Finishes :
      (m' : L1Manager) × (finish_write_and_reserve_read keys m ≡ (ok tt, m'))
      × Finishes (λ e. hold (unlock e)) m keys (map (deliver on_created keys) m.listeners) m'
  unfolding finish_write_and_reserve_read
  finish_write_and_reserve_read-Finishes = (
    record m {
      entries = altered_all (λ e. hold (unlock e)) keys m.entries;
      listeners = map (deliver on_created keys) m.listeners;
    },
    >>=-ok (for_each (alter (λ e. hold (unlock e))) keys) (λ _ s. (ok tt, notify on_created keys s))
        m (for_each-alter (λ e. hold (unlock e)) keys m present),
    altered_all-Finishes (λ e. hold (unlock e)) _ (λ e. refl),
  )
