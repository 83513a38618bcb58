-- ===== src/Tests/Manager.antt =====
-- The lock protocol of mini_llmcache/l1/manager.py on the small cache.
use mini_llmcache.Base.{
  ℕ, ◌≤◌, All, get_elem?, ◌≡◌, [], ◌∷◌, some, none, true, false, ok, length, take, elem,
  if◌then◌else◌,
}
use mini_llmcache.Base.Dict.{lookup}
use mini_llmcache.Protocol.{ChunkKey, key_dec}
use mini_llmcache.L1.Listener.{on_removed}
use mini_llmcache.L1.Manager.{
  L1Manager, reserve_write, reserve_read_prefix, reserve_read, finish_read, delete, hold,
  notify_some, can_read,
}
use mini_llmcache.L1.Manager.Valid.{IsValid}
use mini_llmcache.L1.Manager.Write.{Reserves, Finishes, reserve_write-Reserves}
use mini_llmcache.L1.Manager.Read.{
  IsReadable, reserve_read_prefix-Finishes, reserve_read_lem, readable_obj, hold_readable,
}
use mini_llmcache.L1.Manager.Release.{finish_read-drops, DropsHolds, told, kept_keys, spent_keys}
use mini_llmcache.L1.Manager.Delete.{delete-Deletes, Deletes, doomed_keys}
use mini_llmcache.Tests.Data.{
  key_a, key_b, key_c, cache, cache-IsValid, keys-Distinct, c-Distinct, keys-IsPresent,
}

reserve_write-Reserves_example :
    Reserves cache (key_c ∷ []) 4 true (reserve_write (key_c ∷ []) 4 true cache)
reserve_write-Reserves_example =
    reserve_write-Reserves cache (key_c ∷ []) 4 true cache-IsValid c-Distinct

reserve_read_prefix-Finishes_example :
    (n : ℕ) × (m' : L1Manager) × (reserve_read_prefix (key_a ∷ key_b ∷ []) cache ≡ (ok n, m'))
    × All (IsReadable cache.entries) (take n (key_a ∷ key_b ∷ []))
    × (n ≤ 2)
    × ((key : ChunkKey)
        → get_elem? (key_a ∷ key_b ∷ []) n ≡ some key
        → can_read (lookup key_dec key cache.entries) ≡ false)
    × Finishes hold cache (take n (key_a ∷ key_b ∷ [])) cache.listeners m'
reserve_read_prefix-Finishes_example =
    reserve_read_prefix-Finishes cache (key_a ∷ key_b ∷ []) cache-IsValid keys-Distinct

finish_read-drops_example :
    (m' : L1Manager) × (finish_read (key_a ∷ key_b ∷ []) cache ≡ (
      ok tt,
      told
          (kept_keys cache.entries (key_a ∷ key_b ∷ []))
          (spent_keys cache.entries (key_a ∷ key_b ∷ []))
          m',
    ))
    × DropsHolds (key_a ∷ key_b ∷ []) cache m'
finish_read-drops_example =
    finish_read-drops (key_a ∷ key_b ∷ []) cache cache-IsValid keys-Distinct keys-IsPresent

delete-Deletes_example :
    (m' : L1Manager) × (delete (key_a ∷ key_b ∷ []) false cache ≡ (
      ok (length (doomed_keys false cache.entries (key_a ∷ key_b ∷ []))),
      notify_some on_removed (doomed_keys false cache.entries (key_a ∷ key_b ∷ [])) m',
    ))
    × Deletes false (key_a ∷ key_b ∷ []) cache m'
delete-Deletes_example = delete-Deletes (key_a ∷ key_b ∷ []) false cache cache-IsValid keys-Distinct

reserve_read_lem_example :
    let (r, m') = reserve_read (key_a ∷ key_b ∷ []) cache in
    IsValid m'
    × ((j : ChunkKey)
        → (lookup key_dec j r ≡ (
            if elem key_dec j (key_a ∷ key_b ∷ [])
            then some (readable_obj (lookup key_dec j cache.entries))
            else none))
          × (lookup key_dec j m'.entries ≡ (
              if elem key_dec j (key_a ∷ key_b ∷ [])
              then hold_readable (lookup key_dec j cache.entries)
              else lookup key_dec j cache.entries)))
reserve_read_lem_example = reserve_read_lem (key_a ∷ key_b ∷ []) cache cache-IsValid keys-Distinct
