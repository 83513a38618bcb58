-- ===== src/Tests/Evict.antt =====
-- A round of eviction on the small cache, with a pool that has no byte left.
use mini_llmcache.Base.{
  ◌*◌, ◌/◌, ◌≡◌, refl, max, [], ◌∷◌, some, none, true, false, arith, ok, length, elem, Distinct,
  if◌then◌else◌, ◌&&◌,
}
use mini_llmcache.Base.Dict.{lookup}
use mini_llmcache.Protocol.{ChunkKey, key_dec}
use mini_llmcache.L1.Listener.{get_victims}
use mini_llmcache.L1.Manager.{Entry, L1Manager, is_evictable}
use mini_llmcache.L1.Manager.Valid.{IsValid}
use mini_llmcache.L1.Manager.Delete.{doomed}
use mini_llmcache.Storage.Evict.{policy_order, below_watermark, evict_round}
use mini_llmcache.Storage.Evict.Victims.{first_eligible, get_victims_lem}
use mini_llmcache.Storage.Evict.Rounds.{is_busy, evict_round-spares}
use mini_llmcache.Tests.Data.{key_a, key_b, pool, pool-IsValid, cache, keys-Distinct, b-Distinct}

abbrev full : L1Manager
full = record cache { allocator = record pool { capacity = 8 } }

full-IsValid : IsValid full
full-IsValid = record {
  pool = record {
    fits = omega arith;
    tiled = pool-IsValid.tiled;
    used = refl;
    sized = pool-IsValid.sized;
  };
  dict = keys-Distinct;
}

listed-Distinct : Distinct key_dec (policy_order full.listeners)
unfolding policy_order
listed-Distinct = b-Distinct

evict_round-spares_example :
    (m' : L1Manager) × (evict_round full ≡ (ok tt, m'))
    × IsValid m'
    × ((j : ChunkKey) (e : Entry)
        → lookup key_dec j full.entries ≡ some e
        → is_busy e ≡ true
        → lookup key_dec j m'.entries ≡ some e)
    × ((j : ChunkKey)
        → lookup key_dec j m'.entries ≡ (
            if (if below_watermark full.allocator.used_bytes full.allocator.capacity
                then false
                else elem key_dec j (
                    first_eligible
                      (max 1 (length (policy_order full.listeners) * 1 / 5))
                      (is_evictable full)
                      (policy_order full.listeners)))
              && doomed false (lookup key_dec j full.entries)
            then none
            else lookup key_dec j full.entries))
evict_round-spares_example = evict_round-spares full full-IsValid listed-Distinct (omega arith)

get_victims_lem_example :
    get_victims 1 5 (λ k. true) (key_a ∷ key_b ∷ [])
    ≡ first_eligible 1 (λ k. true) (key_a ∷ key_b ∷ [])
get_victims_lem_example = get_victims_lem 1 5 (λ k. true) (key_a ∷ key_b ∷ [])
