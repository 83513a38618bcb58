-- ===== src/Storage/Evict/Rounds.antt =====
-- A round of the eviction thread of mini_llmcache/l1/eviction.py.
use mini_llmcache.Base.{
  ◌*◌, ◌/◌, ◌<◌, ◌≡◌, refl, ap, ◌∙◌, max, List, none, some, Bool, true, false, arith, if◌then◌else◌,
  length, elem, Distinct, Bool-cases, inl, inr, ok, >>=-ok, pure, ◌>>=◌, ◌&&◌, ◌==◌,
}
use mini_llmcache.Base.Int.{is_zero}
use mini_llmcache.Base.Dict.{lookup}
use mini_llmcache.Protocol.{ChunkKey, key_dec}
use mini_llmcache.L1.Listener.{get_victims, on_removed}
use mini_llmcache.L1.Memory
use mini_llmcache.L1.Manager.{Entry, L1Manager, is_evictable, delete, usage, notify_some}
use mini_llmcache.L1.Manager.Valid.{IsValid}
use mini_llmcache.L1.Manager.Release.{told-keeps}
use mini_llmcache.L1.Manager.Delete.{doomed, doomed_keys, delete-Deletes}
use mini_llmcache.Storage.Prefetch.GiveBack.{told_once-IsValid}
use mini_llmcache.Storage.Evict.{policy_order, below_watermark, evict_round}
use mini_llmcache.Storage.Evict.Victims.{first_eligible, get_victims_lem, first_eligible-Distinct}

-- An entry that is written or read.
abbrev pub is_busy : Entry → Bool
is_busy e = if e.write_locked then true else (if is_zero e.read_count then false else true)

abbrev chosen : L1Manager → List ChunkKey
chosen m = get_victims 1 5 (is_evictable m) (policy_order m.listeners)

evict_low :
    (m : L1Manager)
    → 0 < m.allocator.capacity
    → below_watermark m.allocator.used_bytes m.allocator.capacity ≡ true
    → evict_round m ≡ (ok tt, m)
unfolding evict_round usage Memory.usage
evict_low m room low =
    let some_room : (m.allocator.capacity == 0) ≡ false = ground (arith, room) in
    rw (some_room, low) refl

evict_high :
    (m : L1Manager)
    → 0 < m.allocator.capacity
    → below_watermark m.allocator.used_bytes m.allocator.capacity ≡ false
    → evict_round m ≡ (delete (chosen m) false >>= λ _. pure tt) m
unfolding evict_round usage Memory.usage
evict_high m room high =
    let some_room : (m.allocator.capacity == 0) ≡ false = ground (arith, room) in
    rw (some_room, high) refl

chosen-Distinct :
    (m : L1Manager) → Distinct key_dec (policy_order m.listeners) → Distinct key_dec (chosen m)
chosen-Distinct m distinct =
    rw (get_victims_lem 1 5 (is_evictable m) (policy_order m.listeners))
      (first_eligible-Distinct _ (is_evictable m) (policy_order m.listeners) distinct)

busy_spared : (e : Entry) → is_busy e ≡ true → doomed false (some e) ≡ false
busy_spared e h = ground arith

-- On a valid cache with room, whose policy lists no key twice, a round of eviction returns and
-- leaves a valid cache; it takes no entry that is written or read, and below the watermark none;
-- otherwise it takes, of the least recent keys that are evictable, a fifth of the keys listed and
-- at least one, and of these only entries that nobody writes or reads.
pub evict_round-spares :
    (m : L1Manager)
    → IsValid m
    → Distinct key_dec (policy_order m.listeners)
    → 0 < m.allocator.capacity
    → (m' : L1Manager) × (evict_round m ≡ (ok tt, m'))
      × IsValid m'
      × ((j : ChunkKey) (e : Entry)
          → lookup key_dec j m.entries ≡ some e
          → is_busy e ≡ true
          → lookup key_dec j m'.entries ≡ some e)
      × ((j : ChunkKey)
          → lookup key_dec j m'.entries ≡ (
              if (if below_watermark m.allocator.used_bytes m.allocator.capacity
                  then false
                  else elem key_dec j (
                      first_eligible
                        (max 1 (length (policy_order m.listeners) * 1 / 5))
                        (is_evictable m)
                        (policy_order m.listeners)))
                && doomed false (lookup key_dec j m.entries)
              then none
              else lookup key_dec j m.entries))
evict_round-spares m valid distinct room =
    elim (Bool-cases (below_watermark m.allocator.used_bytes m.allocator.capacity)) [
      | inl low ↦ (m, evict_low m room low, valid, λ j e found busy. found, λ j. rw low refl)
      | inr high ↦
          let (m₁, returned, deletes) =
            delete-Deletes (chosen m) false m valid (chosen-Distinct m distinct) in
          let gone = doomed_keys false m.entries (chosen m) in
          let same = (told-keeps on_removed gone m₁).0 in
          (
            notify_some on_removed gone m₁,
            evict_high m room high ∙ >>=-ok (delete (chosen m) false) (λ _. pure tt) m returned,
            told_once-IsValid on_removed gone m₁ deletes.valid,
            λ j e found busy.
                ap (lookup key_dec j) same
                ∙ ground (arith, deletes.entries j, found, busy_spared e busy),
            λ j.
                ap (lookup key_dec j) same
                ∙ deletes.entries j
                ∙ rw (high, ← get_victims_lem 1 5 (is_evictable m) (policy_order m.listeners)) refl,
          )
    ]
