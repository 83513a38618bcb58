-- ===== src/L1/Manager/Call/Does.antt =====
-- What each method of mini_llmcache/l1/manager.py does to the locks.
use mini_llmcache.Base.{
  ℕ, ◌≡◌, ◌⊎◌, refl, ap, arith, List, [], ◌∷◌, All, none, Bool, true, false, not, ◌&&◌,
  if◌then◌else◌, elem, Distinct, Bool-cases, Option-cases, inl, inr, ok, >>=-ok, pure,
}
use mini_llmcache.Base.Dict.{lookup, lookup-insert, insert, contains}
use mini_llmcache.Protocol.{ChunkKey, key_dec}
use mini_llmcache.L1.Memory.{MemoryObj}
use mini_llmcache.L1.Manager.{L1Manager, promote, make_resident, read, unlock, hold, reserve_write}
use mini_llmcache.L1.Manager.Valid.{IsValid}
use mini_llmcache.L1.Manager.Alter.{IsPresent, map_entry}
use mini_llmcache.L1.Manager.Write.{
  Untouched, Locked, reserve_write-Reserves, finish_write-Finishes,
  finish_write_and_reserve_read-Finishes,
}
use mini_llmcache.L1.Manager.Call.{
  Call, reserves_write, finishes_write, finishes_write_and_reserves_read, reads, promotes, call,
}
use mini_llmcache.L1.Manager.Call.Spec.{
  start_write, on_lock, end_write, start_read, is_free, is_writing, has_reader, At, Spec,
}
use mini_llmcache.L1.Manager.Call.View.{
  lock_of, view, seen-At, unlock_seen, hand_over_seen, resident_seen,
}

-- Promotion, key by key.
promote_lem :
    (keys : List ChunkKey) (m : L1Manager) (j : ChunkKey)
    → lookup key_dec j (promote keys m).entries ≡ (
        if elem key_dec j keys
        then map_entry make_resident (lookup key_dec j m.entries)
        else lookup key_dec j m.entries)
unfolding promote
promote_lem [] m j = refl
promote_lem (key ∷ keys) m j = elim (Option-cases (lookup key_dec key m.entries)) [
  | inl missing ↦ rw (missing, promote) (ground (arith, promote_lem keys m j, missing))
  | inr (e, found) ↦
      rw (found, promote)
        (ground (
          arith,
          promote_lem keys (record m { entries = insert key_dec key (make_resident e) m.entries })
              j,
          lookup-insert key_dec j key (make_resident e) m.entries,
          found,
        ))
]

read_returns :
    (keys : List ChunkKey) (m : L1Manager)
    → All (λ k. is_free (view m k) ≡ true) keys
    → (objs : List MemoryObj) × (read keys m ≡ (ok objs, m))
unfolding read
read_returns [] m h = ([], refl)
read_returns (key ∷ keys) m h = elim (Option-cases (lookup key_dec key m.entries)) [
  | inl missing ↦ absurd (ground (arith, missing, h.0))
  | inr (e, found) ↦
      let (objs, returned) = read_returns keys m h.1 in
      (e.obj ∷ objs, rw (found, read) (>>=-ok (read keys) (λ os. pure (e.obj ∷ os)) m returned))
]

IsPresent-writing :
    (m : L1Manager) (keys : List ChunkKey)
    → All (λ k. is_writing (view m k) ≡ true) keys
    → All (IsPresent m.entries) keys
IsPresent-writing m [] h = tt
IsPresent-writing m (k ∷ keys) h = (ground (arith, h.0), IsPresent-writing m keys h.1)

pub IsPresent-reader :
    (m : L1Manager) (keys : List ChunkKey)
    → All (λ k. has_reader (view m k) ≡ true) keys
    → All (IsPresent m.entries) keys
IsPresent-reader m [] h = tt
IsPresent-reader m (k ∷ keys) h = (ground (arith, h.0), IsPresent-reader m keys h.1)

-- The calls that return a value refine the protocol.
abbrev pub Does : Call → L1Manager → Type 0
Does c m = ((call c m).0 ≡ none) × Spec c (view m) (view (call c m).1)

pub reserve_write-Does :
    (keys : List ChunkKey) (n : ℕ) (temp : Bool) (m : L1Manager)
    → IsValid m
    → Distinct key_dec keys
    → Does (reserves_write keys n temp) m
unfolding call
reserve_write-Does keys n temp m valid distinct =
    (refl, go (reserve_write-Reserves m keys n temp valid distinct).all_or_nothing)
  where
    go :
        ((j : ChunkKey) → Untouched m keys j (reserve_write keys n temp m))
          ⊎ ((j : ChunkKey)
              → (((elem key_dec j keys && not (contains key_dec j m.entries)) ≡ false)
                  → Untouched m keys j (reserve_write keys n temp m))
                × (((elem key_dec j keys && not (contains key_dec j m.entries)) ≡ true)
                    → Locked n temp j (reserve_write keys n temp m)))
        → At [] (λ o. o) (view m) (view (reserve_write keys n temp m).1)
          ⊎ At keys (start_write temp) (view m) (view (reserve_write keys n temp m).1)
    go (inl none_placed) = inl (λ j. ap lock_of (none_placed j).0)
    go (inr placed) = inr (λ j.
        elim (Bool-cases (elem key_dec j keys && not (contains key_dec j m.entries))) [
          | inl new ↦
              let (obj, sized, found, answered) = (placed j).1 new in ground (arith, found, new)
          | inr old ↦ ground (arith, ap lock_of ((placed j).0 old).0, old)
        ])

pub finish_write-Does :
    (keys : List ChunkKey) (m : L1Manager)
    → IsValid m
    → Distinct key_dec keys
    → All (λ k. is_writing (view m k) ≡ true) keys
    → Does (finishes_write keys) m
unfolding call
finish_write-Does keys m valid distinct writing =
    let (m', returned, done) =
      finish_write-Finishes m keys valid distinct (IsPresent-writing m keys writing) in
    rw returned (
      refl,
      seen-At keys (map_entry unlock) (on_lock end_write) m m' done.changed
          (λ j here. unlock_seen (lookup key_dec j m.entries)),
    )

pub hand_over-Does :
    (keys : List ChunkKey) (m : L1Manager)
    → IsValid m
    → Distinct key_dec keys
    → All (λ k. is_writing (view m k) ≡ true) keys
    → Does (finishes_write_and_reserves_read keys) m
unfolding call
hand_over-Does keys m valid distinct writing =
    let (m', returned, done) =
      finish_write_and_reserve_read-Finishes m keys valid distinct
        (IsPresent-writing m keys writing) in
    rw returned (
      refl,
      seen-At keys (map_entry (λ e. hold (unlock e))) (on_lock (λ l. start_read (end_write l))) m m'
          done.changed (λ j here. hand_over_seen (lookup key_dec j m.entries)),
    )

pub read-Does :
    (keys : List ChunkKey) (m : L1Manager)
    → All (λ k. is_free (view m k) ≡ true) keys
    → Does (reads keys) m
unfolding call
read-Does keys m free =
    let (objs, returned) = read_returns keys m free in rw returned (refl, λ j. refl)

pub promote-Does : (keys : List ChunkKey) (m : L1Manager) → Does (promotes keys) m
unfolding call
promote-Does keys m = (
  refl,
  seen-At keys (map_entry make_resident) (on_lock (λ l. record l { temporary = false })) m
      (promote keys m) (promote_lem keys m) (λ j here. resident_seen (lookup key_dec j m.entries)),
)
