-- ===== src/L1/Manager/Read.antt =====
-- The read path of mini_llmcache/l1/manager.py: `reserve_read`, `reserve_read_prefix` and `read`.
use mini_llmcache.Base.{
  ℕ, zero, suc, ◌≡◌, refl, List, [], ◌∷◌, All, arith, Option, none, some, true, false, ok, elem,
  Distinct, length, take, get_elem?, if◌then◌else◌, Option-cases, Bool-cases, inl, inr, >>=-ok,
  for_each, pure, ◌≤◌,
}
use mini_llmcache.Base.Dict.{Dict, lookup, insert, lookup-insert, insert-IsDict}
use mini_llmcache.Protocol.{ChunkKey, key_dec}
use mini_llmcache.L1.Memory.{MemoryObj}
use mini_llmcache.L1.Manager.{
  Entry, L1Manager, Reserved, can_read, readable, hold, alter, prefix_hits, reserve_read_prefix,
  take_hold, reserve_read_loop, reserve_read,
}
use mini_llmcache.L1.Manager.Valid.{IsValid, objs-insert_same}
use mini_llmcache.L1.Manager.Alter.{IsPresent, altered_all, for_each-alter}
use mini_llmcache.L1.Manager.Write.{Finishes, altered_all-Finishes}

abbrev pub IsReadable : Dict ChunkKey Entry → ChunkKey → Type 0
IsReadable d key = can_read (lookup key_dec key d) ≡ true

-- Every key before the hit count can be read, and the next one cannot.
prefix_hits_exact :
    (keys : List ChunkKey) (d : Dict ChunkKey Entry)
    → All (IsReadable d) (take (prefix_hits keys d) keys)
      × (prefix_hits keys d ≤ length keys)
      × ((key : ChunkKey)
          → get_elem? keys (prefix_hits keys d) ≡ some key
          → can_read (lookup key_dec key d) ≡ false)
unfolding prefix_hits
prefix_hits_exact [] d = (tt, omega arith, λ key h. cc)
prefix_hits_exact (k ∷ keys) d = elim (Bool-cases (can_read (lookup key_dec k d))) [
  | inl can ↦
      let rest = prefix_hits_exact keys d in
      rw (can, prefix_hits) ((can, rest.0), omega (arith, rest.1), rest.2)
  | inr cannot ↦ rw (cannot, prefix_hits) (tt, omega arith, λ key h. ground arith)
]

pub IsPresent-of_readable :
    (keys : List ChunkKey) (d : Dict ChunkKey Entry)
    → All (IsReadable d) keys
    → All (IsPresent d) keys
IsPresent-of_readable [] d h = tt
IsPresent-of_readable (k ∷ keys) d h = (ground arith, IsPresent-of_readable keys d h.1)

elem-take :
    (j : ChunkKey) (n : ℕ) (keys : List ChunkKey)
    → elem key_dec j keys ≡ false
    → elem key_dec j (take n keys) ≡ false
elem-take j zero keys h = refl
elem-take j (suc n) [] h = refl
elem-take j (suc n) (k ∷ keys) h = ground (arith, elem-take j n keys)

pub take-Distinct :
    (n : ℕ) (keys : List ChunkKey) → Distinct key_dec keys → Distinct key_dec (take n keys)
take-Distinct zero keys h = tt
take-Distinct (suc n) [] h = tt
take-Distinct (suc n) (k ∷ keys) h = (elem-take k n keys h.0, take-Distinct n keys h.1)

-- On a valid cache, `reserve_read_prefix` of distinct keys returns a number `n` such that the first
-- `n` keys can be read and the next one, if there is one, cannot; it takes one hold on exactly
-- these keys, the cache stays valid and the listeners hear nothing.
pub reserve_read_prefix-Finishes :
    (m : L1Manager) (keys : List ChunkKey)
    → IsValid m
    → Distinct key_dec keys
    → (n : ℕ) × (m' : L1Manager) × (reserve_read_prefix keys m ≡ (ok n, m'))
      × All (IsReadable m.entries) (take n keys)
      × (n ≤ length keys)
      × ((key : ChunkKey)
          → get_elem? keys n ≡ some key
          → can_read (lookup key_dec key m.entries) ≡ false)
      × Finishes hold m (take n keys) m.listeners m'
unfolding reserve_read_prefix
reserve_read_prefix-Finishes m keys valid distinct =
    let hit = prefix_hits keys m.entries in
    let (all, bound, next) = prefix_hits_exact keys m.entries in
    let present = IsPresent-of_readable (take hit keys) m.entries all in
    (
      hit,
      record m { entries = altered_all hold (take hit keys) m.entries },
      >>=-ok (for_each (alter hold) (take hit keys)) (λ _. pure hit) m
          (for_each-alter hold (take hit keys) m present),
      all,
      bound,
      next,
      altered_all-Finishes m (take hit keys) valid (take-Distinct hit keys distinct) present hold
          m.listeners (λ e. refl),
    )

-- The object that a read hold gives, if the entry can be read.
abbrev pub readable_obj : Option Entry → Option MemoryObj
readable_obj none = none
readable_obj (some e) = if readable e then some e.obj else none

abbrev pub hold_readable : Option Entry → Option Entry
hold_readable none = none
hold_readable (some e) = if readable e then some (hold e) else some e

take_hold_lem :
    (key j : ChunkKey) (d : Dict ChunkKey Entry)
    → ((take_hold key d).0 ≡ readable_obj (lookup key_dec key d))
      × (lookup key_dec j (take_hold key d).1 ≡ (
          if elem key_dec j (key ∷ [])
          then hold_readable (lookup key_dec j d)
          else lookup key_dec j d))
unfolding take_hold
take_hold_lem key j d = elim (Option-cases (lookup key_dec key d)) [
  | inl missing ↦ rw (missing, take_hold) (refl, ground arith)
  | inr (e, found) ↦
      rw (found, take_hold) (ground arith, ground (arith, lookup-insert key_dec j key (hold e) d))
]

-- What `reserve_read` answers for a key, and what it leaves of its entry.
pub reserve_read_loop_lem :
    (keys : List ChunkKey) (r : Reserved) (d : Dict ChunkKey Entry) (j : ChunkKey)
    → Distinct key_dec keys
    → (lookup key_dec j (reserve_read_loop keys r d).0 ≡ (
        if elem key_dec j keys
        then some (readable_obj (lookup key_dec j d))
        else lookup key_dec j r))
      × (lookup key_dec j (reserve_read_loop keys r d).1 ≡ (
          if elem key_dec j keys then hold_readable (lookup key_dec j d) else lookup key_dec j d))
unfolding reserve_read_loop
reserve_read_loop_lem [] r d j distinct = (refl, refl)
reserve_read_loop_lem (key ∷ keys) r d j distinct =
    let (obj, after) = take_hold_lem key j d in
    let ih =
      reserve_read_loop_lem keys (insert key_dec key (take_hold key d).0 r) (take_hold key d).1 j
        distinct.1 in
    elim (key_dec j key) [
      | yes here ↦ (
        ground (arith, ih, after, obj, lookup-insert key_dec j key (take_hold key d).0 r),
        ground (arith, ih, after),
      )
      | no there ↦ (
        ground (arith, ih, after, lookup-insert key_dec j key (take_hold key d).0 r),
        ground (arith, ih, after),
      )
    ]

take_hold_locked :
    (key : ChunkKey) (d : Dict ChunkKey Entry)
    → can_read (lookup key_dec key d) ≡ false
    → take_hold key d ≡ (none, d)
unfolding take_hold
take_hold_locked key d h = ground arith

take_hold_free :
    (key : ChunkKey) (e : Entry) (d : Dict ChunkKey Entry)
    → lookup key_dec key d ≡ some e
    → readable e ≡ true
    → take_hold key d ≡ (some e.obj, insert key_dec key (hold e) d)
unfolding take_hold
take_hold_free key e d found h = ground arith

take_hold-IsValid :
    (key : ChunkKey) (m : L1Manager)
    → IsValid m
    → IsValid (record m { entries = (take_hold key m.entries).1 })
take_hold-IsValid key m valid = elim (Bool-cases (can_read (lookup key_dec key m.entries))) [
  | inl can ↦
      let (e, found, free) = found_readable (lookup key_dec key m.entries) can in
      rw (take_hold_free key e m.entries found free) (record {
        pool = rw (objs-insert_same key m.entries e (hold e) found refl) valid.pool;
        dict = insert-IsDict key_dec key (hold e) m.entries valid.dict;
      })
  | inr cannot ↦ rw (take_hold_locked key m.entries cannot) valid
]
  where
    found_readable :
        (o : Option Entry) → can_read o ≡ true → (e : Entry) × (o ≡ some e) × (readable e ≡ true)
    found_readable none h = cc
    found_readable (some e) h = (e, refl, h)

reserve_read_loop-IsValid :
    (keys : List ChunkKey) (r : Reserved) (m : L1Manager)
    → IsValid m
    → IsValid (record m { entries = (reserve_read_loop keys r m.entries).1 })
unfolding reserve_read_loop
reserve_read_loop-IsValid [] r m valid = valid
reserve_read_loop-IsValid (key ∷ keys) r m valid =
    reserve_read_loop-IsValid keys (insert key_dec key (take_hold key m.entries).0 r)
      (record m { entries = (take_hold key m.entries).1 }) (take_hold-IsValid key m valid)

pub reserve_read-IsValid :
    (keys : List ChunkKey) (m : L1Manager) → IsValid m → IsValid (reserve_read keys m).1
unfolding reserve_read
reserve_read-IsValid keys m valid = reserve_read_loop-IsValid keys [] m valid

-- On a valid cache, `reserve_read` of distinct keys answers with the object of each key that can be
-- read and with `None` for the others, takes a hold on exactly the keys that it answers with an
-- object, and keeps the cache valid.
pub reserve_read_lem :
    (keys : List ChunkKey) (m : L1Manager)
    → IsValid m
    → Distinct key_dec keys
    → let (r, m') = reserve_read keys m in
      IsValid m'
      × ((j : ChunkKey)
          → (lookup key_dec j r ≡ (
              if elem key_dec j keys
              then some (readable_obj (lookup key_dec j m.entries))
              else none))
            × (lookup key_dec j m'.entries ≡ (
                if elem key_dec j keys
                then hold_readable (lookup key_dec j m.entries)
                else lookup key_dec j m.entries)))
unfolding reserve_read
reserve_read_lem keys m valid distinct = (
  reserve_read_loop-IsValid keys [] m valid,
  λ j. reserve_read_loop_lem keys [] m.entries j distinct,
)
