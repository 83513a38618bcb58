-- ===== src/L1/Manager/Place.antt =====
-- The loop of `reserve_write` (mini_llmcache/l1/manager.py) over the missing keys.
use mini_llmcache.Base.{
  ℕ, ◌≡◌, refl, List, [], ◌∷◌, ◌++◌, All, All-append, All-append_iff, arith, none, some, true,
  false, not, ◌&&◌, Bool, elem, Distinct, length, if◌then◌else◌,
}
use mini_llmcache.Base.Int.{pos}
use mini_llmcache.Base.Dict.{Dict, lookup, insert, contains, IsDict, lookup-insert, insert-IsDict}
use mini_llmcache.Protocol.{ChunkKey, key_dec}
use mini_llmcache.L1.Memory.{MemoryObj}
use mini_llmcache.L1.Memory.Segments.{cover_objs-append, total-append}
use mini_llmcache.L1.Memory.Allocate.{IsSized}
use mini_llmcache.L1.Manager.{Entry, Reserved, from_keys, missing_keys, place}
use mini_llmcache.L1.Manager.Valid.{objs, SameObjs, insert-SameObjs}

-- A chunk that is being written.
abbrev pub fresh : Bool → MemoryObj → Entry
fresh temp obj = record { obj = obj; write_locked = true; read_count = pos 0; is_temporary = temp }

pub lookup-from_keys :
    (j : ChunkKey) (keys : List ChunkKey) (r : Reserved)
    → lookup key_dec j (from_keys keys r)
      ≡ (if elem key_dec j keys then some none else lookup key_dec j r)
unfolding from_keys
lookup-from_keys j [] r = refl
lookup-from_keys j (key ∷ keys) r =
    ground (
      arith,
      lookup-from_keys j keys (insert key_dec key none r),
      lookup-insert key_dec j key none r,
    )

pub elem-missing_keys :
    (j : ChunkKey) (keys : List ChunkKey) (d : Dict ChunkKey Entry)
    → elem key_dec j (missing_keys keys d) ≡ (elem key_dec j keys && not (contains key_dec j d))
unfolding missing_keys
elem-missing_keys j [] d = refl
elem-missing_keys j (key ∷ keys) d = ground (arith, elem-missing_keys j keys d)

pub missing_keys-Distinct :
    (keys : List ChunkKey) (d : Dict ChunkKey Entry)
    → Distinct key_dec keys
    → Distinct key_dec (missing_keys keys d)
unfolding missing_keys
missing_keys-Distinct [] d h = tt
missing_keys-Distinct (key ∷ keys) d h =
    ground (arith, elem-missing_keys key keys d, missing_keys-Distinct keys d h.1)

-- A key that the loop does not place stays as it was.
pub lookup-place_ne :
    (temp : Bool) (j : ChunkKey) (keys : List ChunkKey) (ms : List MemoryObj)
    (d : Dict ChunkKey Entry) (r : Reserved)
    → elem key_dec j keys ≡ false
    → (lookup key_dec j (place temp keys ms (d, r)).0 ≡ lookup key_dec j d)
      × (lookup key_dec j (place temp keys ms (d, r)).1 ≡ lookup key_dec j r)
unfolding place
lookup-place_ne temp j [] ms d r h = (refl, refl)
lookup-place_ne temp j (key ∷ keys) [] d r h = (refl, refl)
lookup-place_ne temp j (key ∷ keys) (obj ∷ ms) d r h = ground (
  arith,
  lookup-place_ne temp j keys ms (insert key_dec key (fresh temp obj) d)
      (insert key_dec key (some obj) r),
  lookup-insert key_dec j key (fresh temp obj) d,
  lookup-insert key_dec j key (some obj) r,
)

-- A key that the loop places has a fresh entry, and the result has its object.
pub lookup-place :
    (temp : Bool) (n : ℕ) (j : ChunkKey) (keys : List ChunkKey) (ms : List MemoryObj)
    (d : Dict ChunkKey Entry) (r : Reserved)
    → Distinct key_dec keys
    → length ms ≡ length keys
    → All (λ m. m.nbytes ≡ n) ms
    → elem key_dec j keys ≡ true
    → (obj : MemoryObj) × (obj.nbytes ≡ n)
      × (lookup key_dec j (place temp keys ms (d, r)).0 ≡ some (fresh temp obj))
      × (lookup key_dec j (place temp keys ms (d, r)).1 ≡ some (some obj))
unfolding place
lookup-place temp n j [] ms d r distinct e sized h = cc
lookup-place temp n j (key ∷ keys) [] d r distinct e sized h = absurd (omega arith)
lookup-place temp n j (key ∷ keys) (obj ∷ ms) d r distinct e sized h = elim (key_dec j key) [
  | yes here ↦
      let ne =
        lookup-place_ne temp j keys ms (insert key_dec key (fresh temp obj) d)
          (insert key_dec key (some obj) r) in
      (
        obj,
        sized.0,
        ground (arith, ne, lookup-insert key_dec j key (fresh temp obj) d),
        ground (arith, ne, lookup-insert key_dec j key (some obj) r),
      )
  | no there ↦
      lookup-place temp n j keys ms (insert key_dec key (fresh temp obj) d)
        (insert key_dec key (some obj) r) distinct.1 (omega arith) sized.1 (ground arith)
]

-- The placed objects join those of the entries.
pub place-SameObjs :
    (temp : Bool) (keys : List ChunkKey) (ms : List MemoryObj) (d : Dict ChunkKey Entry)
    (r : Reserved)
    → Distinct key_dec keys
    → length ms ≡ length keys
    → All (λ k. lookup key_dec k d ≡ none) keys
    → SameObjs (ms ++ objs d) (objs (place temp keys ms (d, r)).0)
unfolding place
place-SameObjs temp [] [] d r distinct e h = record {
  cover = λ x. refl;
  bytes = refl;
  sized = λ f p. p;
}
place-SameObjs temp [] (obj ∷ ms) d r distinct e h = absurd (omega arith)
place-SameObjs temp (key ∷ keys) [] d r distinct e h = absurd (omega arith)
place-SameObjs temp (key ∷ keys) (obj ∷ ms) d r distinct e h =
    let d' = insert key_dec key (fresh temp obj) d in
    let new = insert-SameObjs key (fresh temp obj) d h.0 in
    let rest =
      place-SameObjs temp keys ms d' (insert key_dec key (some obj) r) distinct.1 (omega arith)
        (still_absent keys distinct.0 h.1) in
    record {
      cover = λ x. omega (
        arith,
        rest.cover x,
        new.cover x,
        cover_objs-append x ms (objs d),
        cover_objs-append x ms (objs d'),
      );
      bytes =
          omega (arith, rest.bytes, new.bytes, total-append ms (objs d), total-append ms (objs d'));
      sized = λ f p.
          let (pm, pd) = All-append_iff (IsSized f) ms (objs d) p.1 in
          rest.sized f (All-append (IsSized f) ms (objs d') pm (new.sized f (p.0, pd)));
    }
  where
    still_absent :
        (ks : List ChunkKey)
        → elem key_dec key ks ≡ false
        → All (λ k. lookup key_dec k d ≡ none) ks
        → All (λ k. lookup key_dec k (insert key_dec key (fresh temp obj) d) ≡ none) ks
    still_absent [] q p = tt
    still_absent (k ∷ ks) q p = (
      ground (arith, lookup-insert key_dec k key (fresh temp obj) d),
      still_absent ks (ground arith) p.1,
    )

pub place-IsDict :
    (temp : Bool) (keys : List ChunkKey) (ms : List MemoryObj) (d : Dict ChunkKey Entry)
    (r : Reserved)
    → IsDict key_dec d
    → IsDict key_dec (place temp keys ms (d, r)).0
unfolding place
place-IsDict temp [] ms d r h = h
place-IsDict temp (key ∷ keys) [] d r h = h
place-IsDict temp (key ∷ keys) (obj ∷ ms) d r h =
    place-IsDict temp keys ms (insert key_dec key (fresh temp obj) d)
      (insert key_dec key (some obj) r) (insert-IsDict key_dec key (fresh temp obj) d h)
