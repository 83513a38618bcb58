-- ===== src/Storage/Prefetch/Hands.antt =====
-- What a round of `prefetch` (mini_llmcache/l1/prefetch_controller.py) leaves of the entries and the
-- bytes, once `reserve_load` and `load_from_l2s` have come back.
use mini_llmcache.Base.{
  ℕ, zero, suc, ◌≡◌, refl, ap, ◌∙◌, List, [], ◌∷◌, ◌++◌, take-append-drop, sym, none, some, true,
  false, arith, elem, inl, inr, Bool-cases, take, drop, get_elem?, ◌&&◌, if◌then◌else◌,
}
use mathlib.Core.List.{append_assoc}
use mini_llmcache.Base.Dict.{lookup}
use mini_llmcache.Base.Cuts.{elem-cut, elem-of_drop}
use mini_llmcache.Protocol.{ChunkKey, key_dec}
use mini_llmcache.L1.Memory.{MemoryObj}
use mini_llmcache.L1.Manager.{L1Manager, hold, unlock}
use mini_llmcache.L1.Manager.Alter.{map_entry}
use mini_llmcache.L1.Manager.Delete.{doomed}
use mini_llmcache.L1.Manager.Place.{fresh}
use mini_llmcache.Storage.{Storage}
use mini_llmcache.Storage.Prefetch.Load.{ReservesLoad}

-- The storage `s'` after a round, where `p` is what `reserve_load` came to in `s` and `count` is the
-- number of its keys that were loaded: the loaded keys were missing, and each is now a temporary
-- entry with one hold and no write lock on the object that the loads were given at its place; every
-- other key, also one that was reserved and not loaded, stands as in `s`; and the bytes are those
-- that the loads left.
pub record HandsOver (p : (List ChunkKey × List MemoryObj) × Storage) (count : ℕ) (bytes : ℕ → ℕ)
    (s s' : Storage) : Type 0 where
  pub loaded :
      (i : ℕ) (j : ChunkKey)
      → get_elem? (take count p.0.0) i ≡ some j
      → (lookup key_dec j s.l1.entries ≡ none)
        × ((obj : MemoryObj) × (get_elem? p.0.1 i ≡ some obj)
            × (lookup key_dec j s'.l1.entries ≡ some (hold (unlock (fresh true obj)))))
  pub others :
      (j : ChunkKey)
      → elem key_dec j (take count p.0.0) ≡ false
      → lookup key_dec j s'.l1.entries ≡ lookup key_dec j s.l1.entries
  pub pool : s'.l1.allocator.pool ≡ bytes

elem-of_get_elem? :
    (i : ℕ) (j : ChunkKey) (keys : List ChunkKey)
    → get_elem? keys i ≡ some j
    → elem key_dec j keys ≡ true
elem-of_get_elem? i j [] h = absurd (cc)
elem-of_get_elem? zero j (k ∷ keys) h = ground (arith, h)
elem-of_get_elem? (suc i) j (k ∷ keys) h = ground (arith, elem-of_get_elem? i j keys h)

get_elem?-of_take :
    (n i : ℕ) (j : ChunkKey) (keys : List ChunkKey)
    → get_elem? (take n keys) i ≡ some j
    → get_elem? keys i ≡ some j
get_elem?-of_take zero i j keys h = absurd (cc)
get_elem?-of_take (suc n) i j [] h = absurd (cc)
get_elem?-of_take (suc n) zero j (k ∷ keys) h = h
get_elem?-of_take (suc n) (suc i) j (k ∷ keys) h = get_elem?-of_take n i j keys h

elem-drop_of_cut :
    (k : ChunkKey) (n : ℕ) (keys : List ChunkKey)
    → elem key_dec k keys ≡ true
    → elem key_dec k (take n keys) ≡ false
    → elem key_dec k (drop n keys) ≡ true
elem-drop_of_cut k zero keys at out = at
elem-drop_of_cut k (suc n) [] at out = absurd (cc)
elem-drop_of_cut k (suc n) (j ∷ keys) at out =
    elem-drop_of_cut k n keys (ground (arith, at, out)) (ground (arith, out))

-- The first keys, and behind them the beginning of a beginning of the others, are a prefix.
pub held_front :
    (hits wanted count : ℕ) (keys reserved : List ChunkKey)
    → (rest : List ChunkKey) × (reserved ++ rest ≡ take wanted (drop hits keys))
    → (rest : List ChunkKey) × ((take hits keys ++ take count reserved) ++ rest ≡ keys)
held_front hits wanted count keys reserved (rest, front) =
    let tail = rest ++ drop wanted (drop hits keys) in
    let behind : take count reserved ++ (drop count reserved ++ tail) ≡ drop hits keys =
      sym (append_assoc (take count reserved) (drop count reserved) tail)
      ∙ ap (λ ks. ks ++ tail) (take-append-drop count reserved)
      ∙ sym (append_assoc reserved rest (drop wanted (drop hits keys)))
      ∙ ap (λ ks. ks ++ drop wanted (drop hits keys)) front
      ∙ take-append-drop wanted (drop hits keys) in
    (
      drop count reserved ++ tail,
      append_assoc (take hits keys) (take count reserved) (drop count reserved ++ tail)
          ∙ ap (λ ks. take hits keys ++ ks) behind
          ∙ take-append-drop hits keys,
    )

-- `finish_write_and_reserve_read` of the loaded keys, then the forced `delete` of the others.
module _ (n count : ℕ) (wanted : List ChunkKey) (s s' : Storage)
    (p : (List ChunkKey × List MemoryObj) × Storage) (did : ReservesLoad n wanted s p)
    (m₄ : L1Manager)
    (finished : (k : ChunkKey)
      → lookup key_dec k m₄.entries ≡ (
          if elem key_dec k (take count p.0.0)
          then map_entry (λ e. hold (unlock e)) (lookup key_dec k p.1.l1.entries)
          else lookup key_dec k p.1.l1.entries))
    (deleted : (k : ChunkKey)
      → lookup key_dec k s'.l1.entries ≡ (
          if elem key_dec k (drop count p.0.0) && doomed true (lookup key_dec k m₄.entries)
          then none
          else lookup key_dec k m₄.entries)) where
  loaded_lem :
      (k : ChunkKey)
      → elem key_dec k (take count p.0.0) ≡ true
      → lookup key_dec k s'.l1.entries
        ≡ map_entry (λ e. hold (unlock e)) (lookup key_dec k p.1.l1.entries)
  loaded_lem k at =
      let stays : elem key_dec k (drop count p.0.0) ≡ false =
        elim (Bool-cases (elem key_dec k (drop count p.0.0))) [
          | inl both ↦ absurd (
              let out = elem-cut key_dec k count p.0.0 did.distinct both in ground (arith, out, at))
          | inr only ↦ only
        ] in
      rw (deleted k, stays, finished k, at) refl

  others_lem :
      (k : ChunkKey)
      → elem key_dec k (take count p.0.0) ≡ false
      → lookup key_dec k s'.l1.entries ≡ lookup key_dec k s.l1.entries
  others_lem k out = elim (Bool-cases (elem key_dec k p.0.0)) [
    | inl reserved ↦
        let (missing, (obj, placed)) = did.placed k reserved in
        rw
          (deleted k, elem-drop_of_cut k count p.0.0 reserved out, finished k, out, placed, missing)
          refl
    | inr other ↦
        let stays : elem key_dec k (drop count p.0.0) ≡ false =
          elim (Bool-cases (elem key_dec k (drop count p.0.0))) [
            | inl dropped ↦ absurd (
                let there = elem-of_drop key_dec k count p.0.0 dropped in
                ground (arith, there, other))
            | inr only ↦ only
          ] in
        rw (deleted k, stays, finished k, out) (did.kept k other)
  ]

  pub hands_over : (bytes : ℕ → ℕ) → s'.l1.allocator.pool ≡ bytes → HandsOver p count bytes s s'
  hands_over bytes pool = record {
    loaded = λ i j at.
        let whole = get_elem?-of_take count i j p.0.0 at in
        let taken = elem-of_get_elem? i j (take count p.0.0) at in
        let (obj, given, here) = did.given i j whole in
        (
          (did.placed j (elem-of_get_elem? i j p.0.0 whole)).0,
          (obj, given, loaded_lem j taken ∙ ap (map_entry (λ e. hold (unlock e))) here),
        );
    others = others_lem;
    pool = pool;
  }
