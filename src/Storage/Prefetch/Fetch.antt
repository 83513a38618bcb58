-- ===== src/Storage/Prefetch/Fetch.antt =====
-- `load_from_l2s` of mini_llmcache/l1/prefetch_controller.py, with adapters whose loads return.
use mini_llmcache.Base.{
  ℕ, zero, suc, ◌+◌, ◌≡◌, refl, ap, sym, ◌∙◌, List, [], ◌∷◌, All, length, inl, inr, Bool-cases, ok,
  Action, >>=-ok, drop, ◌||◌, ◌==◌, leb, ltb,
}
use mini_llmcache.Protocol.{ChunkKey}
use mini_llmcache.L1.Memory.{MemoryObj}
use mini_llmcache.L2.{Adapter}
use mini_llmcache.L2
use mini_llmcache.L2.Loads.{LoadsBack}
use mini_llmcache.L2.Writes.{load-Writes}
use mini_llmcache.Storage.{Storage}
use mini_llmcache.Storage.Prefetch.{insert_by_hits, by_hits, on_pool, load_loop, load_from_l2s}

-- The storage with other bytes in its pool.
abbrev pub with_bytes : (ℕ → ℕ) → Storage → Storage
with_bytes bytes s = record s {
  l1 = record s.l1 { allocator = record s.l1.allocator { pool = bytes } };
}

-- A load returns, and changes the bytes of the pool only.
abbrev Fetches : Action Storage ℕ → Storage → Type 0
Fetches f s = (count : ℕ) × (bytes : ℕ → ℕ) × (f s ≡ (ok count, with_bytes bytes s))

on_pool-Fetches :
    (n : ℕ) (l2 : Adapter) (keys : List ChunkKey) (objs : List MemoryObj) (s : Storage)
    → LoadsBack n l2
    → All (λ (o : MemoryObj). o.nbytes ≡ n) objs
    → Fetches (on_pool (L2.load keys objs l2)) s
on_pool-Fetches n l2 keys objs s loads sized =
    let (count, a', returned) = loads keys objs s.l1.allocator sized in
    let (bytes, same) =
      load-Writes keys objs l2 s.l1.allocator s.l1.allocator (s.l1.allocator.pool, refl) in
    (
      count,
      bytes,
      ap (λ p. (p.0, record s { l1 = record s.l1 { allocator = p.1 } })) returned
          ∙ ap (λ a. (ok count, record s { l1 = record s.l1 { allocator = a } }))
              (sym (ap (λ p. p.1) returned) ∙ same),
    )

drop-All :
    (n k : ℕ) (objs : List MemoryObj)
    → All (λ (o : MemoryObj). o.nbytes ≡ n) objs
    → All (λ (o : MemoryObj). o.nbytes ≡ n) (drop k objs)
drop-All n zero objs h = h
drop-All n (suc k) [] h = tt
drop-All n (suc k) (o ∷ objs) h = drop-All n k objs h.1

insert_by_hits-All :
    (n : ℕ) (p : ℕ × Adapter) (qs : List (ℕ × Adapter))
    → LoadsBack n p.1
    → All (λ q. LoadsBack n q.1) qs
    → All (λ q. LoadsBack n q.1) (insert_by_hits p qs)
unfolding insert_by_hits
insert_by_hits-All n p [] h hs = (h, tt)
insert_by_hits-All n p (q ∷ qs) h hs = elim (Bool-cases (ltb p.0 q.0)) [
  | inl after ↦ rw (after, insert_by_hits) (hs.0, insert_by_hits-All n p qs h hs.1)
  | inr before ↦ rw (before, insert_by_hits) (h, hs)
]

by_hits-All :
    (n : ℕ) (hs : List ℕ) (l2s : List Adapter)
    → All (LoadsBack n) l2s
    → All (λ q. LoadsBack n q.1) (by_hits hs l2s)
unfolding by_hits
by_hits-All n [] l2s h = tt
by_hits-All n (x ∷ hs) [] h = tt
by_hits-All n (x ∷ hs) (l2 ∷ l2s) h =
    insert_by_hits-All n (x, l2) (by_hits hs l2s) h.0 (by_hits-All n hs l2s h.1)

load_loop-Fetches :
    (n : ℕ) (l2s : List (ℕ × Adapter)) (keys : List ChunkKey) (objs : List MemoryObj) (loaded : ℕ)
    (s : Storage)
    → All (λ q. LoadsBack n q.1) l2s
    → All (λ (o : MemoryObj). o.nbytes ≡ n) objs
    → Fetches (load_loop l2s keys objs loaded) s
unfolding load_loop
load_loop-Fetches n [] keys objs loaded s loads sized = (loaded, s.l1.allocator.pool, refl)
load_loop-Fetches n ((hits, l2) ∷ l2s) keys objs loaded s loads sized =
    elim (Bool-cases ((loaded == length keys) || leb hits loaded)) [
      | inl done ↦ (loaded, s.l1.allocator.pool, rw (done, load_loop) refl)
      | inr more ↦
          let task = L2.load (drop loaded keys) (drop loaded objs) l2 in
          let (count, bytes, returned) =
            on_pool-Fetches n l2 (drop loaded keys) (drop loaded objs) s loads.0
              (drop-All n loaded objs sized) in
          let (total, bytes', rest) =
            load_loop-Fetches n l2s keys objs (loaded + count) (with_bytes bytes s) loads.1 sized in
          (
            total,
            bytes',
            rw (more, load_loop)
                (>>=-ok (on_pool task) (λ c. load_loop l2s keys objs (loaded + c)) s returned
                  ∙ rest),
          )
    ]

pub load_from_l2s-Fetches :
    (n : ℕ) (keys : List ChunkKey) (objs : List MemoryObj) (hits : List ℕ) (s : Storage)
    → All (LoadsBack n) s.l2s
    → All (λ (o : MemoryObj). o.nbytes ≡ n) objs
    → (count : ℕ) × (bytes : ℕ → ℕ) × (load_from_l2s keys objs hits s
        ≡ (ok count, with_bytes bytes s))
unfolding load_from_l2s
load_from_l2s-Fetches n [] objs hits s loads sized = (0, s.l1.allocator.pool, refl)
load_from_l2s-Fetches n (key ∷ keys) objs hits s loads sized =
    load_loop-Fetches n (by_hits hits s.l2s) (key ∷ keys) objs 0 s (by_hits-All n hits s.l2s loads)
      sized
