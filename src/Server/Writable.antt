-- ===== src/Server/Writable.antt =====
-- The chunks that the handler `store` of mini_llmcache/server.py picks.
use mini_llmcache.Base.{
  ℕ, zero, suc, ◌≡◌, refl, ap, sym, subst, ◌∙◌, List, [], ◌∷◌, All, none, some, true, false, arith,
  elem, Distinct, length, map, ◌⊎◌, inl, inr, get_elem?, some_inj,
}
use mini_llmcache.Base.Dict.{Dict, lookup}
use mini_llmcache.Protocol.{Bytes, ChunkKey, key_dec}
use mini_llmcache.L1.Memory.{MemoryObj}
use mini_llmcache.L1.Manager.{Entry, Reserved}
use mini_llmcache.L1.Manager.Alter.{IsPresent}
use mini_llmcache.L1.Manager.Place.{fresh}
use mini_llmcache.Server.{writable}
use mini_llmcache.Server.Blobs.{Write, Fits}

abbrev pub keys_of : List Write → List ChunkKey
keys_of ws = map (λ w. w.0) ws

-- The two answers of `reserve_write` for a key of the call.
abbrev pub Answered : ℕ → ChunkKey → Reserved → Dict ChunkKey Entry → Type 0
Answered n key r d =
    (lookup key_dec key r ≡ some none)
    ⊎ ((obj : MemoryObj) × (obj.nbytes ≡ n)
        × (lookup key_dec key d ≡ some (fresh false obj))
        × (lookup key_dec key r ≡ some (some obj)))

pub elem-writable :
    (j : ChunkKey) (keys : List ChunkKey) (chunks : List Bytes) (r : Reserved)
    → elem key_dec j keys ≡ false
    → elem key_dec j (keys_of (writable keys chunks r)) ≡ false
unfolding writable
elem-writable j [] chunks r h = refl
elem-writable j (key ∷ keys) [] r h = refl
elem-writable j (key ∷ keys) (blob ∷ chunks) r h = ground (arith, elem-writable j keys chunks r)

-- A key that got no object is not written.
pub unreserved :
    (j : ChunkKey) (keys : List ChunkKey) (chunks : List Bytes) (r : Reserved)
    → lookup key_dec j r ≡ some none
    → elem key_dec j (keys_of (writable keys chunks r)) ≡ false
unfolding writable
unreserved j [] chunks r h = refl
unreserved j (key ∷ keys) [] r h = refl
unreserved j (key ∷ keys) (blob ∷ chunks) r h = ground (arith, unreserved j keys chunks r)

skip_lem :
    (key : ChunkKey) (keys : List ChunkKey) (blob : Bytes) (chunks : List Bytes) (r : Reserved)
    → lookup key_dec key r ≡ some none
    → writable (key ∷ keys) (blob ∷ chunks) r ≡ writable keys chunks r
unfolding writable
skip_lem key keys blob chunks r h = rw (h, writable) refl

take_lem :
    (key : ChunkKey) (keys : List ChunkKey) (blob : Bytes) (chunks : List Bytes) (r : Reserved)
    (obj : MemoryObj)
    → lookup key_dec key r ≡ some (some obj)
    → writable (key ∷ keys) (blob ∷ chunks) r ≡ (key, obj, blob) ∷ writable keys chunks r
unfolding writable
take_lem key keys blob chunks r obj h = rw (h, writable) refl

-- Everything that is to be written fits an entry of its own.
pub writable-Fits :
    (n : ℕ) (keys : List ChunkKey) (chunks : List Bytes) (r : Reserved) (d : Dict ChunkKey Entry)
    → Distinct key_dec keys
    → All (λ k. Answered n k r d) keys
    → All (λ b. length b ≡ n) chunks
    → Fits d (writable keys chunks r)
unfolding writable
writable-Fits n [] chunks r d distinct answered sized = tt
writable-Fits n (key ∷ keys) [] r d distinct answered sized = tt
writable-Fits n (key ∷ keys) (blob ∷ chunks) r d distinct (inl nothing, answered) sized =
    subst (Fits d) (sym (skip_lem key keys blob chunks r nothing))
      (writable-Fits n keys chunks r d distinct.1 answered sized.1)
writable-Fits n (key ∷ keys) (blob ∷ chunks) r d distinct (inr (obj, size, found, got), answered)
      sized =
    subst (Fits d) (sym (take_lem key keys blob chunks r obj got)) (
      fresh false obj,
      found,
      refl,
      sized.0 ∙ sym size,
      elem-writable key keys chunks r distinct.0,
      writable-Fits n keys chunks r d distinct.1 answered sized.1,
    )

-- The chunk at the place of a key is the one that is written for it.
pub writable_at :
    (P : Write → Type 0) (n : ℕ) (key : ChunkKey) (blob : Bytes) (obj : MemoryObj) (i : ℕ)
    (keys : List ChunkKey) (chunks : List Bytes) (r : Reserved) (d : Dict ChunkKey Entry)
    → lookup key_dec key r ≡ some (some obj)
    → get_elem? keys i ≡ some key
    → get_elem? chunks i ≡ some blob
    → All (λ k. Answered n k r d) keys
    → All P (writable keys chunks r)
    → P (key, obj, blob)
writable_at P n key blob obj i [] chunks r d got at₁ at₂ answered h = absurd (cc)
writable_at P n key blob obj i (k ∷ keys) [] r d got at₁ at₂ answered h = absurd (cc)
writable_at P n key blob obj zero (k ∷ keys) (b ∷ chunks) r d got at₁ at₂ answered h =
    let same : k ≡ key = some_inj at₁ in
    let brings : b ≡ blob = some_inj at₂ in
    let taken = take_lem k keys b chunks r obj (ap (λ q. lookup key_dec q r) same ∙ got) in
    subst (λ q. P (q, obj, blob)) same (subst (λ q. P (k, obj, q)) brings (subst (All P) taken h).0)
writable_at P n key blob obj (suc i) (k ∷ keys) (b ∷ chunks) r d got at₁ at₂ (inl skip, answered)
      h =
    writable_at P n key blob obj i keys chunks r d got at₁ at₂ answered
      (subst (All P) (skip_lem k keys b chunks r skip) h)
writable_at P n key blob obj (suc i) (k ∷ keys) (b ∷ chunks) r d got at₁ at₂
      (inr (o, size, found, took), answered) h =
    writable_at P n key blob obj i keys chunks r d got at₁ at₂ answered
      (subst (All P) (take_lem k keys b chunks r o took) h).1

pub Fits-Distinct :
    (d : Dict ChunkKey Entry) (ws : List Write) → Fits d ws → Distinct key_dec (keys_of ws)
Fits-Distinct d [] h = tt
Fits-Distinct d (w ∷ ws) (e, found, same, fits, once, rest) = (once, Fits-Distinct d ws rest)

pub Fits-IsPresent :
    (d : Dict ChunkKey Entry) (ws : List Write) → Fits d ws → All (IsPresent d) (keys_of ws)
Fits-IsPresent d [] h = tt
Fits-IsPresent d (w ∷ ws) (e, found, same, fits, once, rest) =
    (ground (arith, found), Fits-IsPresent d ws rest)

pub elem_at :
    (key : ChunkKey) (i : ℕ) (keys : List ChunkKey)
    → get_elem? keys i ≡ some key
    → elem key_dec key keys ≡ true
elem_at key i [] h = absurd (cc)
elem_at key zero (k ∷ keys) h = let same : k ≡ key = some_inj h in ground (arith, same)
elem_at key (suc i) (k ∷ keys) h = ground (arith, elem_at key i keys h)

pub elem-keys_of :
    (vs ws : List Write)
    → ((k : ChunkKey) → elem key_dec k (keys_of vs) ≡ true → elem key_dec k (keys_of ws) ≡ true)
    → All (λ w. elem key_dec w.0 (keys_of ws) ≡ true) vs
elem-keys_of [] ws h = tt
elem-keys_of (v ∷ vs) ws h =
    (h v.0 (ground arith), elem-keys_of vs ws (λ j g. h j (ground (arith, g))))
