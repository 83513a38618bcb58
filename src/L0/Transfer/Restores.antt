-- ===== src/L0/Transfer/Restores.antt =====
-- One round of `from_host` of mini_llmcache/l0/transfer.py, and what `to_host` then gathers.
use mini_llmcache.Base.{
  ℕ, zero, suc, ◌+◌, ◌-◌, ◌*◌, ◌≤◌, ◌≡◌, refl, ap, ap₂, sym, ◌∙◌, List, [], ◌∷◌, ◌++◌, some, ◌==◌,
  arith, length, length-slice, slice, ok, take, drop, elem, Distinct, true, false, ℕ_discrete, Bool,
  take-append-drop, if◌then◌else◌,
}
use mini_llmcache.Protocol.{Bytes}
use mini_llmcache.L0.Transfer.{
  KvTransfer, chunk_nbytes, gather, repeat, fitted, scatter, scatter_chunk,
}

drop-nil : (n : ℕ) → drop {A = ℕ} n [] ≡ []
drop-nil zero = refl
drop-nil (suc n) = refl

drop-drop : (m n : ℕ) (xs : List ℕ) → drop m (drop n xs) ≡ drop (n + m) xs
drop-drop m zero xs = ap (λ k. drop k xs) (omega arith)
drop-drop m (suc n) [] = drop-nil m ∙ sym (drop-nil (suc n + m))
drop-drop m (suc n) (x ∷ xs) =
    let same : suc (n + m) ≡ suc n + m = omega arith in
    drop-drop m n xs ∙ ap (λ (k : ℕ). drop k (x ∷ xs)) same

drop-length : (n : ℕ) (xs : List ℕ) → length xs ≡ n → drop n xs ≡ []
drop-length zero [] h = refl
drop-length zero (x ∷ xs) h = absurd (omega (arith, h))
drop-length (suc n) [] h = refl
drop-length (suc n) (x ∷ xs) h = drop-length n xs (omega (arith, h))

-- No block is in both lists.
abbrev pub AreApart : List ℕ → List ℕ → Type 0
AreApart ids js = (k : ℕ) → elem ℕ_discrete k ids ≡ true → elem ℕ_discrete k js ≡ false

module _ (Layer : Type 0) (select : Layer → List ℕ → Bytes) (copy : List ℕ → Bytes → Layer → Layer)
    (block_nbytes : ℕ)
    (select-copy : (ids : List ℕ) (bs : Bytes) (kv : Layer)
      → Distinct ℕ_discrete ids
      → length bs ≡ length ids * block_nbytes
      → select (copy ids bs kv) ids ≡ bs)
    (select-copy_apart : (ids js : List ℕ) (bs : Bytes) (kv : Layer)
      → AreApart ids js
      → select (copy ids bs kv) js ≡ select kv js) where
  -- A blob of the size of a buffer is copied as it is.
  fitted_lem :
      (n : ℕ) (blob : Bytes) → length blob ≡ n → fitted Layer select copy n blob ≡ some blob
  unfolding fitted
  fitted_lem n [] h = ground (arith, h)
  fitted_lem n (b ∷ []) h = ap (λ k. some (repeat Layer select copy k b)) (sym h)
  fitted_lem n (b ∷ c ∷ blob) h = ground (arith, h)

  -- What is scattered is gathered again, from the layer with this number on.
  pub gather-scatter :
      (ids : List ℕ) (bytes : Bytes) (n layer : ℕ) (layers : List Layer)
      → Distinct ℕ_discrete ids
      → n ≡ length ids * block_nbytes
      → length bytes ≡ (layer + length layers) * n
      → gather Layer select copy ids (scatter Layer select copy n 0 ids bytes layer layers)
        ≡ drop (layer * n) bytes
  unfolding gather scatter
  gather-scatter ids bytes n layer [] distinct size h =
      sym (drop-length (layer * n) bytes (omega (arith, h)))
  gather-scatter ids bytes n layer (kv ∷ layers) distinct size h =
      let a = layer * n in
      let seg = slice (a + 0) (suc layer * n) bytes in
      let front : seg ≡ take n (drop a bytes) =
        ap₂ (λ (k j : ℕ). take k (drop j bytes)) (omega arith) (omega arith) in
      let size' : length seg ≡ length ids * block_nbytes =
        omega (arith, length-slice (a + 0) (suc layer * n) bytes, h) ∙ size in
      let back : drop (suc layer * n) bytes ≡ drop n (drop a bytes) =
        sym (drop-drop n a bytes ∙ ap (λ (k : ℕ). drop k bytes) (omega arith)) in
      ap₂ (λ x y. x ++ y) (select-copy ids seg kv distinct size')
        (gather-scatter ids bytes n (suc layer) layers distinct size (omega (arith, h)))
      ∙ ap₂ (λ x y. x ++ y) front back
      ∙ take-append-drop n (drop a bytes)

  pub gather-scatter_apart :
      (ids js : List ℕ) (bytes : Bytes) (n skip layer : ℕ) (layers : List Layer)
      → AreApart ids js
      → gather Layer select copy js (scatter Layer select copy n skip ids bytes layer layers)
        ≡ gather Layer select copy js layers
  unfolding gather scatter
  gather-scatter_apart ids js bytes n skip layer [] apart = refl
  gather-scatter_apart ids js bytes n skip layer (kv ∷ layers) apart =
      ap₂ (λ x y. x ++ y) (select-copy_apart ids js _ kv apart)
        (gather-scatter_apart ids js bytes n skip (suc layer) layers apart)

  pub length-scatter :
      (ids : List ℕ) (bytes : Bytes) (n skip layer : ℕ) (layers : List Layer)
      → length (scatter Layer select copy n skip ids bytes layer layers) ≡ length layers
  unfolding scatter
  length-scatter ids bytes n skip layer [] = refl
  length-scatter ids bytes n skip layer (kv ∷ layers) =
      ap (λ (k : ℕ). suc k) (length-scatter ids bytes n skip (suc layer) layers)

  -- The blocks of one chunk, and those behind it.
  pub segment_lem :
      (i b c : ℕ) (ids : List ℕ) → c ≡ i * b → slice c (suc i * b) ids ≡ take b (drop (i * b) ids)
  segment_lem i b c ids same = ap₂ (λ (k j : ℕ). take k (drop j ids)) (omega (arith, same)) same

  pub behind_lem : (i b : ℕ) (ids : List ℕ) → drop (suc i * b) ids ≡ drop b (drop (i * b) ids)
  behind_lem i b ids = sym (drop-drop b (i * b) ids ∙ ap (λ (k : ℕ). drop k ids) (omega arith))

  pub no_skip : (b : Bool) → if◌then◌else◌ {A = ℕ} b 0 0 ≡ 0
  no_skip true = refl
  no_skip false = refl

  -- One round of `from_host` with a chunk of the right size.
  pub scatter_chunk_lem :
      (i : ℕ) (ids : List ℕ) (blob : Bytes) (t : KvTransfer Layer select copy)
      → length blob ≡ chunk_nbytes Layer select copy t
      → suc i * t.blocks_per_chunk ≤ length ids
      → scatter_chunk Layer select copy i 0 ids blob t ≡ (
        ok tt,
        record t {
          kv_caches =
              scatter Layer select copy
                (t.blocks_per_chunk * t.block_nbytes)
                0
                (take t.blocks_per_chunk (drop (i * t.blocks_per_chunk) ids))
                blob
                0
                t.kv_caches;
        },
      )
  unfolding scatter_chunk
  scatter_chunk_lem i ids blob t size room =
      let b = t.blocks_per_chunk in
      let seg = segment_lem i b (i * b + 0) ids (omega arith) in
      let many : (length (slice (i * b + 0) (suc i * b) ids) == b - 0) ≡ true =
        ground (arith, length-slice (i * b + 0) (suc i * b) ids, room) in
      let none_skipped : 0 * t.block_nbytes ≡ 0 = omega arith in
      rw
        (
          fitted_lem (chunk_nbytes Layer select copy t) blob size,
          many,
          seg,
          none_skipped,
          scatter_chunk,
        )
        refl
