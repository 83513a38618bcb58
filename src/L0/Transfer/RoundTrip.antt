-- ===== src/L0/Transfer/RoundTrip.antt =====
-- `from_host` and `to_host` of mini_llmcache/l0/transfer.py, one after the other.
use mini_llmcache.Base.{
  ℕ, suc, ◌+◌, ◌*◌, ◌/◌, ◌%◌, ◌≤◌, ◌<◌, ◌≡◌, refl, ap, ap₂, sym, subst, ◌∙◌, List, [], ◌∷◌, ◌==◌,
  Outcome, raised, arith, All, length, ok, take, drop, elem, Distinct, false, ℕ_discrete,
  length-take, length-drop,
}
use mini_llmcache.Base.Cuts.{drop-Distinct, elem-cut, elem-of_take, elem-of_drop, take-Distinct}
use native.Mathlib.Nat.{mul-mod_left, mul-div_cancel}
use mini_llmcache.Protocol.{Bytes}
use mini_llmcache.L0.Transfer.{
  KvTransfer, chunk_nbytes, gather, to_host_loop, to_host, scatter, scatter_chunk, from_host_loop,
  from_host,
}
use mini_llmcache.L0.Transfer.Restores.{
  AreApart, gather-scatter, gather-scatter_apart, length-scatter, segment_lem, behind_lem, no_skip,
  scatter_chunk_lem,
}

module _ (Layer : Type 0) (select : Layer → List ℕ → Bytes) (copy : List ℕ → Bytes → Layer → Layer)
    (block_nbytes : ℕ)
    (select-copy : (ids : List ℕ) (bs : Bytes) (kv : Layer)
      → Distinct ℕ_discrete ids
      → length bs ≡ length ids * block_nbytes
      → select (copy ids bs kv) ids ≡ bs)
    (select-copy_apart : (ids js : List ℕ) (bs : Bytes) (kv : Layer)
      → AreApart ids js
      → select (copy ids bs kv) js ≡ select kv js) where
  abbrev Transfer : Type 0
  Transfer = KvTransfer Layer select copy

  abbrev gathered : List ℕ → List Layer → Bytes
  gathered = gather Layer select copy

  -- The loop of `from_host` has copied the chunks, and no other block.
  abbrev Restored : List Bytes → ℕ → List ℕ → Transfer → Type 0
  Restored chunks i ids t =
      (kvs : List Layer) × (from_host_loop Layer select copy i 0 ids chunks t
        ≡ (ok tt, record t { kv_caches = kvs }))
      × (to_host_loop Layer select copy (length chunks) i ids (record t { kv_caches = kvs })
          ≡ chunks)
      × ((js : List ℕ)
          → AreApart (drop (i * t.blocks_per_chunk) ids) js
          → gathered js kvs ≡ gathered js t.kv_caches)

  -- What the loop does after a round.
  abbrev goes_on :
      ℕ → List ℕ → List Bytes → Outcome (Unit {0}) × Transfer → Outcome (Unit {0}) × Transfer
  goes_on i ids chunks p = elim p.0 [
    | raised e ↦ (raised e, p.1)
    | ok _ ↦ from_host_loop Layer select copy (suc i) 0 ids chunks p.1
  ]

  next_lem :
      (i : ℕ) (ids : List ℕ) (blob : Bytes) (chunks : List Bytes) (t t₁ : Transfer)
      → scatter_chunk Layer select copy i 0 ids blob t ≡ (ok tt, t₁)
      → from_host_loop Layer select copy i 0 ids (blob ∷ chunks) t
        ≡ from_host_loop Layer select copy (suc i) 0 ids chunks t₁
  unfolding from_host_loop
  next_lem i ids blob chunks t t₁ h = ap (goes_on i ids chunks) (
      ap (λ (k : ℕ). scatter_chunk Layer select copy i k ids blob t)
        (no_skip Layer select copy block_nbytes select-copy select-copy_apart (i == 0))
      ∙ h)

  from_host_loop-Restored :
      (chunks : List Bytes) (i : ℕ) (ids : List ℕ) (t : Transfer)
      → t.block_nbytes ≡ block_nbytes
      → Distinct ℕ_discrete ids
      → All (λ c. length c ≡ chunk_nbytes Layer select copy t) chunks
      → (i + length chunks) * t.blocks_per_chunk ≤ length ids
      → Restored chunks i ids t
  unfolding from_host_loop to_host_loop chunk_nbytes
  from_host_loop-Restored [] i ids t same distinct sized room =
      (t.kv_caches, refl, refl, λ js apart. refl)
  from_host_loop-Restored (blob ∷ chunks) i ids t same distinct sized room =
      let b = t.blocks_per_chunk in
      let rest = drop (i * b) ids in
      let seg = take b rest in
      let kvs₁ = scatter Layer select copy (b * t.block_nbytes) 0 seg blob 0 t.kv_caches in
      let t₁ = record t { kv_caches = kvs₁ } in
      let rest-Distinct = drop-Distinct ℕ_discrete (i * b) ids distinct in
      let here =
        scatter_chunk_lem Layer select copy block_nbytes select-copy select-copy_apart i ids blob t
          sized.0 (omega (arith, room)) in
      let sized₁ : All (λ c. length c ≡ chunk_nbytes Layer select copy t₁) chunks =
        subst (λ (k : ℕ). All (λ (c : Bytes). length c ≡ k * b * t.block_nbytes) chunks)
          (sym (
            length-scatter Layer select copy block_nbytes select-copy select-copy_apart seg blob
              (b * t.block_nbytes) 0 0 t.kv_caches))
          sized.1 in
      let whole : length seg ≡ b =
        omega (arith, length-take b rest, length-drop (i * b) ids, room) in
      let (kvs, returned, back, others) =
        from_host_loop-Restored chunks (suc i) ids t₁ same distinct sized₁ (omega (arith, room)) in
      let behind =
        behind_lem Layer select copy block_nbytes select-copy select-copy_apart i b ids in
      let start : 0 * (b * t.block_nbytes) ≡ 0 = omega arith in
      let own : gathered seg kvs₁ ≡ blob =
        gather-scatter Layer select copy block_nbytes select-copy select-copy_apart seg blob
          (b * t.block_nbytes) 0 t.kv_caches (take-Distinct ℕ_discrete b rest rest-Distinct)
          (ap₂ (λ (x y : ℕ). x * y) (sym whole) same) (sized.0 ∙ omega arith)
        ∙ ap (λ (k : ℕ). drop k blob) start in
      let kept : gathered seg kvs ≡ gathered seg kvs₁ = others seg (λ k at.
        elem-cut ℕ_discrete k b rest rest-Distinct (ap (elem ℕ_discrete k) (sym behind) ∙ at)) in
      (
        kvs,
        next_lem i ids blob chunks t t₁ here ∙ returned,
        ap₂ (λ (x : Bytes) (xs : List Bytes). x ∷ xs)
            (ap (λ js. gathered js kvs)
                (segment_lem Layer select copy block_nbytes select-copy select-copy_apart i b
                  (i * b) ids refl)
              ∙ kept
              ∙ own)
            back,
        λ js apart.
            others js (λ k at.
              apart k (elem-of_drop ℕ_discrete k b rest (ap (elem ℕ_discrete k) (sym behind) ∙ at)))
            ∙ gather-scatter_apart Layer select copy block_nbytes select-copy select-copy_apart seg
                js blob (b * t.block_nbytes) 0 0 t.kv_caches
                (λ k at. apart k (elem-of_take ℕ_discrete k b rest at)),
      )

  -- If a selection of blocks reads what was copied into them, and what it read before where other
  -- blocks were copied: after `from_host` of chunks of the right size into as many distinct blocks,
  -- `to_host` of these blocks gives the chunks back, and other blocks are as they were.
  pub to_host-from_host :
      (chunks : List Bytes) (ids : List ℕ) (t : Transfer)
      → 0 < t.blocks_per_chunk
      → t.block_nbytes ≡ block_nbytes
      → Distinct ℕ_discrete ids
      → All (λ c. length c ≡ chunk_nbytes Layer select copy t) chunks
      → length ids ≡ length chunks * t.blocks_per_chunk
      → (kvs : List Layer) × (from_host Layer select copy chunks ids 0 t
          ≡ (ok tt, record t { kv_caches = kvs }))
        × (to_host Layer select copy ids (record t { kv_caches = kvs }) ≡ ok chunks)
        × ((js : List ℕ) → AreApart ids js → gathered js kvs ≡ gathered js t.kv_caches)
  unfolding from_host to_host
  to_host-from_host chunks ids t pos same distinct sized count =
      let b = t.blocks_per_chunk in
      let (kvs, returned, back, others) =
        from_host_loop-Restored chunks 0 ids t same distinct sized (omega (arith, count)) in
      let fills : length ids % b ≡ 0 =
        ap (λ (k : ℕ). k % b) count ∙ mul-mod_left (length chunks) b in
      let rounds : length ids / b ≡ length chunks =
        ap (λ (k : ℕ). k / b) count ∙ mul-div_cancel (length chunks) pos in
      let positive : (b == 0) ≡ false = ground (arith, pos) in
      (
        kvs,
        rw (positive, fills) returned,
        rw (positive, fills, rounds) (ap (λ cs. ok cs) back),
        λ js apart. others js (λ k at. apart k (elem-of_drop ℕ_discrete k (0 * b) ids at)),
      )
