-- ===== src/L0/Transfer.antt =====
-- `KVTransfer` of mini_llmcache/l0/transfer.py. What torch does to one layer of the GPU cache is a
-- parameter: `select` gives the bytes of some of its blocks, and `copy` overwrites some of its
-- blocks. A staging slot is awaited before it is used again, so the chunks are copied one after
-- another here, and streams and events are left out.
pub mod Restores
pub mod RoundTrip
use mini_llmcache.Base.{
  ℕ, zero, suc, ◌+◌, ◌-◌, ◌*◌, ◌/◌, ◌%◌, ◌≤◌, ◌<◌, ◌≡◌, refl, ap, ◌∙◌, List, [], ◌∷◌, ◌++◌, Option,
  none, some, if◌then◌else◌, ◌==◌, arith, All, length, length-append, length-slice, slice, Outcome,
  ok, raised, assertion_error, value_error, runtime_error, zero_division_error, Action,
}
use mini_llmcache.Protocol.{Bytes}
use native.Mathlib.Nat.{div-mul-le_self}

module _ (Layer : Type 0) (select : Layer → List ℕ → Bytes)
    (copy : List ℕ → Bytes → Layer → Layer) where
  pub record KvTransfer : Type 0 where
    pub kv_caches : List Layer
    pub blocks_per_chunk : ℕ
    pub block_nbytes : ℕ

  unfoldable pub chunk_nbytes : KvTransfer → ℕ
  chunk_nbytes t = length t.kv_caches * t.blocks_per_chunk * t.block_nbytes

  -- One round of `to_host`: the blocks of every layer, layer after layer.
  unfoldable pub gather : List ℕ → List Layer → Bytes
  gather ids [] = []
  gather ids (kv ∷ layers) = select kv ids ++ gather ids layers

  unfoldable pub to_host_loop : ℕ → ℕ → List ℕ → KvTransfer → List Bytes
  unfolding gather
  to_host_loop zero i block_ids t = []
  to_host_loop (suc rounds) i block_ids t =
      gather (slice (i * t.blocks_per_chunk) (suc i * t.blocks_per_chunk) block_ids) t.kv_caches
      ∷ to_host_loop rounds (suc i) block_ids t

  unfoldable pub to_host : List ℕ → KvTransfer → Outcome (List Bytes)
  unfolding to_host_loop
  to_host block_ids t =
      if t.blocks_per_chunk == 0
      then raised zero_division_error
      else if length block_ids % t.blocks_per_chunk == 0
      then ok (to_host_loop (length block_ids / t.blocks_per_chunk) 0 block_ids t)
      else raised assertion_error

  abbrev pub repeat : ℕ → ℕ → Bytes
  repeat zero b = []
  repeat (suc n) b = b ∷ repeat n b

  -- `buf[:] = blob` of numpy: a blob of one byte is spread, any other has to fit.
  unfoldable pub fitted : ℕ → Bytes → Option Bytes
  fitted n [] = if n == 0 then some [] else none
  fitted n (b ∷ []) = some (repeat n b)
  fitted n (b ∷ c ∷ blob) = if suc (suc (length blob)) == n then some (b ∷ c ∷ blob) else none

  -- The loop over the layers, the first of which has number `layer`.
  unfoldable pub scatter : ℕ → ℕ → List ℕ → Bytes → ℕ → List Layer → List Layer
  scatter layer_nbytes skip_nbytes ids bytes layer [] = []
  scatter layer_nbytes skip_nbytes ids bytes layer (kv ∷ layers) =
      copy ids (slice (layer * layer_nbytes + skip_nbytes) (suc layer * layer_nbytes) bytes) kv
      ∷ scatter layer_nbytes skip_nbytes ids bytes (suc layer) layers

  -- One round of `from_host`; `index_copy_` wants as many blocks as indices.
  unfoldable pub scatter_chunk : ℕ → ℕ → List ℕ → Bytes → Action KvTransfer (Unit {0})
  unfolding scatter
  scatter_chunk i skip block_ids blob t = elim (fitted (chunk_nbytes t) blob) [
    | none ↦ (raised value_error, t)
    | some bytes ↦
        let ids = slice (i * t.blocks_per_chunk + skip) (suc i * t.blocks_per_chunk) block_ids in
        if length ids == t.blocks_per_chunk - skip
        then (
          ok tt,
          record t {
            kv_caches =
                scatter (t.blocks_per_chunk * t.block_nbytes) (skip * t.block_nbytes) ids bytes 0
                  t.kv_caches;
          },
        )
        else (raised runtime_error, t)
  ]

  unfoldable pub from_host_loop : ℕ → ℕ → List ℕ → List Bytes → Action KvTransfer (Unit {0})
  unfolding scatter_chunk
  from_host_loop i skip_blocks block_ids [] t = (ok tt, t)
  from_host_loop i skip_blocks block_ids (blob ∷ chunks) t =
      let (r, t') = scatter_chunk i (if i == 0 then skip_blocks else 0) block_ids blob t in
      elim r [
        | raised e ↦ (raised e, t')
        | ok _ ↦ from_host_loop (suc i) skip_blocks block_ids chunks t'
      ]

  unfoldable pub from_host : List Bytes → List ℕ → ℕ → Action KvTransfer (Unit {0})
  unfolding from_host_loop
  from_host chunks block_ids skip_blocks t =
      if t.blocks_per_chunk == 0
      then (raised zero_division_error, t)
      else if length block_ids % t.blocks_per_chunk == 0
      then from_host_loop 0 skip_blocks block_ids chunks t
      else (raised assertion_error, t)

  module _ (t : KvTransfer)
      (sized : (kv : Layer) (ids : List ℕ)
        → length (select kv ids) ≡ length ids * t.block_nbytes) where
    length-gather :
        (ids : List ℕ) (layers : List Layer)
        → length (gather ids layers) ≡ length layers * (length ids * t.block_nbytes)
    unfolding gather
    length-gather ids [] = omega arith
    length-gather ids (kv ∷ layers) = omega (
      arith,
      length-append (select kv ids) (gather ids layers),
      sized kv ids,
      length-gather ids layers,
    )

    chunks_sized :
        (rounds i : ℕ) (block_ids : List ℕ)
        → (i + rounds) * t.blocks_per_chunk ≤ length block_ids
        → (length (to_host_loop rounds i block_ids t) ≡ rounds)
          × All (λ c. length c ≡ chunk_nbytes t) (to_host_loop rounds i block_ids t)
    unfolding to_host_loop chunk_nbytes
    chunks_sized zero i block_ids h = (refl, tt)
    chunks_sized (suc rounds) i block_ids h =
        let ids = slice (i * t.blocks_per_chunk) (suc i * t.blocks_per_chunk) block_ids in
        let (n, all) = chunks_sized rounds (suc i) block_ids (omega arith) in
        let whole : length ids ≡ t.blocks_per_chunk =
          omega
            (arith, length-slice (i * t.blocks_per_chunk) (suc i * t.blocks_per_chunk) block_ids) in
        (
          omega (arith, n),
          (
            length-gather ids t.kv_caches
                ∙ ap (λ (k : ℕ). length t.kv_caches * (k * t.block_nbytes)) whole
                ∙ omega arith,
            all,
          ),
        )

    -- If a selection has the bytes of the blocks selected, `to_host` of blocks that fill whole
    -- chunks returns one chunk for each `blocks_per_chunk` of them, each of `chunk_nbytes` bytes.
    pub to_host_sized :
        (block_ids : List ℕ)
        → 0 < t.blocks_per_chunk
        → length block_ids % t.blocks_per_chunk ≡ 0
        → (chunks : List Bytes) × (to_host block_ids t ≡ ok chunks)
          × (length chunks ≡ length block_ids / t.blocks_per_chunk)
          × All (λ c. length c ≡ chunk_nbytes t) chunks
    unfolding to_host
    to_host_sized block_ids pos whole =
        let n = length block_ids / t.blocks_per_chunk in
        let (count, all) =
          chunks_sized n 0 block_ids
            (omega (arith, div-mul-le_self (length block_ids) t.blocks_per_chunk)) in
        (to_host_loop n 0 block_ids t, ground arith, count, all)
