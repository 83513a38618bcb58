-- ===== src/Integration/Connector/Store.antt =====
-- What `generate_store_op` of mini_llmcache/integration/vllm_connector.py covers.
use mini_llmcache.Base.{
  ℕ, ◌+◌, ◌-◌, ◌*◌, ◌/◌, ◌≤◌, ◌<◌, ◌≡◌, refl, ap, Option, none, some, inl, inr, arith, length,
  length-slice, length-take, slice, take, ◌==◌, Bool-cases,
}
use native.Mathlib.Nat.{
  mul-div_cancel, div-mul-le_self, lt-div-mul-add, le_of_mul-le-mul_right, mul-le-mul_right,
}
use mini_llmcache.Protocol.{LoadStoreOp}
use mini_llmcache.Integration.Connector.{RequestTracker, available, generate_store_op}
use mini_llmcache.Integration.Connector.Blocks.{IsInBlocks, slice-IsInBlocks}

-- A chunk is a whole number of blocks.
pub record IsGeometry (chunk block per : ℕ) : Type 0 where
  pub chunk_pos : 0 < chunk
  pub block_pos : 0 < block
  pub whole : chunk ≡ per * block

pub chunks_to_blocks :
    (chunk block per n : ℕ) → IsGeometry chunk block per → n * chunk / block ≡ n * per
chunks_to_blocks chunk block per n g =
    let e : n * chunk ≡ n * per * block = omega (arith, ap (λ (c : ℕ). n * c) g.whole) in
    rw e (mul-div_cancel (n * per) g.block_pos)

-- The whole chunks between `s` and `a`.
module _ (a s c : ℕ) (pos : 0 < c) where
  none_fits : (a - s) / c ≡ 0 → a < s + c
  none_fits h =
      let l : a - s < (a - s) / c * c + c = lt-div-mul-add pos in
      let z : (a - s) / c * c ≡ 0 = omega (arith, ap (λ (q : ℕ). q * c) h) in omega arith

  some_fit : 0 < (a - s) / c → (s + (a - s) / c * c ≤ a) × (a < s + (a - s) / c * c + c)
  some_fit h =
      let l : a - s < (a - s) / c * c + c = lt-div-mul-add pos in
      let u : (a - s) / c * c ≤ a - s = div-mul-le_self (a - s) c in
      let p : 0 * c + c ≤ (a - s) / c * c = omega (arith, mul-le-mul_right c h) in omega arith

-- What a call of `generate_store_op` has done, by its result.
abbrev pub Stores : ℕ → ℕ → ℕ → RequestTracker → Option LoadStoreOp × RequestTracker → Type 0
Stores chunk block per t (none, t') = (t' ≡ t) × (available block t < t.num_stored_tokens + chunk)
Stores chunk block per t (some op, t') =
    (n : ℕ) × (0 < n)
    × (op.start ≡ t.num_stored_tokens)
    × (op.end ≡ op.start + n * chunk)
    × (op.end ≤ available block t)
    × (available block t < op.end + chunk)
    × (length op.block_ids ≡ n * per)
    × IsInBlocks block t.block_ids op
    × (op.token_ids ≡ take op.end t.token_ids)
    × (length op.token_ids ≡ op.end)
    × (op.skip_first_n_tokens ≡ 0)
    × (t' ≡ record t { num_stored_tokens = op.end })

module _ (chunk block per : ℕ) (g : IsGeometry chunk block per) (t : RequestTracker) where
  available_bounds :
      (available block t ≤ length t.token_ids) × (available block t ≤ length t.block_ids * block)
  unfolding available
  available_bounds = omega arith

  module _ (s n : ℕ) (aligned : t.num_stored_tokens ≡ s * chunk)
      (below : t.num_stored_tokens + n * chunk ≤ available block t) where
    blocks_counted :
        length (
          slice
            (t.num_stored_tokens / block)
            ((t.num_stored_tokens + n * chunk) / block)
            t.block_ids)
        ≡ n * per
    blocks_counted =
        let first : t.num_stored_tokens / block ≡ s * per =
          rw aligned (chunks_to_blocks chunk block per s g) in
        let last : (t.num_stored_tokens + n * chunk) / block ≡ (s + n) * per =
          let e : t.num_stored_tokens + n * chunk ≡ (s + n) * chunk = omega arith in
          rw e (chunks_to_blocks chunk block per (s + n) g) in
        let enough : (s + n) * per * block ≤ length t.block_ids * block =
          omega (arith, available_bounds, ap (λ (c : ℕ). (s + n) * c) g.whole) in
        let room : (s + n) * per ≤ length t.block_ids = le_of_mul-le-mul_right enough g.block_pos in
        rw (first, last) (omega (arith, length-slice (s * per) ((s + n) * per) t.block_ids))

    ends_whole : t.num_stored_tokens + n * chunk ≡ (s + n) * per * block
    ends_whole = omega (arith, aligned, ap (λ (c : ℕ). (s + n) * c) g.whole)

    starts_whole : t.num_stored_tokens ≡ s * per * block
    starts_whole = omega (arith, aligned, ap (λ (c : ℕ). s * c) g.whole)

  -- If a chunk is a whole number of blocks, then on a tracker that has stored whole chunks,
  -- `generate_store_op` gives nothing if less than a chunk is available beyond them, else an
  -- operation that starts where the last one ended, covers every further whole available chunk and
  -- no more, has as many blocks as these chunks have, with every token in the block in which the
  -- tracker has it, and the tokens of the tracker up to its end, and advances the stored count to
  -- its end.
  pub generate_store_op-Stores :
      (s : ℕ)
      → t.num_stored_tokens ≡ s * chunk
      → Stores chunk block per t (generate_store_op chunk block t)
  unfolding generate_store_op
  generate_store_op-Stores s aligned =
      elim (Bool-cases ((available block t - t.num_stored_tokens) / chunk == 0)) [
        | inl nothing ↦ rw nothing (
          refl,
          none_fits (available block t) t.num_stored_tokens chunk g.chunk_pos (ground arith),
        )
        | inr some_chunks ↦
            let n = (available block t - t.num_stored_tokens) / chunk in
            let positive : 0 < n = ground arith in
            let fit = some_fit (available block t) t.num_stored_tokens chunk g.chunk_pos positive in
            rw some_chunks (
              n,
              positive,
              refl,
              refl,
              fit.0,
              fit.1,
              blocks_counted s n aligned fit.0,
              slice-IsInBlocks block (s * per) ((s + n) * per) t.num_stored_tokens
                  (t.num_stored_tokens + n * chunk) t.block_ids g.block_pos
                  (starts_whole s n aligned fit.0) (ends_whole s n aligned fit.0),
              refl,
              omega (
                arith,
                length-take (t.num_stored_tokens + n * chunk) t.token_ids,
                fit.0,
                available_bounds,
              ),
              refl,
              refl,
            )
      ]
