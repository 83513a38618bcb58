-- ===== src/Integration/Connector/Retrieve.antt =====
-- What `generate_retrieve_op` of mini_llmcache/integration/vllm_connector.py covers, and how it fits
-- the lookup locks that `update_state_after_alloc` frees.
use mini_llmcache.Base.{
  ℕ, ◌+◌, ◌-◌, ◌*◌, ◌/◌, ◌≤◌, ◌<◌, ◌≡◌, refl, ap, sym, ◌∙◌, some, true, false, arith, length,
  length-slice, length-take, slice, take,
}
use native.Mathlib.Nat.{
  mul-div_cancel, div-mul-le_self, lt-div-mul-add, le_of_mul-le-mul_right, div-lt_iff_lt-mul,
  mul-le-mul_right,
}
use mini_llmcache.Protocol.{LoadStoreOp}
use mini_llmcache.Integration.Connector.{RequestTracker, generate_retrieve_op, free_until}
use mini_llmcache.Integration.Connector.Blocks.{IsInBlocks, slice-IsInBlocks}
use mini_llmcache.Integration.Connector.Store.{IsGeometry, chunks_to_blocks}

-- A tracker whose request waits for the load of `n` hit chunks into blocks that it has.
pub record IsLoading (chunk block n : ℕ) (t : RequestTracker) : Type 0 where
  pub pending : t.load_pending ≡ true
  pub whole : t.lmcache_hits ≡ n * chunk
  pub beyond : t.vllm_hits < t.lmcache_hits
  pub tokens : t.lmcache_hits ≤ length t.token_ids
  pub blocks : t.lmcache_hits ≤ length t.block_ids * block

-- The operation that loads the chunks from the one that holds `vllm_hits` on.
pub record Retrieves (chunk block per n : ℕ) (t : RequestTracker) (op : LoadStoreOp) : Type 0 where
  pub start : op.start ≡ t.vllm_hits / chunk * chunk
  pub end : op.end ≡ t.lmcache_hits
  pub skip : op.start + op.skip_first_n_tokens ≡ t.vllm_hits
  pub skip_small : op.skip_first_n_tokens / block < per
  pub counted_blocks : length op.block_ids + op.start / chunk * per ≡ n * per
  pub blocks : IsInBlocks block t.block_ids op
  pub tokens : op.token_ids ≡ take op.end t.token_ids
  pub counted : length op.token_ids ≡ op.end

module _ (chunk block per n : ℕ) (g : IsGeometry chunk block per) (t : RequestTracker)
    (loading : IsLoading chunk block n t) where
  first_chunk_below : t.vllm_hits / chunk ≤ n
  first_chunk_below =
      le_of_mul-le-mul_right
        (omega (arith, div-mul-le_self t.vllm_hits chunk, loading.beyond, loading.whole))
        g.chunk_pos

  loaded_blocks :
      length (slice (t.vllm_hits / chunk * chunk / block) (t.lmcache_hits / block) t.block_ids)
        + t.vllm_hits / chunk * per
      ≡ n * per
  loaded_blocks =
      let first = chunks_to_blocks chunk block per (t.vllm_hits / chunk) g in
      let last : t.lmcache_hits / block ≡ n * per =
        rw loading.whole (chunks_to_blocks chunk block per n g) in
      let room : n * per ≤ length t.block_ids =
        le_of_mul-le-mul_right
          (omega (arith, loading.blocks, loading.whole, ap (λ (c : ℕ). n * c) g.whole))
          g.block_pos in
      rw (first, last)
        (omega (
          arith,
          length-slice (t.vllm_hits / chunk * per) (n * per) t.block_ids,
          mul-le-mul_right per first_chunk_below,
        ))

  -- If a chunk is a whole number of blocks, then for a tracker that waits for the load of whole hit
  -- chunks into blocks it has, `generate_retrieve_op` covers the chunks from the one that holds
  -- `vllm_hits` to the last hit, has as many blocks as these chunks have, with every token in the
  -- block in which the tracker has it, and the tokens of the tracker up to its end, skips the
  -- tokens that vLLM has, less than a chunk, and clears the pending flag.
  pub generate_retrieve_op-Retrieves :
      (op : LoadStoreOp) × (generate_retrieve_op chunk block t
        ≡ (some op, record t { load_pending = false }))
      × Retrieves chunk block per n t op
  unfolding generate_retrieve_op
  generate_retrieve_op-Retrieves =
      let start = t.vllm_hits / chunk * chunk in
      let below : start ≤ t.vllm_hits = div-mul-le_self t.vllm_hits chunk in
      let near : t.vllm_hits < start + chunk = lt-div-mul-add g.chunk_pos in
      (
        record {
          token_ids = take t.lmcache_hits t.token_ids;
          block_ids = slice (start / block) (t.lmcache_hits / block) t.block_ids;
          start = start;
          end = t.lmcache_hits;
          skip_first_n_tokens = t.vllm_hits - start;
        },
        ground (arith, loading.pending),
        record {
          start = refl;
          end = refl;
          skip = omega arith;
          skip_small = (div-lt_iff_lt-mul g.block_pos).1 (omega (arith, below, near, g.whole));
          counted_blocks = blocks_by_start;
          blocks =
              slice-IsInBlocks block (t.vllm_hits / chunk * per) (n * per) start t.lmcache_hits
                t.block_ids g.block_pos
                (omega (arith, ap (λ (c : ℕ). t.vllm_hits / chunk * c) g.whole))
                (omega (arith, loading.whole, ap (λ (c : ℕ). n * c) g.whole));
          tokens = refl;
          counted = omega (arith, length-take t.lmcache_hits t.token_ids, loading.tokens);
        },
      )
    where
      blocks_by_start :
          length (slice (t.vllm_hits / chunk * chunk / block) (t.lmcache_hits / block) t.block_ids)
            + t.vllm_hits / chunk * chunk / chunk * per
          ≡ n * per
      blocks_by_start =
          let e : t.vllm_hits / chunk * chunk / chunk ≡ t.vllm_hits / chunk =
            mul-div_cancel (t.vllm_hits / chunk) g.chunk_pos in
          rw e loaded_blocks

  -- If a chunk is a whole number of blocks, then for a tracker that waits for the load of whole hit
  -- chunks into blocks it has, `generate_retrieve_op` gives an operation that starts exactly where
  -- the chunks end whose lookup locks the first allocation frees, and ends at the last hit: the
  -- freed chunks and the chunks of the operation are together all hit chunks, and none is in both.
  pub free_until-retrieve :
      (op : LoadStoreOp) × (generate_retrieve_op chunk block t
        ≡ (some op, record t { load_pending = false }))
      × (free_until chunk t * chunk ≡ op.start)
      × (free_until chunk t + (op.end - op.start) / chunk ≡ t.lmcache_hits / chunk)
      × (op.end ≡ t.lmcache_hits)
  unfolding free_until
  free_until-retrieve =
      let (op, made, did) = generate_retrieve_op-Retrieves in
      let hits : t.lmcache_hits / chunk ≡ n = rw loading.whole (mul-div_cancel n g.chunk_pos) in
      let first : free_until chunk t ≡ t.vllm_hits / chunk =
        ground (arith, loading.pending, hits, first_chunk_below) in
      let kept : (op.end - op.start) / chunk ≡ n - t.vllm_hits / chunk =
        let e : op.end - op.start ≡ (n - t.vllm_hits / chunk) * chunk =
          let split : n ≡ t.vllm_hits / chunk + (n - t.vllm_hits / chunk) =
            omega (arith, first_chunk_below) in
          omega (arith, did.start, did.end, loading.whole, ap (λ (q : ℕ). q * chunk) split) in
        rw e (mul-div_cancel (n - t.vllm_hits / chunk) g.chunk_pos) in
      (
        op,
        made,
        ap (λ (q : ℕ). q * chunk) first ∙ sym did.start,
        omega (arith, first, kept, hits, first_chunk_below),
        did.end,
      )
