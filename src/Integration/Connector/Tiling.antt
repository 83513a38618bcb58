-- ===== src/Integration/Connector/Tiling.antt =====
-- Over the life of a request, the STORE operations of
-- mini_llmcache/integration/vllm_connector.py tile its tokens.
use mini_llmcache.Base.{
  ℕ, ◌+◌, ◌*◌, ◌<◌, ◌≡◌, refl, ap, ◌∙◌, sym, subst, List, [], ◌∷◌, ◌++◌, Option, none, some, Bool,
  arith, length, take,
}
use mini_llmcache.Protocol.{LoadStoreOp}
use mini_llmcache.Integration.Connector.{RequestTracker, generate_retrieve_op, with_blocks}
use mini_llmcache.Integration.Connector.Blocks.{IsInBlocks}
use mini_llmcache.Integration.Connector.Meta.{on_new, on_cached, on_scheduled}
use mini_llmcache.Integration.Connector.Store.{IsGeometry, Stores, generate_store_op-Stores}

-- What can happen to the tracker of a request whose lookup is resolved. `grown` stands for vLLM
-- appending to `request.all_token_ids`, the list that the tracker shares with the request.
pub data Event : Type 0 where
  grown : List ℕ → Event
  allocated : List ℕ → ℕ → Event
  loads : Event
  is_new : List ℕ → ℕ → Event
  is_cached : Option (List ℕ) → Bool → ℕ → Event
  scheduled : ℕ → Event

-- The STORE operation, if the event gives one, and the tracker after it.
unfoldable pub step : ℕ → ℕ → Event → RequestTracker → Option LoadStoreOp × RequestTracker
unfolding on_new on_cached with_blocks generate_retrieve_op
step chunk block (grown more) t = (none, record t { token_ids = t.token_ids ++ more })
step chunk block (allocated blocks external) t = (none, with_blocks blocks external t)
step chunk block loads t = (none, (generate_retrieve_op chunk block t).1)
step chunk block (is_new blocks computed) t = (none, on_new blocks computed t)
step chunk block (is_cached blocks resumed computed) t = (none, on_cached blocks resumed computed t)
step chunk block (scheduled n) t = on_scheduled chunk block n t

-- An operation together with the tracker that the schedule found.
abbrev pub Made : Type 0
Made = LoadStoreOp × RequestTracker

abbrev add_op : RequestTracker → Option LoadStoreOp → List Made → List Made
add_op t none ops = ops
add_op t (some op) ops = (op, t) ∷ ops

unfoldable pub run : ℕ → ℕ → List Event → RequestTracker → List Made × RequestTracker
run chunk block [] t = ([], t)
run chunk block (e ∷ events) t =
    let (op, t') = step chunk block e t in
    let (ops, t'') = run chunk block events t' in (add_op t op ops, t'')

-- The operations cover `[a, b)` from left to right, each at least one whole chunk, each with as many
-- blocks as its chunks have, its tokens in the blocks where the tracker has them, and the tracker's
-- tokens up to its end.
abbrev pub Tiles : ℕ → ℕ → ℕ → ℕ → List Made → ℕ → Type 0
Tiles chunk block per a [] b = a ≡ b
Tiles chunk block per a ((op, t) ∷ ops) b =
    (op.start ≡ a)
    × (n : ℕ) × (0 < n)
    × (op.end ≡ a + n * chunk)
    × (length op.block_ids ≡ n * per)
    × IsInBlocks block t.block_ids op
    × (op.token_ids ≡ take op.end t.token_ids)
    × (length op.token_ids ≡ op.end)
    × Tiles chunk block per op.end ops b

-- No event but a schedule touches the stored tokens.
quiet :
    (chunk block : ℕ) (t : RequestTracker)
    → ((generate_retrieve_op chunk block t).1).num_stored_tokens ≡ t.num_stored_tokens
unfolding generate_retrieve_op
quiet chunk block t = ground arith

cached_quiet :
    (blocks : Option (List ℕ)) (resumed : Bool) (computed : ℕ) (t : RequestTracker)
    → (on_cached blocks resumed computed t).num_stored_tokens ≡ t.num_stored_tokens
unfolding on_cached
cached_quiet none resumed computed t = refl
cached_quiet (some blocks) resumed computed t = refl

module _ (chunk block per : ℕ) (g : IsGeometry chunk block per) where
  -- One step tiles the tokens between the two counts.
  abbrev StepTiles : RequestTracker → Option LoadStoreOp × RequestTracker → Type 0
  StepTiles t (op, t') =
      Tiles chunk block per t.num_stored_tokens (add_op t op []) t'.num_stored_tokens
      × (s : ℕ) × (t'.num_stored_tokens ≡ s * chunk)

  Stores-StepTiles :
      (t u : RequestTracker) (s : ℕ) (p : Option LoadStoreOp × RequestTracker)
      → u ≡ record t { num_computed_tokens = u.num_computed_tokens }
      → t.num_stored_tokens ≡ s * chunk
      → Stores chunk block per u p
      → StepTiles t p
  Stores-StepTiles t u s (none, t') same aligned stores =
      (ground (arith, same, stores.0), s, ground (arith, same, stores.0))
  Stores-StepTiles t u s (some op, t') same aligned stores =
      let (n, pos, start, end, below, above, blocks, held, tokens, counted, skip, after) = stores in
      let stored : t'.num_stored_tokens ≡ op.end = ground (arith, after) in
      let count : u.num_stored_tokens ≡ t.num_stored_tokens = ap (λ v. v.num_stored_tokens) same in
      (
        (
          start ∙ count,
          n,
          pos,
          omega (arith, end, start, count),
          blocks,
          subst (λ ids. IsInBlocks block ids op) (ap (λ v. v.block_ids) same) held,
          tokens ∙ ap (λ v. take op.end v.token_ids) same,
          counted,
          sym stored,
        ),
        s + n,
        omega (arith, stored, end, start, count, aligned),
      )

  step-StepTiles :
      (e : Event) (t : RequestTracker) (s : ℕ)
      → t.num_stored_tokens ≡ s * chunk
      → StepTiles t (step chunk block e t)
  unfolding step on_scheduled
  step-StepTiles (grown more) t s aligned = (refl, s, aligned)
  step-StepTiles (allocated blocks external) t s aligned = (refl, s, aligned)
  step-StepTiles loads t s aligned = (sym (quiet chunk block t), s, quiet chunk block t ∙ aligned)
  step-StepTiles (is_new blocks computed) t s aligned = (refl, s, aligned)
  step-StepTiles (is_cached blocks resumed computed) t s aligned = (
    sym (cached_quiet blocks resumed computed t),
    s,
    cached_quiet blocks resumed computed t ∙ aligned,
  )
  step-StepTiles (scheduled n) t s aligned =
      let u = record t { num_computed_tokens = t.num_computed_tokens + n } in
      Stores-StepTiles t u s _ refl aligned (generate_store_op-Stores chunk block per g u s aligned)

  Tiles-add :
      (t : RequestTracker) (op : Option LoadStoreOp) (ops : List Made) (a b c : ℕ)
      → Tiles chunk block per a (add_op t op []) b
      → Tiles chunk block per b ops c
      → Tiles chunk block per a (add_op t op ops) c
  Tiles-add t none [] a b c h k = h ∙ k
  Tiles-add t none (o ∷ ops) a b c h k = subst (λ x. Tiles chunk block per x (o ∷ ops) c) (sym h) k
  Tiles-add t (some op) ops a b c h k =
      let (start, n, pos, end, blocks, held, tokens, counted, same) = h in
      (
        start,
        n,
        pos,
        end,
        blocks,
        held,
        tokens,
        counted,
        subst (λ x. Tiles chunk block per x ops c) (sym same) k,
      )

  -- If a chunk is a whole number of blocks, then from a whole number of stored chunks on, whatever
  -- sequence of allocations, schedules, resumptions and new tokens a tracker sees, the STORE
  -- operations tile the tokens between the stored counts before and after, each at least one whole
  -- chunk; each has as many blocks as its chunks have, with every token in the block in which the
  -- tracker had it when the operation was made, and the tokens of the tracker up to its end.
  pub run-Tiles :
      (events : List Event) (t : RequestTracker) (s : ℕ)
      → t.num_stored_tokens ≡ s * chunk
      → Tiles chunk block per t.num_stored_tokens
          (run chunk block events t).0
          (run chunk block events t).1.num_stored_tokens
  unfolding run
  run-Tiles [] t s aligned = refl
  run-Tiles (e ∷ events) t s aligned =
      let (once, s', aligned') = step-StepTiles e t s aligned in
      Tiles-add t (step chunk block e t).0 (run chunk block events (step chunk block e t).1).0
        t.num_stored_tokens (step chunk block e t).1.num_stored_tokens
        (run chunk block events (step chunk block e t).1).1.num_stored_tokens once
        (run-Tiles events (step chunk block e t).1 s' aligned')
