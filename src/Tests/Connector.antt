-- ===== src/Tests/Connector.antt =====
-- The scheduler's side of mini_llmcache/integration/vllm_connector.py, with blocks of two tokens
-- and chunks of two blocks.
use mini_llmcache.Base.{
  ℕ, ◌+◌, ◌-◌, ◌*◌, ◌/◌, ◌≡◌, refl, List, [], ◌∷◌, ◌++◌, some, true, false, arith,
}
use mini_llmcache.Protocol.{LoadStoreOp}
use mini_llmcache.Integration.Connector.{
  RequestTracker, Connector, Request, pending, hits, generate_store_op, generate_retrieve_op,
  free_until, new_tracker,
}
use mini_llmcache.Integration.Connector.Store.{IsGeometry, Stores, generate_store_op-Stores}
use mini_llmcache.Integration.Connector.Retrieve.{
  IsLoading, Retrieves, generate_retrieve_op-Retrieves, free_until-retrieve,
}
use mini_llmcache.Integration.Connector.Tiling.{
  Event, scheduled, is_new, is_cached, run, Tiles, run-Tiles,
}
use mini_llmcache.Integration.Connector.Hooks.{poll_many, expected, announced, poll_many-expected}

geometry : IsGeometry 4 2 2
geometry = record { chunk_pos = omega arith; block_pos = omega arith; whole = refl }

abbrev prompt : List ℕ
prompt = 1 ∷ 2 ∷ 3 ∷ 4 ∷ 5 ∷ 6 ∷ 7 ∷ 8 ∷ 9 ∷ 10 ∷ []

-- Two chunks hit, of which vLLM has the first three tokens; the load is not done.
abbrev loading : RequestTracker
loading = record (new_tracker prompt) {
  lmcache_hits = 8;
  vllm_hits = 3;
  block_ids = 20 ∷ 21 ∷ 22 ∷ 23 ∷ 24 ∷ [];
  num_stored_tokens = 8;
  load_pending = true;
}

loading-IsLoading : IsLoading 4 2 2 loading
loading-IsLoading = record {
  pending = refl;
  whole = refl;
  beyond = omega arith;
  tokens = omega arith;
  blocks = omega arith;
}

-- Nothing hit: the prompt is computed, and its two whole chunks can be stored.
abbrev computed : RequestTracker
computed = record (new_tracker prompt) {
  block_ids = 20 ∷ 21 ∷ 22 ∷ 23 ∷ 24 ∷ [];
  num_computed_tokens = 10;
}

generate_store_op-Stores_example : Stores 4 2 2 computed (generate_store_op 4 2 computed)
generate_store_op-Stores_example = generate_store_op-Stores 4 2 2 geometry computed 0 refl

generate_retrieve_op-Retrieves_example :
    (op : LoadStoreOp) × (generate_retrieve_op 4 2 loading
      ≡ (some op, record loading { load_pending = false }))
    × Retrieves 4 2 2 2 loading op
generate_retrieve_op-Retrieves_example =
    generate_retrieve_op-Retrieves 4 2 2 2 geometry loading loading-IsLoading

free_until-retrieve_example :
    (op : LoadStoreOp) × (generate_retrieve_op 4 2 loading
      ≡ (some op, record loading { load_pending = false }))
    × (free_until 4 loading * 4 ≡ op.start)
    × (free_until 4 loading + (op.end - op.start) / 4 ≡ loading.lmcache_hits / 4)
    × (op.end ≡ loading.lmcache_hits)
free_until-retrieve_example = free_until-retrieve 4 2 2 2 geometry loading loading-IsLoading

abbrev events : List Event
events =
    is_new (20 ∷ 21 ∷ []) 0
    ∷ scheduled 4
    ∷ is_cached (some (22 ∷ 23 ∷ 24 ∷ [])) false 4
    ∷ scheduled 6
    ∷ []

run-Tiles_example :
    Tiles 4 2 2 0
      (run 4 2 events (new_tracker prompt)).0
      (run 4 2 events (new_tracker prompt)).1.num_stored_tokens
run-Tiles_example = run-Tiles 4 2 2 geometry events (new_tracker prompt) 0 refl

abbrev idle : Connector
idle = record {
  chunk_size = 4;
  block_size = 2;
  model = 5 ∷ [];
  world_size = 1;
  trackers = [];
  sent = [];
}

abbrev request : Request
request = record { request_id = 7 ∷ []; all_token_ids = prompt; prompt_token_ids = prompt }

poll_many-expected_example :
    ((poll_many request 0 (pending ∷ hits 8 ∷ pending ∷ []) idle).0
      ≡ expected 0 (pending ∷ hits 8 ∷ pending ∷ []))
    × ((poll_many request 0 (pending ∷ hits 8 ∷ pending ∷ []) idle).1.sent
        ≡ idle.sent ++ announced request idle)
poll_many-expected_example = poll_many-expected request 0 pending (hits 8 ∷ pending ∷ []) idle refl
