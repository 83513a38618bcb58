-- ===== src/Tests/Server.antt =====
-- A server with one instance, on a pool of twelve bytes, with a digest that is the identity.
use mini_llmcache.Base.{
  ◌≡◌, refl, sym, subst, ◌∙◌, some_inj, [], ◌∷◌, List, ◌++◌, some, true, false, arith, ok, raised,
  value_error, Distinct, ◌⊎◌, map, elem, ap, ℕ_discrete, ◌&&◌, not,
}
use mini_llmcache.Base.Dict.{lookup, contains}
use mini_llmcache.Protocol.{Bytes, ChunkKey, key_dec, LoadStoreOp, TransferPayload, RegisterPayload}
use mini_llmcache.L1.Memory
use mini_llmcache.L1.Memory.{MemoryObj}
use mini_llmcache.L1.Manager.{L1Manager}
use mini_llmcache.L1.Manager
use mini_llmcache.L1.Manager.Valid.{IsValid}
use mini_llmcache.L1.Manager.Place.{fresh}
use mini_llmcache.L1.Manager.Call.Reach.{init-IsValid}
use mini_llmcache.Utils.Hasher.{chunk_hashes, hash_loop, hash_one, none_hash, pack, be_bytes}
use mini_llmcache.Server.{
  register, CacheServer, EngineInstance, store, retrieve, store_chunks, op_keys, view_bytes,
}
use mini_llmcache.Server.Stores.{Stores, store_chunks-Stores}
use mini_llmcache.Server.Refuses.{store_chunks-raised}
use mini_llmcache.Server.RoundTrip.{retrieve-store}
use mini_llmcache.Server.Keeps.{HasDistinctKeys}
use mini_llmcache.Server.Steps.{init, handles, registers, stores, evicts, step, dispatch}
use mini_llmcache.Server.Sound.{Reach, start, later, Reach-IsSound}
use mini_llmcache.Tests.Data.{key_c, cache, cache-IsValid, c-Distinct}

store_chunks-Stores_example :
    (m' : L1Manager) × (store_chunks (key_c ∷ []) 4 ((1 ∷ 2 ∷ 3 ∷ 4 ∷ []) ∷ []) cache ≡ (ok tt, m'))
    × Stores (key_c ∷ []) ((1 ∷ 2 ∷ 3 ∷ 4 ∷ []) ∷ []) cache m'
store_chunks-Stores_example =
    store_chunks-Stores cache (key_c ∷ []) 4 ((1 ∷ 2 ∷ 3 ∷ 4 ∷ []) ∷ []) cache-IsValid c-Distinct
      (refl, tt)

c_is_missing : contains key_dec key_c cache.entries ≡ false
c_is_missing = ground arith

-- The chunk is a byte too short.
store_chunks-raised_example :
    ((j : ChunkKey)
      → lookup key_dec j (store_chunks (key_c ∷ []) 4 ((1 ∷ 2 ∷ 3 ∷ []) ∷ []) cache).1.entries
        ≡ lookup key_dec j cache.entries)
    ⊎ (((store_chunks (key_c ∷ []) 4 ((1 ∷ 2 ∷ 3 ∷ []) ∷ []) cache).0 ≡ raised value_error)
        × ((j : ChunkKey)
            → (elem key_dec j (key_c ∷ []) && not (contains key_dec j cache.entries)) ≡ true
            → (obj : MemoryObj) × (lookup key_dec j
                  (store_chunks (key_c ∷ []) 4 ((1 ∷ 2 ∷ 3 ∷ []) ∷ []) cache).1.entries
                ≡ some (fresh false obj))))
store_chunks-raised_example =
    store_chunks-raised cache (key_c ∷ []) 4 ((1 ∷ 2 ∷ 3 ∷ []) ∷ []) 0 key_c (1 ∷ 2 ∷ 3 ∷ [])
      cache-IsValid c-Distinct refl refl (λ h. absurd (omega (arith, h))) c_is_missing

abbrev digest : Bytes → Bytes
digest bs = bs

abbrev instance_7 : EngineInstance
instance_7 = record { rank = 0; model = 2 ∷ []; world_size = 1; block_size = 1; chunk_nbytes = 4 }

abbrev op : LoadStoreOp
op = record { token_ids = 5 ∷ []; block_ids = 0 ∷ []; start = 0; end = 1; skip_first_n_tokens = 0 }

abbrev payload : TransferPayload
payload = record {
  request_id = 7 ∷ [];
  instance_id = 7;
  op = op;
  chunks = (1 ∷ 2 ∷ 3 ∷ 4 ∷ []) ∷ [];
}

abbrev server : CacheServer
server = record {
  chunk_size = 1;
  sm = record {
    l1 = Manager.init (Memory.init 12 (λ x. x));
    l2s = [];
    jobs = [];
    hits = [];
    held = [];
  };
  deployments = [];
  instances = (7, instance_7) ∷ [];
}

abbrev key_of : EngineInstance → ChunkKey
key_of i = record {
  chunk_hash = digest (none_hash digest ++ be_bytes 5);
  model = i.model;
  rank = i.rank;
}

one_key : (i : EngineInstance) → op_keys digest 1 op i ≡ some (key_of i ∷ [])
unfolding op_keys chunk_hashes hash_loop hash_one pack be_bytes none_hash
one_key i = refl

retrieve-store_example :
    (c' : CacheServer) × (store digest payload server ≡ (ok true, c'))
    × IsValid c'.sm.l1
    × (((j : ChunkKey) → lookup key_dec j c'.sm.l1.entries ≡ lookup key_dec j server.sm.l1.entries)
        ⊎ ((objs : List MemoryObj) × (retrieve digest payload c'
              ≡ (ok (key_of instance_7 ∷ [], objs), c'))
            × (map (view_bytes c') objs ≡ payload.chunks)))
unfolding ℕ_discrete Manager.init
retrieve-store_example =
    retrieve-store digest payload payload server instance_7 (key_of instance_7 ∷ []) refl
      (one_key instance_7) refl (init-IsValid 12 (λ x. x)) (refl, tt) (refl, tt) (refl, tt) refl
      refl refl

abbrev registration : RegisterPayload
registration = record {
  instance_id = 7;
  model = 2 ∷ [];
  rank = 0;
  world_size = 1;
  block_size = 1;
  chunk_nbytes = 4;
}

one_key_distinct : (c : CacheServer) → c.chunk_size ≡ 1 → HasDistinctKeys digest payload c
one_key_distinct c size i keys known asked =
    subst (Distinct key_dec)
      (some_inj (sym (one_key i) ∙ sym (ap (λ n. op_keys digest n op i) size) ∙ asked)) (refl, tt)

abbrev registered : CacheServer
registered = step digest (handles (registers registration)) (init 1 12 (λ x. x) [])

registered_size : registered.chunk_size ≡ 1
unfolding step init register dispatch
registered_size = refl

begun : Reach digest 1 12 (λ x. x) [] registered
begun = later start (handles (registers registration)) tt

-- A registration, a store and a round of the eviction thread.
Reach-IsSound_example :
    IsValid (step digest evicts (step digest (handles (stores payload)) registered)).sm.l1
Reach-IsSound_example = Reach-IsSound digest (
    later (later begun (handles (stores payload)) (one_key_distinct registered registered_size))
      evicts tt)
