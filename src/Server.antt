-- ===== src/Server.antt =====
-- mini_llmcache/server.py: the handlers of the cache server. The printing of statistics is left
-- out. The digest function of blake3 is a parameter. A handler's answer or exception is an
-- `Outcome`.
pub mod Blobs
pub mod Writable
pub mod Answers
pub mod Stores
pub mod Refuses
pub mod RoundTrip
pub mod Keeps
pub mod Steps
pub mod Sound
use mini_llmcache.Base.{
  ℕ, zero, suc, ◌+◌, ◌*◌, ◌/◌, List, [], ◌∷◌, ◌++◌, map, Option, none, some, Bool, true, false,
  Action, Outcome, ok, raised, key_error, struct_error, zero_division_error, pure, raise, or_raise,
  gets, modify, ◌>>=◌, ◌>>◌, if◌then◌else◌, ◌==◌, take, drop, for_each, ℕ_discrete,
}
use mini_llmcache.Base.Dict.{Dict, insert, erase, contains}
use mini_llmcache.Base.Dict
use mini_llmcache.Protocol.{
  Text, Bytes, text_dec, ChunkKey, key_dec, LoadStoreOp, RegisterPayload, LookupPayload,
  TransferPayload, AckPayload, QueryPayload, FreeLocksPayload,
}
use mini_llmcache.L1.Memory.{MemoryObj, read_bytes, write_obj}
use mini_llmcache.L1.Manager.{L1Manager, Reserved, reserve_write, finish_write, read, promote}
use mini_llmcache.Storage.{Storage, on_l1}
use mini_llmcache.Storage.Prefetch
use mini_llmcache.Utils.Hasher.{chunk_hashes}

pub record EngineInstance : Type 0 where
  pub rank : ℕ
  pub model : Text
  pub world_size : ℕ
  pub block_size : ℕ
  pub chunk_nbytes : ℕ

-- A deployment is a model and a world size, here with the size first.
abbrev pub Deployment : Type 0
Deployment = List ℕ

abbrev pub deployment : Text → ℕ → Deployment
deployment model world_size = world_size ∷ model

pub record CacheServer : Type 0 where
  pub chunk_size : ℕ
  pub sm : Storage
  pub deployments : Dict Deployment ℕ
  pub instances : Dict ℕ EngineInstance

-- A call of a method of `self.sm` or `self.sm.l1`.
abbrev pub on_sm : {A : Type 0} → Action Storage A → Action CacheServer A
on_sm f c = let (r, s) = f c.sm in (r, record c { sm = s })

abbrev pub on_l1' : {A : Type 0} → Action L1Manager A → Action CacheServer A
on_l1' f = on_sm (on_l1 f)

unfoldable pub get_chunk_size : CacheServer → ℕ
get_chunk_size c = c.chunk_size

unfoldable pub register : RegisterPayload → CacheServer → CacheServer
register p c = record c {
  deployments = insert text_dec (deployment p.model p.world_size) p.chunk_nbytes c.deployments;
  instances =
      insert ℕ_discrete p.instance_id
        (record {
          rank = p.rank;
          model = p.model;
          world_size = p.world_size;
          block_size = p.block_size;
          chunk_nbytes = p.chunk_nbytes;
        })
        c.instances;
}

unfoldable pub unregister : ℕ → CacheServer → Bool × CacheServer
unregister instance_id c = (
  contains ℕ_discrete instance_id c.instances,
  record c { instances = erase ℕ_discrete instance_id c.instances },
)

-- `[ChunkKey(h, model, r) for r in ranks]`
unfoldable pub rank_keys : Bytes → Text → List ℕ → List ChunkKey
rank_keys h model [] = []
rank_keys h model (r ∷ ranks) =
    record { chunk_hash = h; model = model; rank = r } ∷ rank_keys h model ranks

unfoldable pub keys_for : List Bytes → Text → List ℕ → List ChunkKey
unfolding rank_keys
keys_for [] model ranks = []
keys_for (h ∷ hashes) model ranks = rank_keys h model ranks ++ keys_for hashes model ranks

-- `range(start, start + count)`
unfoldable pub ranks_from : ℕ → ℕ → List ℕ
ranks_from start zero = []
ranks_from start (suc count) = start ∷ ranks_from (start + 1) count

-- `chunk_hashes` raises on a chunk size of 0, by which it divides, and else on a token that does not
-- pack into 32 bits.
abbrev pub hashed : Option (List ChunkKey) → Action CacheServer (List ChunkKey)
hashed none c = (raised (if c.chunk_size == 0 then zero_division_error else struct_error), c)
hashed (some keys) c = (ok keys, c)

module _ (blake3 : Bytes → Bytes) where
  unfoldable pub op_keys : ℕ → LoadStoreOp → EngineInstance → Option (List ChunkKey)
  unfolding keys_for
  op_keys chunk_size op i = elim (chunk_hashes blake3 (take op.end op.token_ids) chunk_size) [
    | none ↦ none
    | some hashes ↦ some (keys_for (drop (op.start / chunk_size) hashes) i.model (i.rank ∷ []))
  ]

  -- The keys that a lookup asks for: none, if the deployment is not known.
  unfoldable pub lookup_keys : ℕ → Option ℕ → LookupPayload → Option (List ChunkKey)
  unfolding keys_for ranks_from
  lookup_keys chunk_size none p = some []
  lookup_keys chunk_size (some chunk_nbytes) p = elim (chunk_hashes blake3 p.token_ids chunk_size) [
    | none ↦ none
    | some hashes ↦ some (keys_for hashes p.model (ranks_from 0 p.world_size))
  ]

  unfoldable pub lookup : LookupPayload → Action CacheServer Bool
  unfolding lookup_keys
  lookup p = do
    chunk_nbytes ← gets (λ c. Dict.lookup text_dec (deployment p.model p.world_size) c.deployments)
    keys ← hashed (← gets (λ c. lookup_keys c.chunk_size chunk_nbytes p))
    modify (λ c. record c { sm = Prefetch.start_session p.request_id keys chunk_nbytes c.sm })
    pure true

-- `enumerate(keys)`: the chunks that were reserved and that the payload brings.
unfoldable pub writable :
    List ChunkKey → List Bytes → Reserved → List (ChunkKey × MemoryObj × Bytes)
writable (key ∷ keys) (blob ∷ chunks) reserved = elim (Dict.lookup key_dec key reserved) [
  | none ↦ writable keys chunks reserved
  | some found ↦ elim found [
    | none ↦ writable keys chunks reserved
    | some obj ↦ (key, obj, blob) ∷ writable keys chunks reserved
  ]
]
writable [] chunks reserved = []
writable (key ∷ keys) [] reserved = []

-- `obj.byte_array[:] = blob`
unfoldable pub write_blob : ChunkKey × MemoryObj × Bytes → Action L1Manager (Unit {0})
write_blob (key, obj, blob) m =
    let (r, a) = write_obj obj blob m.allocator in (r, record m { allocator = a })

-- The handler `store`, once the keys and the instance are known.
unfoldable pub store_chunks : List ChunkKey → ℕ → List Bytes → Action L1Manager (Unit {0})
unfolding writable write_blob
store_chunks keys chunk_nbytes chunks = do
  written ← (λ m.
      let (reserved, m') = reserve_write keys chunk_nbytes false m in
      (ok (writable keys chunks reserved), m'))
  for_each write_blob written
  finish_write (map (λ w. w.0) written)

module _ (blake3 : Bytes → Bytes) where
  unfoldable pub store : TransferPayload → Action CacheServer Bool
  unfolding store_chunks
  store p = do
    i ← or_raise (← gets (λ c. Dict.lookup ℕ_discrete p.instance_id c.instances)) key_error
    keys ← hashed (← gets (λ c. op_keys blake3 c.chunk_size p.op i))
    on_l1' (store_chunks keys i.chunk_nbytes p.chunks)
    pure true

  -- The answer of `retrieve` before it is sent: the views of the chunks. The line that it prints
  -- divides by the world size.
  unfoldable pub retrieve : TransferPayload → Action CacheServer (List ChunkKey × List MemoryObj)
  retrieve p = do
    i ← or_raise (← gets (λ c. Dict.lookup ℕ_discrete p.instance_id c.instances)) key_error
    keys ← hashed (← gets (λ c. op_keys blake3 c.chunk_size p.op i))
    objs ← on_l1' (read keys)
    if i.world_size == 0 then raise zero_division_error else pure (keys, objs)

-- The bytes that a view has when it is sent.
unfoldable pub view_bytes : CacheServer → MemoryObj → Bytes
view_bytes c obj = read_bytes c.sm.l1.allocator.pool obj.offset obj.nbytes

-- `post_send`, after the chunks have gone out.
unfoldable pub post_send : Text → List ChunkKey → Action CacheServer (Unit {0})
post_send id keys = do
  on_l1' (λ m. (ok tt, promote keys m))
  on_sm (Prefetch.release id (some keys))

-- `None` while the lookup is pending; a world size of 0 raises ZeroDivisionError.
unfoldable pub query : QueryPayload → CacheServer → Outcome (Option ℕ)
query p c = elim (Prefetch.query p.request_id c.sm) [
  | none ↦ ok none
  | some (l1_keys, l2_keys) ↦
      if p.world_size == 0
      then raised zero_division_error
      else ok (some ((l1_keys + l2_keys) / p.world_size * c.chunk_size))
]

unfoldable pub free_locks : FreeLocksPayload → Action CacheServer Bool
free_locks p = do
  on_sm (Prefetch.release_first p.request_id (p.num_chunks * p.world_size))
  pure true

unfoldable pub end_session : Text → Action CacheServer Bool
end_session id = do on_sm (Prefetch.end_session id); pure true

-- The payload is only printed.
unfoldable pub ack : AckPayload → CacheServer → Bool
ack p c = true
