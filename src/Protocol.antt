-- ===== src/Protocol.antt =====
-- mini_llmcache/protocol.py: the messages between the vLLM connector and the cache server. Texts
-- are lists of code points and byte strings lists of numbers, since both are only compared, sliced
-- and joined.
use mini_llmcache.Base.{ℕ, ℕ_discrete, List}

abbrev pub Text : Type 0
Text = List ℕ

abbrev pub Bytes : Type 0
Bytes = List ℕ

pub data Req : Type 0 where
  get_chunk_size register_kv_cache unregister_kv_cache lookup query_prefetch_status : Req
  retrieve store free_lookup_locks end_session transfer_ack : Req

-- `ChunkKey`: the identity of one cacheable chunk.
pub record ChunkKey : Type 0 where
  pub chunk_hash : Bytes
  pub model : Text
  pub rank : ℕ

pub record LoadStoreOp : Type 0 where
  pub token_ids : List ℕ
  pub block_ids : List ℕ
  pub start : ℕ
  pub end : ℕ
  pub skip_first_n_tokens : ℕ

pub record ReqMeta : Type 0 where
  pub request_id : Text
  pub req : Req
  pub op : LoadStoreOp

pub record RegisterPayload : Type 0 where
  pub instance_id : ℕ
  pub model : Text
  pub rank : ℕ
  pub world_size : ℕ
  pub block_size : ℕ
  pub chunk_nbytes : ℕ

pub record LookupPayload : Type 0 where
  pub request_id : Text
  pub token_ids : List ℕ
  pub model : Text
  pub world_size : ℕ

-- The connector's timing (`elapsed`, `nbytes`) is only printed, and left out.
pub record TransferPayload : Type 0 where
  pub request_id : Text
  pub instance_id : ℕ
  pub op : LoadStoreOp
  pub chunks : List Bytes

-- Its `elapsed` is only printed, and left out.
pub record AckPayload : Type 0 where
  pub request_id : Text
  pub kind : Text
  pub nbytes : ℕ

pub record QueryPayload : Type 0 where
  pub request_id : Text
  pub world_size : ℕ

pub record FreeLocksPayload : Type 0 where
  pub request_id : Text
  pub num_chunks : ℕ
  pub world_size : ℕ

unfoldable pub text_dec : Discrete Text
text_dec = hlevel ℕ_discrete

unfoldable pub key_dec : Discrete ChunkKey
key_dec = hlevel ℕ_discrete

unfoldable pub req_dec : Discrete Req
req_dec = hlevel
