-- ===== src/Server/Steps.antt =====
-- The cache server of mini_llmcache/server.py as a whole: a new server, what it does with a request,
-- and the rounds of the background threads of its storage. Each is one step from beginning to end.
use mini_llmcache.Base.{
  ℕ, List, [], ◌∷◌, Option, Bool, true, Action, Outcome, ok, raised, pure, ◌>>=◌,
}
use mini_llmcache.Protocol.{
  Text, Bytes, ChunkKey, RegisterPayload, LookupPayload, QueryPayload, TransferPayload,
  FreeLocksPayload, AckPayload,
}
use mini_llmcache.L1.Memory.{MemoryObj}
use mini_llmcache.L2.{Adapter}
use mini_llmcache.Storage.{Storage, Job, on_l1}
use mini_llmcache.Storage
use mini_llmcache.Storage.Prefetch.{prefetch}
use mini_llmcache.Storage.Evict.{evict_round, store_round}
use mini_llmcache.Server.{
  CacheServer, get_chunk_size, register, unregister, lookup, query, store, retrieve, free_locks,
  end_session, ack, post_send, on_sm, on_l1',
}

-- `CacheServer(bind_url, chunk_size, capacity_bytes, l2s)`, on a pool with these bytes.
unfoldable pub init : ℕ → ℕ → (ℕ → ℕ) → List Adapter → CacheServer
init chunk_size capacity_bytes contents l2s = record {
  chunk_size = chunk_size;
  sm = Storage.init capacity_bytes contents l2s;
  deployments = [];
  instances = [];
}

-- A request, with the payload that its handler takes.
pub data Request : Type 0 where
  asks_chunk_size : Request
  registers : RegisterPayload → Request
  unregisters : ℕ → Request
  looks_up : LookupPayload → Request
  queries : QueryPayload → Request
  stores retrieves : TransferPayload → Request
  frees_locks : FreeLocksPayload → Request
  ends_session : Text → Request
  acks : AckPayload → Request

-- What the handlers return; the views of a retrieve are still to be sent.
pub data Answer : Type 0 where
  size : ℕ → Answer
  flag : Bool → Answer
  status : Option ℕ → Answer
  views : List ChunkKey → List MemoryObj → Answer

abbrev with_status : Outcome (Option ℕ) → Outcome Answer
with_status (ok n) = ok (status n)
with_status (raised e) = raised e

-- `self.prefetch(*self.jobs.get())`, which waits if there is no job.
unfoldable pub prefetch_next : Action Storage (Unit {0})
prefetch_next s = elim s.jobs [
  | [] ↦ (ok tt, s)
  | job ∷ jobs ↦ prefetch job.request_id job.keys job.chunk_nbytes (record s { jobs = jobs })
]

-- What changes the server: a request, the end of sending the views of a retrieve, or a round of the
-- prefetcher, of the eviction thread or of the write-back thread.
pub data Step : Type 0 where
  handles : Request → Step
  has_sent : Text → List ChunkKey → Step
  prefetches evicts writes_back : Step

module _ (blake3 : Bytes → Bytes) where
  -- The handler of a request, as they are registered at the message queue.
  unfoldable pub dispatch : Request → Action CacheServer Answer
  dispatch asks_chunk_size c = (ok (size (get_chunk_size c)), c)
  dispatch (registers p) c = (ok (flag true), register p c)
  dispatch (unregisters instance_id) c =
      let (known, c') = unregister instance_id c in (ok (flag known), c')
  dispatch (looks_up p) c = (lookup blake3 p >>= λ b. pure (flag b)) c
  dispatch (queries p) c = (with_status (query p c), c)
  dispatch (stores p) c = (store blake3 p >>= λ b. pure (flag b)) c
  dispatch (retrieves p) c = (retrieve blake3 p >>= λ v. pure (views v.0 v.1)) c
  dispatch (frees_locks p) c = (free_locks p >>= λ b. pure (flag b)) c
  dispatch (ends_session id) c = (end_session id >>= λ b. pure (flag b)) c
  dispatch (acks p) c = (ok (flag (ack p c)), c)

  -- The server after a step; the handler's exceptions are answered.
  unfoldable pub step : Step → CacheServer → CacheServer
  unfolding dispatch prefetch_next
  step (handles r) c = (dispatch r c).1
  step (has_sent id keys) c = (post_send id keys c).1
  step prefetches c = (on_sm prefetch_next c).1
  step evicts c = (on_l1' evict_round c).1
  step writes_back c = (on_sm store_round c).1
