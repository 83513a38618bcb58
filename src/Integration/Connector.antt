-- ===== src/Integration/Connector.antt =====
-- mini_llmcache/integration/vllm_connector.py, the scheduler's side: the per-request tracker and
-- the hooks that turn vLLM's schedule into LOOKUP, RETRIEVE and STORE operations. What vLLM hands
-- over is a parameter, as records of the attributes that the hooks read; what the cache server
-- answers to a call is an argument of the hook. Messages that are submitted without waiting are
-- collected in `sent`, the oldest first. The chunk size and the block size are positive.
pub mod Blocks
pub mod Store
pub mod Retrieve
pub mod Meta
pub mod Tiling
pub mod Hooks
use mini_llmcache.Base.{
  ℕ, zero, suc, ◌+◌, ◌-◌, ◌*◌, ◌/◌, min, List, [], ◌∷◌, ◌++◌, Option, none, some, Bool, true, false,
  not, ltb, ◌==◌, length, slice, take, drop, if◌then◌else◌,
}
use mini_llmcache.Base.Dict.{Dict, lookup, insert, erase}
use mini_llmcache.Protocol.{
  Text, text_dec, Req, retrieve, store, LoadStoreOp, ReqMeta, LookupPayload, FreeLocksPayload,
}

pub record RequestTracker : Type 0 where
  pub token_ids : List ℕ
  pub lmcache_hits : ℕ
  pub vllm_hits : ℕ
  pub block_ids : List ℕ
  pub num_computed_tokens : ℕ
  pub num_stored_tokens : ℕ
  pub lookup_resolved : Bool
  pub load_pending : Bool
  pub alloc_seen : Bool

pub data Message : Type 0 where
  lookup_sent : LookupPayload → Message
  free_locks_sent : FreeLocksPayload → Message
  end_session_sent : Text → Message

pub record Connector : Type 0 where
  pub chunk_size : ℕ
  pub block_size : ℕ
  pub model : Text
  pub world_size : ℕ
  pub trackers : Dict Text RequestTracker
  pub sent : List Message

-- The attributes of vLLM's `Request` that the hooks read.
pub record Request : Type 0 where
  pub request_id : Text
  pub all_token_ids : List ℕ
  pub prompt_token_ids : List ℕ

-- `RequestTracker(request.all_token_ids)`
abbrev pub new_tracker : List ℕ → RequestTracker
new_tracker token_ids = record {
  token_ids = token_ids;
  lmcache_hits = 0;
  vllm_hits = 0;
  block_ids = [];
  num_computed_tokens = 0;
  num_stored_tokens = 0;
  lookup_resolved = false;
  load_pending = false;
  alloc_seen = false;
}

-- ---- op generation

unfoldable pub generate_retrieve_op : ℕ → ℕ → RequestTracker → Option LoadStoreOp × RequestTracker
generate_retrieve_op chunk_size block_size t =
    if not t.load_pending
    then (none, t)
    else let start = t.vllm_hits / chunk_size * chunk_size in
      let end = t.lmcache_hits in
      (
        some (record {
          token_ids = take end t.token_ids;
          block_ids = slice (start / block_size) (end / block_size) t.block_ids;
          start = start;
          end = end;
          skip_first_n_tokens = t.vllm_hits - start;
        }),
        record t { load_pending = false },
      )

-- `available`
unfoldable pub available : ℕ → RequestTracker → ℕ
available block_size t =
    min (length t.token_ids) (min (length t.block_ids * block_size) t.num_computed_tokens)

-- Python's quotient of a negative number is negative, and `-` stops at 0 here: on both sides the
-- test `num_chunks <= 0` then holds.
unfoldable pub generate_store_op : ℕ → ℕ → RequestTracker → Option LoadStoreOp × RequestTracker
unfolding available
generate_store_op chunk_size block_size t =
    let num_chunks = (available block_size t - t.num_stored_tokens) / chunk_size in
    if num_chunks == 0
    then (none, t)
    else let start = t.num_stored_tokens in
      let end = start + num_chunks * chunk_size in
      (
        some (record {
          token_ids = take end t.token_ids;
          block_ids = slice (start / block_size) (end / block_size) t.block_ids;
          start = start;
          end = end;
          skip_first_n_tokens = 0;
        }),
        record t { num_stored_tokens = end },
      )

-- ---- vLLM hooks

-- What the call QUERY_PREFETCH_STATUS comes to: an exception, `None`, or the number of hit tokens.
pub data Reply : Type 0 where
  fails : Reply
  pending : Reply
  hits : ℕ → Reply

-- `client.submit`
abbrev pub submit : Message → Connector → Connector
submit m c = record c { sent = c.sent ++ (m ∷ []) }

abbrev pub set_tracker : Text → RequestTracker → Connector → Connector
set_tracker id t c = record c { trackers = insert text_dec id t c.trackers }

-- The hook's end: the call, and what is made of its reply.
unfoldable pub poll : Text → RequestTracker → ℕ → Reply → Connector → (Option ℕ × Bool) × Connector
poll id t num_computed_tokens fails c =
    ((some 0, false), set_tracker id (record t { lookup_resolved = true }) c)
poll id t num_computed_tokens pending c = ((none, true), set_tracker id t c)
poll id t num_computed_tokens (hits n) c = (
  if ltb num_computed_tokens n then (some (n - num_computed_tokens), true) else (some 0, false),
  set_tracker id
      (record t {
        lookup_resolved = true;
        lmcache_hits = n;
        vllm_hits = num_computed_tokens;
        num_stored_tokens = n;
      })
      c,
)

-- The LOOKUP for a request that is new: whole chunks of the prompt only.
unfoldable pub lookup_message : Request → Connector → Message
lookup_message r c = lookup_sent (record {
  request_id = r.request_id;
  token_ids = take (length r.prompt_token_ids / c.chunk_size * c.chunk_size) r.prompt_token_ids;
  model = c.model;
  world_size = c.world_size;
})

unfoldable pub get_num_new_matched_tokens :
    Request → ℕ → Reply → Connector → (Option ℕ × Bool) × Connector
unfolding poll lookup_message
get_num_new_matched_tokens r num_computed_tokens reply c =
    elim (lookup text_dec r.request_id c.trackers) [
      | none ↦
          poll r.request_id (new_tracker r.all_token_ids) num_computed_tokens reply
            (submit (lookup_message r c) c)
      | some t ↦
          if t.lookup_resolved
          then ((some 0, false), c)
          else poll r.request_id t num_computed_tokens reply c
    ]

-- `free_until`
unfoldable pub free_until : ℕ → RequestTracker → ℕ
free_until chunk_size t =
    let lmcache_chunks = t.lmcache_hits / chunk_size in
    if t.load_pending then min (t.vllm_hits / chunk_size) lmcache_chunks else lmcache_chunks

-- The tracker after the new blocks, before the first-allocation test.
unfoldable pub with_blocks : List ℕ → ℕ → RequestTracker → RequestTracker
with_blocks group_blocks num_external_tokens t = record t {
  block_ids = t.block_ids ++ drop (length t.block_ids) group_blocks;
  load_pending = if ltb 0 num_external_tokens then true else t.load_pending;
}

-- The first allocation of a request.
unfoldable pub first_alloc : Text → RequestTracker → Connector → Connector
unfolding free_until
first_alloc id t c =
    let c' = set_tracker id (record t { alloc_seen = true }) c in
    if free_until c.chunk_size t == 0
    then c'
    else submit
        (free_locks_sent (record {
          request_id = id;
          num_chunks = free_until c.chunk_size t;
          world_size = c.world_size;
        }))
        c'

unfoldable pub update_state_after_alloc : Text → List ℕ → ℕ → Connector → Connector
unfolding with_blocks first_alloc
update_state_after_alloc id group_blocks num_external_tokens c =
    elim (lookup text_dec id c.trackers) [
      | none ↦ c
      | some t ↦
          let t' = with_blocks group_blocks num_external_tokens t in
          if t.alloc_seen then set_tracker id t' c else first_alloc id t' c
    ]

unfoldable pub request_finished : Text → Connector → Connector
request_finished id c =
    submit (end_session_sent id) (record c { trackers = erase text_dec id c.trackers })
