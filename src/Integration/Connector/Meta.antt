-- ===== src/Integration/Connector/Meta.antt =====
-- `build_connector_meta` of mini_llmcache/integration/vllm_connector.py: the loops over vLLM's
-- scheduler output. The parallel lists of `scheduled_cached_reqs`, with the test of
-- `resumed_req_ids`, are one list of records.
use mini_llmcache.Base.{ℕ, ◌+◌, List, [], ◌∷◌, ◌++◌, Option, none, some, Bool, if◌then◌else◌}
use mini_llmcache.Base.Dict.{Dict, lookup, insert}
use mini_llmcache.Protocol.{Text, text_dec, LoadStoreOp, ReqMeta, retrieve, store}
use mini_llmcache.Integration.Connector.{
  RequestTracker, Connector, generate_retrieve_op, generate_store_op,
}

-- An element of `scheduled_new_reqs`; `block_ids` is its first group.
pub record NewReq : Type 0 where
  pub req_id : Text
  pub block_ids : List ℕ
  pub num_computed_tokens : ℕ

-- The `i`-th element of each list of `scheduled_cached_reqs`.
pub record CachedReq : Type 0 where
  pub req_id : Text
  pub new_blocks : Option (List ℕ)
  pub num_computed_tokens : ℕ
  pub resumed : Bool

pub record SchedulerOutput : Type 0 where
  pub scheduled_new_reqs : List NewReq
  pub scheduled_cached_reqs : List CachedReq
  pub num_scheduled_tokens : List (Text × ℕ)

-- `metas.append(ReqMeta(req_id, Req.RETRIEVE, op))`, if there is an operation.
unfoldable pub retrieve_meta : Text → Option LoadStoreOp → List ReqMeta → List ReqMeta
retrieve_meta id none metas = metas
retrieve_meta id (some op) metas = record { request_id = id; req = retrieve; op = op } ∷ metas

-- The first loop, over `self.trackers.items()`.
unfoldable pub retrieve_metas :
    ℕ → ℕ → Dict Text RequestTracker → List ReqMeta × Dict Text RequestTracker
unfolding retrieve_meta
retrieve_metas chunk_size block_size [] = ([], [])
retrieve_metas chunk_size block_size ((id, t) ∷ trackers) =
    let (op, t') = generate_retrieve_op chunk_size block_size t in
    let (metas, trackers') = retrieve_metas chunk_size block_size trackers in
    (retrieve_meta id op metas, (id, t') ∷ trackers')

unfoldable pub on_new : List ℕ → ℕ → RequestTracker → RequestTracker
on_new block_ids computed t = record t { block_ids = block_ids; num_computed_tokens = computed }

-- A resumed request has its block table rebuilt from scratch.
unfoldable pub on_cached : Option (List ℕ) → Bool → ℕ → RequestTracker → RequestTracker
on_cached none resumed computed t = record t { num_computed_tokens = computed }
on_cached (some blocks) resumed computed t = record t {
  block_ids = if resumed then blocks else t.block_ids ++ blocks;
  num_computed_tokens = computed;
}

unfoldable pub on_scheduled : ℕ → ℕ → ℕ → RequestTracker → Option LoadStoreOp × RequestTracker
on_scheduled chunk_size block_size scheduled t =
    generate_store_op chunk_size block_size
      (record t { num_computed_tokens = t.num_computed_tokens + scheduled })

-- A change of the tracker of a request, if it has one.
unfoldable pub update :
    (RequestTracker → RequestTracker) → Text → Dict Text RequestTracker → Dict Text RequestTracker
update f id trackers = elim (lookup text_dec id trackers) [
  | none ↦ trackers
  | some t ↦ insert text_dec id (f t) trackers
]

unfoldable pub new_reqs : List NewReq → Dict Text RequestTracker → Dict Text RequestTracker
unfolding update on_new
new_reqs [] trackers = trackers
new_reqs (r ∷ rs) trackers =
    new_reqs rs (update (on_new r.block_ids r.num_computed_tokens) r.req_id trackers)

unfoldable pub cached_reqs : List CachedReq → Dict Text RequestTracker → Dict Text RequestTracker
unfolding update on_cached
cached_reqs [] trackers = trackers
cached_reqs (r ∷ rs) trackers =
    cached_reqs rs
      (update (on_cached r.new_blocks r.resumed r.num_computed_tokens) r.req_id trackers)

unfoldable pub store_meta : Text → Option LoadStoreOp → List ReqMeta
store_meta id none = []
store_meta id (some op) = record { request_id = id; req = store; op = op } ∷ []

-- One round of the last loop.
unfoldable pub schedule_one :
    ℕ → ℕ → Text × ℕ → Dict Text RequestTracker → List ReqMeta × Dict Text RequestTracker
unfolding on_scheduled store_meta
schedule_one chunk_size block_size (id, scheduled) trackers = elim (lookup text_dec id trackers) [
  | none ↦ ([], trackers)
  | some t ↦
      let (op, t') = on_scheduled chunk_size block_size scheduled t in
      (store_meta id op, insert text_dec id t' trackers)
]

unfoldable pub schedule_all :
    ℕ → ℕ → List (Text × ℕ) → Dict Text RequestTracker → List ReqMeta × Dict Text RequestTracker
unfolding schedule_one
schedule_all chunk_size block_size [] trackers = ([], trackers)
schedule_all chunk_size block_size (s ∷ ss) trackers =
    let (metas, trackers') = schedule_one chunk_size block_size s trackers in
    let (more, trackers'') = schedule_all chunk_size block_size ss trackers' in
    (metas ++ more, trackers'')

unfoldable pub build_connector_meta : SchedulerOutput → Connector → List ReqMeta × Connector
unfolding retrieve_metas new_reqs cached_reqs schedule_all
build_connector_meta out c =
    let (loads, trackers) = retrieve_metas c.chunk_size c.block_size c.trackers in
    let trackers' =
      cached_reqs out.scheduled_cached_reqs (new_reqs out.scheduled_new_reqs trackers) in
    let (stores, trackers'') =
      schedule_all c.chunk_size c.block_size out.num_scheduled_tokens trackers' in
    (loads ++ stores, record c { trackers = trackers'' })
