-- ===== src/Integration/Worker.antt =====
-- mini_llmcache/integration/vllm_connector.py, the worker's side: the hooks that run the queued
-- operations and report the transfers that are complete; with `DeviceFuture` of
-- mini_llmcache/l0/transfer.py. A future and an event are numbers, and what has become of them is
-- an argument. The transfer engine is a parameter: what `to_host` and `from_host` come to.
pub mod Finished
pub mod Register
use mini_llmcache.Base.{
  ℕ, suc, ◌+◌, ◌*◌, ◌/◌, List, [], ◌∷◌, ◌++◌, Option, none, some, Bool, true, false, not, elem,
  if◌then◌else◌, length, Action, Outcome, ok, raised, Error, runtime_error, pure, raise, ite,
}
use mini_llmcache.Base.Dict.{Dict, lookup, insert, contains, erase}
use mini_llmcache.Protocol.{
  Text, Bytes, text_dec, Req, req_dec, retrieve, store, LoadStoreOp, ReqMeta, TransferPayload,
  AckPayload,
}

pub record DeviceFuture : Type 0 where
  pub future : ℕ
  pub done_event : Option ℕ

-- Which futures have been answered, and which events are set.
pub record Progress : Type 0 where
  pub answered : ℕ → Bool
  pub is_set : ℕ → Bool

unfoldable pub done : Progress → DeviceFuture → Bool
done p f =
    if not (p.answered f.future)
    then false
    else elim f.done_event [ none ↦ true | some event ↦ p.is_set event ]

pub data Message : Type 0 where
  store_sent : TransferPayload → Message
  retrieve_sent : TransferPayload → Message
  ack_sent : AckPayload → Message
  unregister_sent : ℕ → Message

-- `started` are the worker threads that have been started, with what they are given.
pub record Worker : Type 0 where
  pub instance_id : ℕ
  pub block_size : ℕ
  pub has_transfer : Bool
  pub store_futures : Dict Text (List DeviceFuture)
  pub load_futures : Dict Text DeviceFuture
  pub pending_sends : List Text
  pub next_future : ℕ
  pub next_event : ℕ
  pub sent : List Message
  pub started : List (Text × LoadStoreOp × ℕ × ℕ)

-- `[m for m in requests if m.req == req]`
unfoldable pub of_req : Req → List ReqMeta → List ReqMeta
of_req req [] = []
of_req req (m ∷ metas) = ite (req_dec m.req req) (m ∷ of_req req metas) (of_req req metas)

module _ (to_host : List ℕ → Outcome (List Bytes)) where
  -- One round for STORE: the bytes are copied out and sent.
  unfoldable pub submit_store : ReqMeta → Action Worker DeviceFuture
  submit_store m w = elim (to_host m.op.block_ids) [
    | raised e ↦ (raised e, w)
    | ok chunks ↦ (
      ok (record { future = w.next_future; done_event = none }),
      record w {
        next_future = suc w.next_future;
        sent =
            w.sent
            ++ (store_sent (record {
              request_id = m.request_id;
              instance_id = w.instance_id;
              op = m.op;
              chunks = chunks;
            })
                ∷ []);
      },
    )
  ]

  -- One round for RETRIEVE: the bytes are asked for, and a thread is started for the scatter.
  unfoldable pub submit_retrieve : ReqMeta → Action Worker DeviceFuture
  submit_retrieve m w = (
    ok (record { future = w.next_future; done_event = some w.next_event }),
    record w {
      next_future = suc w.next_future;
      next_event = suc w.next_event;
      sent =
          w.sent
          ++ (retrieve_sent (record {
            request_id = m.request_id;
            instance_id = w.instance_id;
            op = m.op;
            chunks = [];
          })
              ∷ []);
      started = w.started ++ ((m.request_id, m.op, w.next_future, w.next_event) ∷ []);
    },
  )

  unfoldable pub submit_one : Req → ReqMeta → Action Worker DeviceFuture
  unfolding submit_store submit_retrieve
  submit_one req m = ite (req_dec req store) (submit_store m) (submit_retrieve m)

  unfoldable pub submit_all :
      Req → List ReqMeta → Dict Text DeviceFuture → Action Worker (Dict Text DeviceFuture)
  unfolding submit_one
  submit_all req [] out w = (ok out, w)
  submit_all req (m ∷ ops) out w =
      let (r, w') = submit_one req m w in
      elim r [
        | raised e ↦ (raised e, w')
        | ok f ↦ submit_all req ops (insert text_dec m.request_id f out) w'
      ]

  unfoldable pub submit_transfers : Req → List ReqMeta → Action Worker (Dict Text DeviceFuture)
  unfolding submit_all of_req
  submit_transfers req metas w = elim (of_req req metas) [
    | [] ↦ (ok [], w)
    | m ∷ ops ↦ if w.has_transfer then submit_all req (m ∷ ops) [] w else (raised runtime_error, w)
  ]

  -- `self.load_futures.update(...)`
  unfoldable pub update_all :
      Dict Text DeviceFuture → Dict Text DeviceFuture → Dict Text DeviceFuture
  update_all [] d = d
  update_all ((id, f) ∷ out) d = update_all out (insert text_dec id f d)

  unfoldable pub start_load_kv : List ReqMeta → Action Worker (Unit {0})
  unfolding submit_transfers update_all
  start_load_kv metas w =
      let (r, w') = submit_transfers retrieve metas w in
      elim r [
        | raised e ↦ (raised e, w')
        | ok out ↦ (ok tt, record w' { load_futures = update_all out w'.load_futures })
      ]

  -- `self.store_futures.setdefault(req_id, []).append(future)`, for all of them.
  unfoldable pub append_all :
      Dict Text DeviceFuture → Dict Text (List DeviceFuture) → Dict Text (List DeviceFuture)
  append_all [] d = d
  append_all ((id, f) ∷ out) d =
      append_all out (
        insert text_dec id (elim (lookup text_dec id d) [ none ↦ [] | some fs ↦ fs ] ++ (f ∷ [])) d)

  unfoldable pub wait_for_save : List ReqMeta → Action Worker (Unit {0})
  unfolding submit_transfers append_all
  wait_for_save metas w =
      let (r, w') = submit_transfers store metas w in
      elim r [
        | raised e ↦ (raised e, w')
        | ok out ↦ (ok tt, record w' { store_futures = append_all out w'.store_futures })
      ]

-- What the thread of `_finish_load` does with its reply: the blocks are filled and acknowledged, or
-- the failure is printed; the event is set in both cases. `from_host` is given the chunks, the
-- blocks and the number of blocks to skip.
unfoldable pub finish_load :
    (List Bytes → List ℕ → ℕ → Outcome (Unit {0}))
    → ℕ
    → ℕ
    → Text
    → LoadStoreOp
    → Outcome (Option (List Bytes))
    → Option Message
finish_load from_host block_size chunk_nbytes id op (raised e) = none
finish_load from_host block_size chunk_nbytes id op (ok none) = none
finish_load from_host block_size chunk_nbytes id op (ok (some chunks)) =
    elim (from_host chunks op.block_ids (op.skip_first_n_tokens / block_size)) [
      | raised e ↦ none
      | ok _ ↦ some (
          ack_sent (record {
            request_id = id;
            kind = b'R' ∷ b'E' ∷ b'T' ∷ b'R' ∷ b'I' ∷ b'E' ∷ b'V' ∷ b'E' ∷ [];
            nbytes = length chunks * chunk_nbytes;
          }))
    ]

-- `[f for f in futures if not f.done()]`
unfoldable pub live : Progress → List DeviceFuture → List DeviceFuture
live p [] = []
live p (f ∷ fs) = if done p f then live p fs else f ∷ live p fs

-- The loop over `self.store_futures.items()`.
unfoldable pub live_stores :
    Progress → Dict Text (List DeviceFuture) → Dict Text (List DeviceFuture)
unfolding live
live_stores p [] = []
live_stores p ((id, fs) ∷ d) = elim (live p fs) [
  | [] ↦ live_stores p d
  | f ∷ more ↦ (id, f ∷ more) ∷ live_stores p d
]

-- `pending |= ids`, as lists.
unfoldable pub union : List Text → List Text → List Text
union pending [] = pending
union pending (id ∷ ids) =
    if elem text_dec id pending then union pending ids else union (pending ++ (id ∷ [])) ids

-- The requests whose entry in the dict is there, or not.
unfoldable pub in_stores : Bool → Dict Text (List DeviceFuture) → List Text → List Text
in_stores there d [] = []
in_stores there d (id ∷ ids) =
    if (if contains text_dec id d then there else not there)
    then id ∷ in_stores there d ids
    else in_stores there d ids

unfoldable pub loaded : Progress → Dict Text DeviceFuture → List Text
loaded p [] = []
loaded p ((id, f) ∷ d) = if done p f then id ∷ loaded p d else loaded p d

unfoldable pub loading : Progress → Dict Text DeviceFuture → Dict Text DeviceFuture
loading p [] = []
loading p ((id, f) ∷ d) = if done p f then loading p d else (id, f) ∷ loading p d

unfoldable pub get_finished : Progress → List Text → Worker → (List Text × List Text) × Worker
unfolding live_stores union in_stores loaded loading
get_finished p finished_req_ids w =
    let stores = live_stores p w.store_futures in
    let pending = union w.pending_sends finished_req_ids in
    (
      (in_stores false stores pending, loaded p w.load_futures),
      record w {
        store_futures = stores;
        pending_sends = in_stores true stores pending;
        load_futures = loading p w.load_futures;
      },
    )

unfoldable pub shutdown : Worker → Worker
shutdown w = record w { sent = w.sent ++ (unregister_sent w.instance_id ∷ []) }
