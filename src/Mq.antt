-- ===== src/Mq.antt =====
-- mini_llmcache/mq.py: calls over sockets. Pickle and ZeroMQ are taken as exact: a frame that
-- pickle makes stands for its value, and a message arrives as it was sent. A payload, and a value
-- that is neither `None` nor a list of byte strings, is its pickled bytes. An exception travels as an
-- `Error`.
pub mod Replies
pub mod Loop
use mini_llmcache.Base.{
  ℕ, suc, List, [], ◌∷◌, ◌++◌, Option, none, some, Bool, true, false, if◌then◌else◌, ◌&&◌, not,
  Outcome, ok, raised, Error, key_error, pickling_error, Action, ℕ_discrete, elem,
}
use mini_llmcache.Base.Dict.{Dict, insert, lookup}
use mini_llmcache.Protocol.{Bytes, Req, req_dec}

-- The value of a reply: `None`, a list of byte strings, or another.
pub data Value : Type 0 where
  nothing : Value
  byte_list : List Bytes → Value
  plain : Bytes → Value

-- `(uid, ok, value-or-exception)`, with the frames that follow.
pub record Message : Type 0 where
  pub uid : ℕ
  pub reply : Outcome Value
  pub frames : List Bytes

-- `pending` are the keys of the dict; the future of a call is named by its uid, and `results` has
-- those that are resolved.
pub record MqClient : Type 0 where
  pub uid_counter : ℕ
  pub pending : List ℕ
  pub results : Dict ℕ (Outcome Value)
  pub sent : List (ℕ × Req × Bytes)

unfoldable pub submit : Req → Bytes → MqClient → ℕ × MqClient
submit req payload c = (
  c.uid_counter,
  record c {
    uid_counter = suc c.uid_counter;
    pending = c.pending ++ (c.uid_counter ∷ []);
    sent = c.sent ++ ((c.uid_counter, req, payload) ∷ []);
  },
)

-- `self.pending.pop(uid, None)`
unfoldable pub drop_uid : ℕ → List ℕ → List ℕ
drop_uid uid [] = []
drop_uid uid (u ∷ pending) = elim (ℕ_discrete uid u) [
  | yes _ ↦ pending
  | no _ ↦ u ∷ drop_uid uid pending
]

-- The value with the frames that follow it.
unfoldable pub joined : Outcome Value → List Bytes → Outcome Value
joined (ok nothing) (f ∷ frames) = ok (byte_list (f ∷ frames))
joined (ok nothing) [] = ok nothing
joined (ok (byte_list bs)) frames = ok (byte_list bs)
joined (ok (plain v)) frames = ok (plain v)
joined (raised e) frames = raised e

unfoldable pub on_recv : Message → MqClient → MqClient
unfolding joined drop_uid
on_recv m c =
    if elem ℕ_discrete m.uid c.pending
    then record c {
      pending = drop_uid m.uid c.pending;
      results = insert ℕ_discrete m.uid (joined m.reply m.frames) c.results;
    }
    else c

-- What a handler returns: a value, or a pair of chunks and a callback.
pub data Result (S : Type 0) : Type 0 where
  value : Value → Result S
  chunked : List Bytes → Action S (Unit {0}) → Result S

unfoldable pub is_chunk_result : {S : Type 0} → Result S → Bool
is_chunk_result (value v) = false
is_chunk_result (chunked [] post_send) = false
is_chunk_result (chunked (b ∷ chunks) post_send) = true

abbrev pub failed : ℕ → Error → Message
failed uid e = record { uid = uid; reply = raised e; frames = [] }

-- What is sent for a result, and the state after it: a callback cannot be pickled, and what
-- `post_send` raises is answered as well.
unfoldable pub ship : {S : Type 0} → ℕ → Result S → S → List Message × S
unfolding is_chunk_result
ship uid (value v) s = (record { uid = uid; reply = ok v; frames = [] } ∷ [], s)
ship uid (chunked chunks post_send) s =
    let (r, s') = post_send s in
    if is_chunk_result (chunked chunks post_send)
    then (
      record { uid = uid; reply = ok nothing; frames = chunks }
          ∷ elim r [ ok _ ↦ [] | raised e ↦ failed uid e ∷ [] ],
      s',
    )
    else (failed uid pickling_error ∷ [], s)

-- The answers to a handler's run, an exception of it included.
unfoldable pub respond : {S : Type 0} → ℕ → Outcome (Result S) × S → List Message × S
unfolding ship
respond uid (ok result, s) = ship uid result s
respond uid (raised e, s) = (failed uid e ∷ [], s)

-- `handle`, on a request of which the handlers know or do not know the kind.
unfoldable pub handle :
    {S : Type 0}
    → (Req → Option (Bytes → Action S (Result S)))
    → ℕ × Req × Bytes
    → S
    → List Message × S
unfolding respond
handle handlers (uid, req, payload) s = elim (handlers req) [
  | none ↦ (failed uid key_error ∷ [], s)
  | some handler ↦ respond uid (handler payload s)
]
