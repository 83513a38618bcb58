-- ===== src/Mq/Replies.antt =====
-- mini_llmcache/mq.py: each call gets its own reply, and no more than one.
use mini_llmcache.Base.{
  ℕ, ◌≤◌, ◌<◌, ◌≡◌, refl, ap, ◌∙◌, List, [], ◌∷◌, ◌++◌, Option, none, some, true, false, arith,
  if◌then◌else◌, Outcome, ok, raised, key_error, pickling_error, Action, ℕ_discrete, elem, Distinct,
  ite, All,
}
use mini_llmcache.Base.Dict.{lookup, insert, lookup-insert}
use mini_llmcache.Protocol.{Bytes, Req}
use mini_llmcache.Mq.{
  Value, Message, MqClient, submit, drop_uid, joined, on_recv, Result, value, chunked, handle,
  respond, ship, failed, nothing, byte_list, plain, is_chunk_result,
}

abbrev pub recv_all : List Message → MqClient → MqClient
recv_all [] c = c
recv_all (m ∷ ms) c = recv_all ms (on_recv m c)

-- The calls under way have different numbers, all below the counter.
pub record IsNumbered (c : MqClient) : Type 0 where
  pub distinct : Distinct ℕ_discrete c.pending
  pub below : All (λ u. u < c.uid_counter) c.pending

elem-append :
    (x : ℕ) (xs ys : List ℕ)
    → elem ℕ_discrete x (xs ++ ys) ≡ (if elem ℕ_discrete x xs then true else elem ℕ_discrete x ys)
elem-append x [] ys = refl
elem-append x (y ∷ xs) ys = ground (arith, elem-append x xs ys)

elem-above :
    (x : ℕ) (n : ℕ) (xs : List ℕ) → All (λ u. u < n) xs → n ≤ x → elem ℕ_discrete x xs ≡ false
elem-above x n [] h le = refl
elem-above x n (y ∷ xs) h le = ground (arith, elem-above x n xs h.1 le)

drop_uid-last :
    (x : ℕ) (xs : List ℕ) → elem ℕ_discrete x xs ≡ false → drop_uid x (xs ++ (x ∷ [])) ≡ xs
unfolding drop_uid
drop_uid-last x [] h = ground arith
drop_uid-last x (y ∷ xs) h = ground (arith, drop_uid-last x xs)

on_recv_stale :
    (m : Message) (c : MqClient) → elem ℕ_discrete m.uid c.pending ≡ false → on_recv m c ≡ c
unfolding on_recv
on_recv_stale m c h = ground (arith, h)

recv_all_stale :
    (uid : ℕ) (ms : List Message) (c : MqClient)
    → All (λ m. m.uid ≡ uid) ms
    → elem ℕ_discrete uid c.pending ≡ false
    → recv_all ms c ≡ c
recv_all_stale uid [] c h gone = refl
recv_all_stale uid (m ∷ ms) c h gone =
    rw (on_recv_stale m c (ap (λ u. elem ℕ_discrete u c.pending) h.0 ∙ gone))
      (recv_all_stale uid ms c h.1 gone)

-- The client once the call has been answered.
abbrev answered : MqClient → Req → Bytes → Message → MqClient
answered c req payload m = record (submit req payload c).1 {
  pending = c.pending;
  results = insert ℕ_discrete c.uid_counter (joined m.reply m.frames) c.results;
}

answered_once :
    (c : MqClient) (req : Req) (payload : Bytes) (m : Message)
    → elem ℕ_discrete c.uid_counter c.pending ≡ false
    → m.uid ≡ c.uid_counter
    → on_recv m (submit req payload c).1 ≡ answered c req payload m
unfolding submit on_recv
answered_once c req payload m fresh mine =
    let here : elem ℕ_discrete c.uid_counter (c.pending ++ (c.uid_counter ∷ [])) ≡ true =
      ground (arith, elem-append c.uid_counter c.pending (c.uid_counter ∷ [])) in
    rw (mine, here, drop_uid-last c.uid_counter c.pending fresh) refl

-- A call and the messages that answer it, the first of which is `m`: the future of the call is
-- resolved with the value of `m`, further answers change nothing, the call is no longer pending,
-- and the other futures are as they were.
submit-answered :
    (c : MqClient) (req : Req) (payload : Bytes) (m : Message) (ms : List Message)
    → IsNumbered c
    → let (uid, sent) = submit req payload c in
      m.uid ≡ uid
      → All (λ n. n.uid ≡ uid) ms
      → let c' = recv_all (m ∷ ms) sent in
        (c'.pending ≡ c.pending)
        × ((u : ℕ)
            → lookup ℕ_discrete u c'.results
              ≡ ite
                  (ℕ_discrete u uid)
                  (some (joined m.reply m.frames))
                  (lookup ℕ_discrete u c.results))
unfolding submit
submit-answered c req payload m ms numbered mine all =
    let n = c.uid_counter in
    let fresh = elem-above n n c.pending numbered.below (omega arith) in
    let done = answered_once c req payload m fresh mine in
    let rest = recv_all_stale n ms (answered c req payload m) all fresh in
    (
      ap (λ d. (recv_all ms d).pending) done ∙ ap (λ d. d.pending) rest,
      λ u.
          ap (λ d. lookup ℕ_discrete u (recv_all ms d).results) done
          ∙ ap (λ d. lookup ℕ_discrete u d.results) rest
          ∙ lookup-insert ℕ_discrete u n (joined m.reply m.frames) c.results,
    )

-- What the caller should see of a result: its value, or the chunks; a pair without chunks cannot be
-- pickled.
abbrev pub seen : {S : Type 0} → Result S → Outcome Value
seen (value v) = ok v
seen (chunked [] post_send) = raised pickling_error
seen (chunked (b ∷ chunks) post_send) = ok (byte_list (b ∷ chunks))

-- What the caller should see of a handler's run.
abbrev pub seen_run : {S : Type 0} → Outcome (Result S) × S → Outcome Value
seen_run (ok result, s) = seen result
seen_run (raised e, s) = raised e

abbrev pub seen_call :
    {S : Type 0} → (Req → Option (Bytes → Action S (Result S))) → Req → Bytes → S → Outcome Value
seen_call handlers req payload s = elim (handlers req) [
  | none ↦ raised key_error
  | some handler ↦ seen_run (handler payload s)
]

-- The messages answer the call, the first of them with `out`.
abbrev Answers : ℕ → Outcome Value → List Message → Type 0
Answers uid out ms =
    (m : Message) × (rest : List Message) × (ms ≡ m ∷ rest)
    × (m.uid ≡ uid)
    × All (λ n. n.uid ≡ uid) rest
    × (joined m.reply m.frames ≡ out)

joined-alone : (v : Value) → joined (ok v) [] ≡ ok v
unfolding joined
joined-alone nothing = refl
joined-alone (byte_list bs) = refl
joined-alone (plain v) = refl

ship-Answers :
    {S : Type 0} (uid : ℕ) (result : Result S) (s : S)
    → Answers uid (seen result) (ship uid result s).0
unfolding ship is_chunk_result joined
ship-Answers uid (value v) s =
    (record { uid = uid; reply = ok v; frames = [] }, [], refl, refl, tt, joined-alone v)
ship-Answers uid (chunked [] post_send) s = (failed uid pickling_error, [], refl, refl, tt, refl)
ship-Answers uid (chunked (b ∷ chunks) post_send) s = (
  record { uid = uid; reply = ok nothing; frames = b ∷ chunks },
  _,
  refl,
  refl,
  same_uid (post_send s).0,
  refl,
)
  where
    same_uid :
        (r : Outcome (Unit {0}))
        → All (λ n. n.uid ≡ uid) (elim r [ ok _ ↦ [] | raised e ↦ failed uid e ∷ [] ])
    same_uid (ok a) = tt
    same_uid (raised e) = (refl, tt)

handle-Answers :
    {S : Type 0} (handlers : Req → Option (Bytes → Action S (Result S))) (uid : ℕ) (req : Req)
    (payload : Bytes) (s : S)
    → Answers uid (seen_call handlers req payload s) (handle handlers (uid, req, payload) s).0
unfolding handle respond joined
handle-Answers {S} handlers uid req payload s = go (handlers req) refl
  where
    run : (p : Outcome (Result S) × S) → Answers uid (seen_run p) (respond uid p).0
    run (ok result, s') = ship-Answers uid result s'
    run (raised e, s') = (failed uid e, [], refl, refl, tt, refl)

    go :
        (o : Option (Bytes → Action S (Result S)))
        → handlers req ≡ o
        → Answers uid (seen_call handlers req payload s) (handle handlers (uid, req, payload) s).0
    go none e = rw (e, handle, seen_call) (failed uid key_error, [], refl, refl, tt, refl)
    go (some handler) e = rw (e, handle, seen_call) (run (handler payload s))

-- On a client whose calls under way are numbered apart, whatever the handler does, the messages
-- that answer a call resolve its future, with the value, the chunks or the exception, once and for
-- all; the call is no longer pending, and the other futures are as they were.
pub call-returns :
    {S : Type 0} (handlers : Req → Option (Bytes → Action S (Result S))) (c : MqClient) (req : Req)
    (payload : Bytes) (s : S)
    → IsNumbered c
    → let (uid, sent) = submit req payload c in
      let c' = recv_all (handle handlers (uid, req, payload) s).0 sent in
      (c'.pending ≡ c.pending)
      × ((u : ℕ)
          → lookup ℕ_discrete u c'.results
            ≡ ite
                (ℕ_discrete u uid)
                (some (seen_call handlers req payload s))
                (lookup ℕ_discrete u c.results))
unfolding submit
call-returns handlers c req payload s numbered =
    let (m, rest, shape, mine, all, same) = handle-Answers handlers c.uid_counter req payload s in
    rw (shape, ← same) (submit-answered c req payload m rest numbered mine all)
