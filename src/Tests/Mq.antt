-- ===== src/Tests/Mq.antt =====
-- A call of a client that has another one under way, to a handler that answers with two chunks.
use mini_llmcache.Base.{
  ℕ, suc, ◌≡◌, refl, [], ◌∷◌, Option, some, arith, ok, Action, ite, ℕ_discrete, pure,
}
use mini_llmcache.Base.Dict.{lookup}
use mini_llmcache.Protocol.{Bytes, Req, retrieve}
use mini_llmcache.Mq.{MqClient, Result, chunked, submit, handle}
use mini_llmcache.Mq.Replies.{IsNumbered, recv_all, seen_call, call-returns}

abbrev client : MqClient
client = record { uid_counter = 4; pending = 2 ∷ []; results = []; sent = [] }

client-IsNumbered : IsNumbered client
client-IsNumbered = record { distinct = (refl, tt); below = (omega arith, tt) }

-- The state of the server is the number of callbacks that have run.
abbrev handlers : Req → Option (Bytes → Action ℕ (Result ℕ))
handlers req = some (λ payload. pure (chunked (payload ∷ (7 ∷ []) ∷ []) (λ n. (ok tt, suc n))))

call-returns_example :
    let (uid, sent) = submit retrieve (5 ∷ []) client in
    let c' = recv_all (handle handlers (uid, retrieve, 5 ∷ []) 0).0 sent in
    (c'.pending ≡ client.pending)
    × ((u : ℕ)
        → lookup ℕ_discrete u c'.results
          ≡ ite
              (ℕ_discrete u uid)
              (some (seen_call handlers retrieve (5 ∷ []) 0))
              (lookup ℕ_discrete u client.results))
call-returns_example = call-returns handlers client retrieve (5 ∷ []) 0 client-IsNumbered
