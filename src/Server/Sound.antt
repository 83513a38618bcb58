-- ===== src/Server/Sound.antt =====
-- The cache server of mini_llmcache/server.py keeps its cache valid, whatever requests arrive.
use mini_llmcache.Base.{ℕ, List, [], ◌∷◌, ok, raised, pure, Outcome, carried}
use mini_llmcache.Protocol.{Bytes}
use mini_llmcache.L1.Listener.{policy, writer}
use mini_llmcache.L1.Manager.Valid.{IsValid}
use mini_llmcache.L1.Manager.Keeps.{register_listener-IsValid}
use mini_llmcache.L1.Manager.Call.Reach.{init-IsValid}
use mini_llmcache.L2.{Adapter}
use mini_llmcache.Storage.{Storage, Job, on_l1, add_writer}
use mini_llmcache.Storage
use mini_llmcache.Storage.Keeps.{HasValid, KeepsL1, prefetch-KeepsL1}
use mini_llmcache.Storage.Prefetch
use mini_llmcache.Storage.Evict.Keeps.{evict_round-Keeps, store_round-KeepsL1}
use mini_llmcache.Server.{
  CacheServer, register, unregister, lookup, store, retrieve, free_locks, end_session,
}
use mini_llmcache.Server.Keeps.{
  IsSound, HasDistinctKeys, store-IsSound, retrieve-IsSound, lookup-IsSound, post_send-IsSound,
  free_locks-IsSound, end_session-IsSound,
}
use mini_llmcache.Server.Steps.{
  init, asks_chunk_size, registers, unregisters, looks_up, queries, stores, retrieves, frees_locks,
  ends_session, acks, Answer, flag, views, prefetch_next, Step, handles, has_sent, prefetches,
  evicts, writes_back, dispatch, step,
}

prefetch_next-KeepsL1 : KeepsL1 prefetch_next
unfolding prefetch_next
prefetch_next-KeepsL1 s valid = go s.jobs
  where
    go :
        (jobs : List Job)
        → HasValid
            (elim jobs as (λ x. Outcome (Unit {0}) × Storage) [
              | [] ↦ (ok tt, s)
              | job ∷ jobs ↦
                  Prefetch.prefetch job.request_id job.keys job.chunk_nbytes
                    (record s { jobs = jobs })
            ]).1
    go [] = valid
    go (job ∷ jobs) =
        prefetch-KeepsL1 job.request_id job.keys job.chunk_nbytes (record s { jobs = jobs }) valid

-- The answer of a handler.
answered :
    {A : Type 0} (g : A → Answer) (p : Outcome A × CacheServer)
    → IsSound p.1
    → IsSound (carried (λ a. pure (g a)) p).1
answered g (ok a, c) sound = sound
answered g (raised e, c) sound = sound

module _ (blake3 : Bytes → Bytes) where
  -- The keys of a `store` are distinct; every other step may come at any time.
  abbrev pub IsAllowed : Step → CacheServer → Type 0
  IsAllowed (handles asks_chunk_size) c = Unit
  IsAllowed (handles (registers p)) c = Unit
  IsAllowed (handles (unregisters id)) c = Unit
  IsAllowed (handles (looks_up p)) c = Unit
  IsAllowed (handles (queries p)) c = Unit
  IsAllowed (handles (stores p)) c = HasDistinctKeys blake3 p c
  IsAllowed (handles (retrieves p)) c = Unit
  IsAllowed (handles (frees_locks p)) c = Unit
  IsAllowed (handles (ends_session id)) c = Unit
  IsAllowed (handles (acks p)) c = Unit
  IsAllowed (has_sent id keys) c = Unit
  IsAllowed prefetches c = Unit
  IsAllowed evicts c = Unit
  IsAllowed writes_back c = Unit

  step-IsSound :
      (e : Step) (c : CacheServer) → IsAllowed e c → IsSound c → IsSound (step blake3 e c)
  unfolding step dispatch register unregister
  step-IsSound (handles asks_chunk_size) c allowed sound = sound
  step-IsSound (handles (registers p)) c allowed sound = sound
  step-IsSound (handles (unregisters id)) c allowed sound = sound
  step-IsSound (handles (looks_up p)) c allowed sound =
      answered flag (lookup blake3 p c) (lookup-IsSound blake3 p c sound)
  step-IsSound (handles (queries p)) c allowed sound = sound
  step-IsSound (handles (stores p)) c allowed sound =
      answered flag (store blake3 p c) (store-IsSound blake3 p c allowed sound)
  step-IsSound (handles (retrieves p)) c allowed sound =
      answered (λ v. views v.0 v.1) (retrieve blake3 p c) (retrieve-IsSound blake3 p c sound)
  step-IsSound (handles (frees_locks p)) c allowed sound =
      answered flag (free_locks p c) (free_locks-IsSound p c sound)
  step-IsSound (handles (ends_session id)) c allowed sound =
      answered flag (end_session id c) (end_session-IsSound id c sound)
  step-IsSound (handles (acks p)) c allowed sound = sound
  step-IsSound (has_sent id keys) c allowed sound = post_send-IsSound id keys c sound
  step-IsSound prefetches c allowed sound = prefetch_next-KeepsL1 c.sm sound
  step-IsSound evicts c allowed sound = evict_round-Keeps c.sm.l1 sound
  step-IsSound writes_back c allowed sound = store_round-KeepsL1 c.sm sound

  -- The states of a server that are reached from a new one.
  pub data Reach (chunk_size capacity : ℕ) (contents : ℕ → ℕ) (l2s : List Adapter)
      : CacheServer → Type 0 where
    start : Reach chunk_size capacity contents l2s (init chunk_size capacity contents l2s)
    later :
        {c : CacheServer}
        → Reach chunk_size capacity contents l2s c
        → (e : Step) → IsAllowed e c
        → Reach chunk_size capacity contents l2s (step blake3 e c)

  init-IsSound :
      (chunk_size capacity : ℕ) (contents : ℕ → ℕ) (l2s : List Adapter)
      → IsSound (init chunk_size capacity contents l2s)
  unfolding init Storage.init
  init-IsSound chunk_size capacity contents [] =
      register_listener-IsValid (policy []) _ (init-IsValid capacity contents)
  init-IsSound chunk_size capacity contents (l2 ∷ l2s) =
      register_listener-IsValid (policy []) _
        (register_listener-IsValid (writer []) _ (init-IsValid capacity contents))

  -- Whatever requests a new server handles, one after the other and in any order with the rounds of
  -- its background threads, with or without secondary storage, its cache stays valid: the entries
  -- are named once, and the objects of the entries and the free segments tile the pool. The keys of
  -- a `store` must be distinct.
  pub Reach-IsSound :
      {chunk_size capacity : ℕ} {contents : ℕ → ℕ} {l2s : List Adapter} {c : CacheServer}
      → Reach chunk_size capacity contents l2s c
      → IsValid c.sm.l1
  Reach-IsSound {chunk_size} {capacity} {contents} {l2s} start =
      init-IsSound chunk_size capacity contents l2s
  Reach-IsSound (later {c} reached e allowed) = step-IsSound e c allowed (Reach-IsSound reached)
