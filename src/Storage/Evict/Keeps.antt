-- ===== src/Storage/Evict/Keeps.antt =====
-- The rounds of the background threads (mini_llmcache/l1/eviction.py and
-- mini_llmcache/l1/store_controller.py) keep the cache valid.
use mini_llmcache.Base.{
  List, false, ok, raised, pure, Preserves-bind, if_run, map, ◌==◌, Option-cases, inl, inr,
  zero_division_error,
}
use mini_llmcache.Protocol.{ChunkKey}
use mini_llmcache.L1.Listener.{get_victims}
use mini_llmcache.L1.Manager.{delete, usage, reserve_read, is_evictable}
use mini_llmcache.L1.Manager.Valid.{IsValid}
use mini_llmcache.L1.Manager.Read.{reserve_read-IsValid}
use mini_llmcache.L1.Manager.Keeps.{Keeps, finish_read-Keeps, delete-Keeps}
use mini_llmcache.Storage.Keeps.{KeepsL1}
use mini_llmcache.Storage.Evict.{
  evict_round, below_watermark, policy_order, take_batch, locked_objs, store_batch, store_round,
}

pub evict_round-Keeps : Keeps evict_round
unfolding evict_round
evict_round-Keeps m valid =
    let victims = get_victims 1 5 (is_evictable m) (policy_order m.listeners) in
    if_run IsValid ((usage m).1 == 0) (raised zero_division_error, m) _ valid
      (if_run IsValid (below_watermark (usage m).0 (usage m).1) (ok tt, m) _ valid
        (Preserves-bind (delete victims false) (λ _. pure tt) (delete-Keeps victims false)
          (λ _ s h. h) m valid))

store_batch-KeepsL1 : (keys : List ChunkKey) → KeepsL1 (store_batch keys)
unfolding store_batch
store_batch-KeepsL1 keys s valid =
    let (reserved, m) = reserve_read keys s.l1 in
    finish_read-Keeps (map (λ p. p.0) (locked_objs keys reserved)) m
      (reserve_read-IsValid keys s.l1 valid)

pub store_round-KeepsL1 : KeepsL1 store_round
unfolding store_round
store_round-KeepsL1 s valid = elim (Option-cases (take_batch s.l1.listeners)) [
  | inl idle ↦ rw (idle, store_round) valid
  | inr (p, got) ↦
      rw (got, store_round)
        (store_batch-KeepsL1 p.0 (record s { l1 = record s.l1 { listeners = p.1 } })
          (record { pool = valid.pool; dict = valid.dict }))
]
