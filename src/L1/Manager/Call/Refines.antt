-- ===== src/L1/Manager/Call/Refines.antt =====
-- The methods of mini_llmcache/l1/manager.py do what the lock protocol says.
use mini_llmcache.Base.{ℕ, ◌≡◌, refl, none}
use mini_llmcache.L1.Memory.{MemoryObj}
use mini_llmcache.L1.Memory
use mini_llmcache.L1.Manager.{L1Manager, init, register_listener}
use mini_llmcache.L1.Manager.Valid.{IsValid}
use mini_llmcache.L1.Manager.Call.{
  Call, registers, reserves_write, finishes_write, finishes_write_and_reserves_read, reserves_read,
  reserves_read_prefix, reads, finishes_read, promotes, deletes, call,
}
use mini_llmcache.L1.Manager.Call.Spec.{Spec, IsLegal}
use mini_llmcache.L1.Manager.Call.Exclusive.{IsExclusive, Spec-IsExclusive}
use mini_llmcache.L1.Manager.Call.Reach.{call-IsValid, IsAllowed, init-IsValid}
use mini_llmcache.L1.Manager.Call.View.{view}
use mini_llmcache.L1.Manager.Call.Does.{
  Does, reserve_write-Does, finish_write-Does, hand_over-Does, read-Does, promote-Does,
}
use mini_llmcache.L1.Manager.Call.Holds.{
  finish_read-Does, delete-Does, reserve_read_prefix-Does, reserve_read-Does,
}

-- A legal call on a valid cache returns, keeps the cache valid, and does to the locks what the
-- protocol allows: it refines the abstract step.
pub call-Refines :
    (c : Call) (m : L1Manager)
    → IsValid m
    → IsLegal c (view m)
    → ((call c m).0 ≡ none) × IsValid (call c m).1 × Spec c (view m) (view (call c m).1)
call-Refines c m valid legal =
    let (returned, does) = refines c legal in
    (returned, call-IsValid c m (allowed c legal) valid, does)
  where
    allowed : (d : Call) → IsLegal d (view m) → IsAllowed d
    allowed (reserves_write keys n temp) l = l
    allowed (registers x) l = tt
    allowed (finishes_write keys) l = tt
    allowed (finishes_write_and_reserves_read keys) l = tt
    allowed (reserves_read keys) l = tt
    allowed (reserves_read_prefix keys) l = tt
    allowed (reads keys) l = tt
    allowed (finishes_read keys) l = tt
    allowed (promotes keys) l = tt
    allowed (deletes keys force) l = tt

    refines : (d : Call) → IsLegal d (view m) → Does d m
    refines (registers x) l = unfold call register_listener in (refl, λ j. refl)
    refines (reserves_write keys n temp) l = reserve_write-Does keys n temp m valid l
    refines (finishes_write keys) l = finish_write-Does keys m valid l.0 l.1
    refines (finishes_write_and_reserves_read keys) l = hand_over-Does keys m valid l.0 l.1
    refines (reserves_read keys) l = reserve_read-Does keys m valid l
    refines (reserves_read_prefix keys) l = reserve_read_prefix-Does keys m valid l
    refines (reads keys) l = read-Does keys m l
    refines (finishes_read keys) l = finish_read-Does keys m valid l.0 l.1
    refines (promotes keys) l = promote-Does keys m
    refines (deletes keys force) l = delete-Does keys force m valid l

-- From a new manager, by legal calls.
pub data LegalReach (capacity : ℕ) (contents : ℕ → ℕ) : L1Manager → Type 0 where
  start : LegalReach capacity contents (init (Memory.init capacity contents))
  later :
      {m : L1Manager}
      → LegalReach capacity contents m
      → (c : Call) → IsLegal c (view m)
      → LegalReach capacity contents (call c m).1

LegalReach-both :
    {capacity : ℕ} {contents : ℕ → ℕ} {m : L1Manager}
    → LegalReach capacity contents m
    → IsValid m × IsExclusive (view m)
LegalReach-both {capacity} {contents} start =
    unfold init in (init-IsValid capacity contents, λ j. refl)
LegalReach-both (later {m} r c legal) =
    let (valid, exclusive) = LegalReach-both r in
    let (returned, kept, does) = call-Refines c m valid legal in
    (kept, Spec-IsExclusive c (view m) (view (call c m).1) legal does exclusive)

-- In every state that legal calls on a new manager lead to, in whatever order threads make them: a
-- chunk that is written has no reader, and no read count is below 0.
pub LegalReach-IsExclusive :
    {capacity : ℕ} {contents : ℕ → ℕ} {m : L1Manager}
    → LegalReach capacity contents m
    → IsExclusive (view m)
LegalReach-IsExclusive r = (LegalReach-both r).1
