-- ===== src/L1/Manager/Call/Reach.antt =====
-- The states that calls of mini_llmcache/l1/manager.py can lead to.
use mini_llmcache.Base.{ℕ, sym, subst, Outcome, ok, raised, Distinct}
use mini_llmcache.Protocol.{key_dec}
use mini_llmcache.L1.Memory
use mini_llmcache.L1.Memory.Allocate
use mini_llmcache.L1.Manager.{L1Manager, init}
use mini_llmcache.L1.Manager.Valid.{IsValid}
use mini_llmcache.L1.Manager.Write.{reserve_write-Reserves}
use mini_llmcache.L1.Manager.Read.{reserve_read-IsValid}
use mini_llmcache.L1.Manager.Keeps.{
  finish_write-Keeps, finish_write_and_reserve_read-Keeps, reserve_read_prefix-Keeps, read_state,
  finish_read-Keeps, promote-IsValid, delete-Keeps, register_listener-IsValid,
}
use mini_llmcache.L1.Manager.Call.{
  Call, registers, reserves_write, finishes_write, finishes_write_and_reserves_read, reserves_read,
  reserves_read_prefix, reads, finishes_read, promotes, deletes, status, call,
}

-- `reserve_write` of a key that stands twice loses a segment; every other call may come with any
-- keys.
abbrev pub IsAllowed : Call → Type 0
IsAllowed (reserves_write keys n temp) = Distinct key_dec keys
IsAllowed (registers l) = Unit
IsAllowed (finishes_write keys) = Unit
IsAllowed (finishes_write_and_reserves_read keys) = Unit
IsAllowed (reserves_read keys) = Unit
IsAllowed (reserves_read_prefix keys) = Unit
IsAllowed (reads keys) = Unit
IsAllowed (finishes_read keys) = Unit
IsAllowed (promotes keys) = Unit
IsAllowed (deletes keys force) = Unit

-- From a new manager, by calls that return or raise.
pub data Reach (capacity : ℕ) (contents : ℕ → ℕ) : L1Manager → Type 0 where
  start : Reach capacity contents (init (Memory.init capacity contents))
  later :
      {m : L1Manager}
      → Reach capacity contents m
      → (c : Call) → IsAllowed c
      → Reach capacity contents (call c m).1

status_state : {A : Type 0} (p : Outcome A × L1Manager) → IsValid p.1 → IsValid (status p).1
status_state (ok a, m) h = h
status_state (raised e, m) h = h

pub call-IsValid : (c : Call) (m : L1Manager) → IsAllowed c → IsValid m → IsValid (call c m).1
unfolding call
call-IsValid (registers l) m a v = register_listener-IsValid l m v
call-IsValid (reserves_write keys n temp) m a v = (reserve_write-Reserves m keys n temp v a).valid
call-IsValid (finishes_write keys) m a v = status_state _ (finish_write-Keeps keys m v)
call-IsValid (finishes_write_and_reserves_read keys) m a v =
    status_state _ (finish_write_and_reserve_read-Keeps keys m v)
call-IsValid (reserves_read keys) m a v = reserve_read-IsValid keys m v
call-IsValid (reserves_read_prefix keys) m a v = status_state _ (reserve_read_prefix-Keeps keys m v)
call-IsValid (reads keys) m a v = status_state _ (subst IsValid (sym (read_state keys m)) v)
call-IsValid (finishes_read keys) m a v = status_state _ (finish_read-Keeps keys m v)
call-IsValid (promotes keys) m a v = promote-IsValid keys m v
call-IsValid (deletes keys force) m a v = status_state _ (delete-Keeps keys force m v)

pub init-IsValid :
    (capacity : ℕ) (contents : ℕ → ℕ) → IsValid (init (Memory.init capacity contents))
unfolding init
init-IsValid capacity contents = record {
  pool = Allocate.init-IsValid capacity contents;
  dict = tt;
}

-- In every state that calls on a new manager lead to, in whatever order threads make them and even
-- if some raise: the objects of the entries are live in the allocator, each byte below `brk` lies
-- in exactly one of them or in one free segment, and no key has two entries. The keys of a
-- `reserve_write` must be distinct.
pub Reach-IsValid :
    {capacity : ℕ} {contents : ℕ → ℕ} {m : L1Manager} → Reach capacity contents m → IsValid m
Reach-IsValid {capacity} {contents} start = init-IsValid capacity contents
Reach-IsValid (later {m} r c a) = call-IsValid c m a (Reach-IsValid r)
