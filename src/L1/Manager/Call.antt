-- ===== src/L1/Manager/Call.antt =====
-- The calls of the methods of mini_llmcache/l1/manager.py as steps: each holds the manager's lock
-- from beginning to end, so threads interleave call by call.
pub mod Reach
pub mod Spec
pub mod Exclusive
pub mod View
pub mod Does
pub mod Holds
pub mod Refines
use mini_llmcache.Base.{ℕ, List, Option, none, some, Bool, Outcome, ok, raised, Error, Action}
use mini_llmcache.Protocol.{ChunkKey}
use mini_llmcache.L1.Listener.{Listener}
use mini_llmcache.L1.Manager.{
  L1Manager, register_listener, reserve_write, finish_write, finish_write_and_reserve_read,
  reserve_read, reserve_read_prefix, read, finish_read, promote, delete,
}

pub data Call : Type 0 where
  registers : Listener → Call
  reserves_write : List ChunkKey → ℕ → Bool → Call
  finishes_write : List ChunkKey → Call
  finishes_write_and_reserves_read : List ChunkKey → Call
  reserves_read : List ChunkKey → Call
  reserves_read_prefix : List ChunkKey → Call
  reads : List ChunkKey → Call
  finishes_read : List ChunkKey → Call
  promotes : List ChunkKey → Call
  deletes : List ChunkKey → Bool → Call

-- The exception, if there is one, and the state.
abbrev pub status : {A : Type 0} → Outcome A × L1Manager → Option Error × L1Manager
status (ok a, m) = (none, m)
status (raised e, m) = (some e, m)

unfoldable pub call : Call → L1Manager → Option Error × L1Manager
call (registers l) m = (none, register_listener l m)
call (reserves_write keys n temp) m = (none, (reserve_write keys n temp m).1)
call (finishes_write keys) m = status (finish_write keys m)
call (finishes_write_and_reserves_read keys) m = status (finish_write_and_reserve_read keys m)
call (reserves_read keys) m = (none, (reserve_read keys m).1)
call (reserves_read_prefix keys) m = status (reserve_read_prefix keys m)
call (reads keys) m = status (read keys m)
call (finishes_read keys) m = status (finish_read keys m)
call (promotes keys) m = (none, promote keys m)
call (deletes keys force) m = status (delete keys force m)
