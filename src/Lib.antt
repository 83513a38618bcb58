-- ===== src/Lib.antt =====
-- The cache server and the vLLM connector of mini-llmcache.
--
-- A vLLM engine computes key-value blocks; the cache keeps them by chunk of tokens, in a pool of host
-- memory (L1) and in secondary storage (L2). The scheduler's side of the connector
-- (mini_llmcache/integration/vllm_connector.py) asks the server with LOOKUP which prefix of a prompt
-- is cached, frees the read locks that it does not need, and turns vLLM's schedule into RETRIEVE and
-- STORE operations. The server (mini_llmcache/server.py) turns tokens into chunk keys by a chain of
-- hashes (mini_llmcache/utils/hasher.py) and works on the storage manager
-- (mini_llmcache/storage_manager.py): the L1 manager with its entries and locks
-- (mini_llmcache/l1/manager.py), the allocator (mini_llmcache/l1/memory.py), the prefetch worker
-- and its sessions (mini_llmcache/l1/prefetch_controller.py), the eviction and write-back threads
-- (mini_llmcache/l1/eviction.py, mini_llmcache/l1/store_controller.py) and the adapters of L2
-- (mini_llmcache/l2).
--
-- Files and what they model:
--   Base, Base/*                  numbers, lists, dicts, signed integers, state and exceptions
--   Protocol                      mini_llmcache/protocol.py
--   L1/Memory                     PoolAllocator and MemoryObj; a tensor slice is an offset and a length
--   L1/Listener                   LRUPolicy and StoreController as observers: order and queue
--   L1/Manager                    L1Manager: one function for each method
--   L1/Manager/Call               the calls of its methods as steps, and the lock protocol they follow
--   L2, L2/Mock, L2/Fs            mini_llmcache/l2: the adapters; a task of an adapter's worker is one step
--   Storage                       StorageManager: the state that the threads share
--   Storage/Prefetch              PrefetchController
--   Storage/Evict                 EvictionController.run and StoreController.run, round by round
--   Server                        the handlers of CacheServer
--   Server/Steps                  a new server, the dispatch of a request, and the rounds of the threads
--   Utils/Hasher                  hash_one and chunk_hashes
--   Integration/Connector         RequestTracker and the scheduler's hooks of MiniConnector
--   Integration/Connector/Meta    build_connector_meta
--   Integration/Worker            the worker's hooks of MiniConnector, and DeviceFuture
--   Mq                            MQClient and MQServer of mini_llmcache/mq.py
--   Mq/Loop                       SocketLoop: the I/O thread and the threads that send, step by step
--   L0/Format, L0/Transfer        kv_format.py and KVTransfer of mini_llmcache/l0
--   Utils/Device                  mini_llmcache/utils/device.py
--   Tests                         concrete states and runs
-- The modules below a component hold the proofs about it.
--
-- A method is a function on the state of its object. One that can raise is an `Action`: it takes the
-- state and gives an outcome, a value or an exception, with the state, which keeps what was written
-- before a raise. A method that works under a lock from beginning to end is one step; where the lock
-- is given up in between (`release`, `end_session`, `resolve`) the parts are functions of their own,
-- so that orders of steps of several threads can be written down. In Server/Steps a request is handled
-- from beginning to end before the next step; L1/Manager/Call interleaves the calls on the manager,
-- and Mq/Loop the threads at a socket, down to the single read, write and lock.
--
-- Loops are recursion on the list that the source iterates, or on the number of rounds that its
-- `range` has; the two loops of `allocate` recurse on the number of slices still wanted, which each
-- round lowers. `hex_from` recurses on the value of the number and one, which is more than its
-- digits. No definition can run out of fuel.
--
-- A pool and its byte views are an offset, a length and one function from offsets to bytes; a dict is
-- an association list in insertion order; a float ratio (the watermark, the eviction ratio) is a
-- quotient of naturals. The digest function of blake3 and the operations of torch on tensors are
-- parameters; pickle is taken as exact, and a socket keeps its messages in order. What vLLM hands over
-- is a parameter, by the attributes that the code reads.
--
-- Not modelled: printing and timing, an `OSError` of the disk under the file-system adapter, device
-- streams and events, socket options, the timeout of a call, the construction of adapters from the
-- command line, and the benchmarks.
pub mod Base
pub mod Protocol
pub mod L1
pub mod L2
pub mod Storage
pub mod Utils
pub mod Integration
pub mod Server
pub mod Mq
pub mod L0
pub mod Tests
