-- ===== src/L1.antt =====
-- mini_llmcache/l1: the host-memory tier.
pub mod Memory
pub mod Listener
pub mod Manager
