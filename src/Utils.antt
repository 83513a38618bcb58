-- ===== src/Utils.antt =====
-- mini_llmcache/utils.
pub mod Hasher
pub mod Device
