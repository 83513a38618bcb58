-- ===== src/Integration.antt =====
-- mini_llmcache/integration.
pub mod Worker
pub mod Connector
