-- ===== src/L0.antt =====
-- mini_llmcache/l0: the layout of the GPU cache, and the copies between it and the host.
pub mod Format
pub mod Transfer
