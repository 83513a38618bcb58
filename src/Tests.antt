-- ===== src/Tests.antt =====
-- Concrete runs and states: the theorems applied where their hypotheses hold.
pub mod Data
mod Manager
mod Storage
mod Hasher
mod Connector
mod Evict
mod L2
mod Worker
mod Mq
mod L0
mod Memory
mod Call
mod Loop
mod Server
