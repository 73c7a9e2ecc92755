-- ===== src/Copilot.antt =====
-- src/copilot: what is modelled of the upstream connections.
pub mod PoolEntry
pub mod Registry
pub mod Tests
