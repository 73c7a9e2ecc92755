-- ===== src/Conversion.antt =====
-- src/protocols/conversion: which protocol serves a request, and the conversion between protocols.
pub mod Routing
pub mod Planner
pub mod Ledger
pub mod Sse
pub mod StreamKeys
pub mod Tests
