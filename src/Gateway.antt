-- ===== src/Gateway.antt =====
-- src/gateway: how a request is admitted and how its failures are reported.
pub mod Failures
pub mod Admission
pub mod BodyReader
pub mod Tests
