-- ===== src/WireJson.antt =====
-- src/serialization/wire_json.ts and canonical_json.ts: JSON read and written byte by byte, with
-- numbers kept as lexemes and members in their order.
pub mod Syntax
pub mod Outcome
pub mod Utf8
pub mod Strings
pub mod Numbers
pub mod Parser
pub mod Writer
pub mod Tests
pub mod Characters
pub mod StringTrip
pub mod NumberTrip
pub mod NumberSound
pub mod StringSound
pub mod Parsed
pub mod RoundTrip
pub mod Termination
pub mod Canonical
