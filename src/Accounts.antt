-- ===== src/Accounts.antt =====
-- src/accounts: what is modelled of the accounts.
pub mod Lane
pub mod Coordinator
pub mod Tests
