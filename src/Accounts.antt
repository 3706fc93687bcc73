-- ===== src/Accounts.antt =====
-- The administrators' changes of a user's money and commission rate, of src/users.
pub mod Money
pub mod Ledger
mod Tests
