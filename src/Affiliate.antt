-- ===== src/Affiliate.antt =====
-- The affiliate program (src/affiliate/affiliate.service.ts): commissions from orders, their way
-- into the referrer's balance, and withdrawals to a bank. Amounts are in hundredths of a VND, rates
-- in hundredths of a percent. The dates that the documents carry are left out: nothing reads them.
pub mod State
pub mod Commissions
pub mod Withdrawals
pub mod Books
pub mod Requests
pub mod Run
mod Tests
