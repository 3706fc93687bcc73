-- ===== src/Promotion.antt =====
-- Deposit promotions (src/deposit-promotions): the quote of a deposit, the catalog of programs, the
-- intents that freeze a quote, and the crediting of a bank transfer.
pub mod Quote
mod Tests
pub mod QuoteLaws
pub mod Catalog
pub mod Overlaps
pub mod CatalogLaws
pub mod Claim
pub mod ClaimLaws
pub mod Credit
pub mod Payments
pub mod CreditLaws
