-- ===== src/Webhook.antt =====
-- The payment notifications of src/webhook/webhook.service.ts.
pub mod Matching
pub mod State
pub mod Transfers
pub mod Review
pub mod CreditStep
pub mod Safety
pub mod Payees
pub mod Codes
pub mod CodeLaws
mod Tests
