-- ===== src/Vouchers.antt =====
-- The voucher subsystem of src/vouchers: the price rules, the voucher document that reserves both
-- quotas, and the purchase and refund flows over the wallet's receipts.
pub mod Rules
pub mod RuleLaws
pub mod Authority
pub mod Moves
pub mod Quotas
pub mod Purchase
pub mod PurchaseLaws
pub mod Receipts
pub mod Paid
pub mod Dispatch
pub mod Delivery
pub mod Editing
pub mod EditingLaws
pub mod Refund
pub mod RefundLaws
mod Tests
