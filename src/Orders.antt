-- ===== src/Orders.antt =====
-- Orders (src/orders/orders.service.ts): what an order costs, and what is paid back.
pub mod Pricing
pub mod PricingLaws
pub mod Offer
pub mod NextTier
pub mod OfferLaws
pub mod Status
pub mod Refund
pub mod RefundLaws
pub mod Approval
pub mod Topup
pub mod TopupPrice
pub mod TopupLaws
pub mod TopupRepeats
mod Tests
